-- ===== src/Commitment/Columns/FromColumns.antt =====
-- `ColumnCommitments` as commitments to a table: what the constructor makes, and that appending
-- rows, adding and subtracting give the commitments to the rows put together or left.
use sxt_proof_of_sql.Shared.{
  ℕ, ◌+◌, ok, err, List, [], ◌∷◌, map, length, length-map, All, ◌≡◌, refl, sym, ◌∙◌, ap, ap₂, ◌⊎◌,
  inl, inr,
}
use sxt_proof_of_sql.Database.Names.{Identifier, identifier_eq}
use sxt_proof_of_sql.Database.IndexMap.{IndexMap, DistinctKeys}
use sxt_proof_of_sql.Commitment.CommittableColumn
use sxt_proof_of_sql.Commitment.CommittableColumn.{CommittableColumn, column_type, concat}
use sxt_proof_of_sql.Commitment.Metadata.{ColumnCommitmentMetadata}
use sxt_proof_of_sql.Commitment.MetadataMap
use sxt_proof_of_sql.Commitment.MetadataMap.Exact.{
  Columns, exact_entries, column_entries-exact, DistinctKeys-exact_entries, SameSchema,
  concat_columns, DescribesColumns, exact_entries-DescribesColumns,
}
use sxt_proof_of_sql.Commitment.Scheme.{Scheme, IsLinear}
use sxt_proof_of_sql.Commitment.Vec
use sxt_proof_of_sql.Commitment.Vec.Linear.{from_columns-map}
use sxt_proof_of_sql.Commitment.Columns.{
  DuplicateIdentifiers, duplicate_identifiers, ColumnCommitments, try_from_columns_with_offset,
}
use sxt_proof_of_sql.Commitment.Columns.Unique.{IsRepeated, check_unique_cases}

-- All columns have `n` rows.
abbrev pub HasRows : ℕ → Columns → Type 0
HasRows n = All (λ e. CommittableColumn.len e.1 ≡ n)

module _ (s : Scheme) (index_map : IndexMap ColumnCommitmentMetadata) (linear : IsLinear s) where
  open s use {Point, PublicSetup}
  open index_map use {entries, entries_distinct, len_entries, collect_entries}
  open linear use {commit, commit-concat}

  abbrev pub commits : Columns → ℕ → PublicSetup → List Point
  commits columns offset setup = map (λ e. commit e.1 offset setup) columns

  pub length-commits :
      (columns : Columns) (offset : ℕ) (setup : PublicSetup)
      → length (commits columns offset setup) ≡ length columns
  length-commits columns offset setup = length-map columns _

  -- The value that commits to the columns at the offset, with exact bounds.
  pub record IsExact (cc : ColumnCommitments s index_map) (columns : Columns) (offset : ℕ)
      (setup : PublicSetup) : Type 0 where
    pub committed : cc.commitments ≡ commits columns offset setup
    pub described : entries cc.column_metadata ≡ exact_entries columns
    pub distinct : DistinctKeys columns

  -- The same with any bounds that hold.
  pub record Commits (cc : ColumnCommitments s index_map) (columns : Columns) (offset : ℕ)
      (setup : PublicSetup) : Type 0 where
    pub committed : cc.commitments ≡ commits columns offset setup
    pub described : DescribesColumns (entries cc.column_metadata) columns
    pub distinct : DistinctKeys columns

  pub IsExact-Commits :
      {cc : ColumnCommitments s index_map} {columns : Columns} {offset : ℕ} {setup : PublicSetup}
      → IsExact cc columns offset setup
      → Commits cc columns offset setup
  IsExact-Commits {columns} x = record {
    committed = x.committed;
    described = rw x.described (exact_entries-DescribesColumns columns);
    distinct = x.distinct;
  }

  pub from_columns-map_values :
      (columns : Columns) (offset : ℕ) (setup : PublicSetup)
      → Vec.from_columns_with_offset s (map (λ e. e.1) columns) offset setup
        ≡ commits columns offset setup
  from_columns-map_values columns offset setup =
      from_columns-map s linear (map (λ e. e.1) columns) offset setup ∙ fuse columns
    where
      fuse :
          (l : Columns)
          → map (λ c. commit c offset setup) (map (λ e. e.1) l) ≡ commits l offset setup
      fuse [] = refl
      fuse (e ∷ l) = ap (λ r. commit e.1 offset setup ∷ r) (fuse l)

  -- The metadata map of columns with distinct identifiers.
  pub map-from_columns {ε} :
      {E : Type ε} (columns : Columns)
      → DistinctKeys columns
      → (MetadataMap.from_columns index_map {E = E} columns
          ≡ ok (index_map.collect (exact_entries columns)))
        × (entries (index_map.collect (exact_entries columns)) ≡ exact_entries columns)
  unfolding MetadataMap.from_columns
  map-from_columns {E} columns h = (
    rw (column_entries-exact {E = E} columns),
    collect_entries (exact_entries columns) (DistinctKeys-exact_entries columns h),
  )

  -- Committing to columns succeeds exactly where their identifiers are distinct. The result then
  -- has the commitment of each column at the offset and exact metadata; else the error names an
  -- identifier that repeats.
  pub try_from_columns_cases :
      (columns : Columns) (offset : ℕ) (setup : PublicSetup)
      → (DistinctKeys columns
          × ((cc : ColumnCommitments s index_map) × (try_from_columns_with_offset s index_map
                  columns offset setup
                ≡ ok cc)
              × IsExact cc columns offset setup))
        ⊎ (¬ DistinctKeys columns
            × ((i : Identifier) × (try_from_columns_with_offset s index_map columns offset setup
                  ≡ err (duplicate_identifiers i.name))
                × IsRepeated i columns))
  unfolding try_from_columns_with_offset
  try_from_columns_cases columns offset setup = elim (check_unique_cases columns) [
    | inl (h, p) ↦
        let (q, r) = map-from_columns {E = DuplicateIdentifiers} columns h in
        inl (
          h,
          (
            record {
              commitments = Vec.from_columns_with_offset s (map (λ e. e.1) columns) offset setup;
              column_metadata = index_map.collect (exact_entries columns);
            },
            rw (p, q),
            record {
              committed = from_columns-map_values columns offset setup;
              described = r;
              distinct = h;
            },
          ),
        )
    | inr (bad, (i, p, q)) ↦ inr (bad, (i, rw p, q))
  ]

  pub commits-concat_columns :
      (xs ys : Columns) (n offset : ℕ) (setup : PublicSetup)
      → SameSchema xs ys
      → HasRows n xs
      → Vec.unsafe_add_assign s (commits xs offset setup) (commits ys (offset + n) setup)
        ≡ commits (concat_columns xs ys) offset setup
  unfolding Vec.unsafe_add_assign
  commits-concat_columns [] [] n offset setup h k = refl
  commits-concat_columns [] (y ∷ ys) n offset setup h k = absurd h
  commits-concat_columns (x ∷ xs) [] n offset setup h k = absurd h
  commits-concat_columns ((i, c) ∷ xs) ((j, d) ∷ ys) n offset setup h k =
      ap₂ (λ p l. p ∷ l) (sym (rw k.0 at (commit-concat c d offset setup h.1)))
        (commits-concat_columns xs ys n offset setup h.2 k.1)
