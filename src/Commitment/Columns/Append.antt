-- ===== src/Commitment/Columns/Append.antt =====
-- `try_append_rows_with_offset` on a value that commits to a table.
use sxt_proof_of_sql.Shared.{
  ℕ, ◌+◌, ok, true, ◌==◌, List, map, length, length-map, ◌≡◌, refl, ◌∙◌, ap, arith,
}
use sxt_proof_of_sql.Database.Names.{identifier_eq}
use sxt_proof_of_sql.Database.IndexMap.{IndexMap}
use sxt_proof_of_sql.Commitment.Metadata.{ColumnCommitmentMetadata}
use sxt_proof_of_sql.Commitment.MetadataMap
use sxt_proof_of_sql.Commitment.MetadataMap.Exact.{
  Columns, exact_entries, DistinctKeys-exact_entries, SameSchema, concat_columns, zip_entries-exact,
  DistinctKeys-concat_columns, DistinctKeys-SameSchema, length-exact_entries, length-SameSchema,
}
use sxt_proof_of_sql.Commitment.Scheme.{Scheme, IsLinear}
use sxt_proof_of_sql.Commitment.Vec
use sxt_proof_of_sql.Commitment.Columns.{
  ColumnCommitments, try_append_rows_with_offset, AppendColumnCommitmentsError,
}
use sxt_proof_of_sql.Commitment.Columns.Unique.{check_unique_ok}
use sxt_proof_of_sql.Commitment.Columns.FromColumns.{
  HasRows, commits, length-commits, IsExact, map-from_columns, commits-concat_columns,
  from_columns-map_values,
}

module _ (s : Scheme) (index_map : IndexMap ColumnCommitmentMetadata) (linear : IsLinear s) where
  open s use {PublicSetup}
  open index_map use {Map, entries, collect, len_entries, collect_entries}

  -- The union of the map of a table with that of rows of the same schema.
  try_union-exact :
      (m n : Map) (old new : Columns)
      → SameSchema old new
      → entries m ≡ exact_entries old
      → entries n ≡ exact_entries new
      → MetadataMap.try_union index_map m n ≡ ok (collect (exact_entries (concat_columns old new)))
  unfolding MetadataMap.try_union
  try_union-exact m n old new h p q = rw (same_len, p, q, zip_entries-exact old new h)
    where
      same_len : (index_map.len m == index_map.len n) ≡ true
      same_len = ground (
        arith,
        len_entries m,
        len_entries n,
        ap length p,
        ap length q,
        length-exact_entries old,
        length-exact_entries new,
        length-SameSchema old new h,
      )

  append_points :
      (points : List s.Point) (old new : Columns) (n offset : ℕ) (setup : PublicSetup)
      → points ≡ commits s index_map linear old offset setup
      → SameSchema old new
      → HasRows n old
      → Vec.try_append_rows_with_offset s points (map (λ e. e.1) new) (offset + n) setup
        ≡ ok (commits s index_map linear (concat_columns old new) offset setup)
  unfolding Vec.try_append_rows_with_offset Vec.from_columns_with_offset
  append_points points old new n offset setup p h k =
      rw (p, same_len)
        (ap ok (
          ap (Vec.unsafe_add_assign s (commits s index_map linear old offset setup))
            (from_columns-map_values s index_map linear new (offset + n) setup)
          ∙ commits-concat_columns s index_map linear old new n offset setup h k))
    where
      same_len :
          (length (commits s index_map linear old offset setup) == length (map (λ e. e.1) new))
          ≡ true
      same_len = ground (
        arith,
        length-commits s index_map linear old offset setup,
        length-map new (λ e. e.1),
        length-SameSchema old new h,
      )

  -- Appending rows to the commitment to a table gives the commitment to the table with the rows at
  -- its end: same points, same metadata. The new rows must have the schema of the table, and their
  -- offset be that of the row behind its last.
  pub try_append_rows-concat_columns :
      (cc : ColumnCommitments s index_map) (old new : Columns) (n offset : ℕ) (setup : PublicSetup)
      → IsExact s index_map linear cc old offset setup
      → SameSchema old new
      → HasRows n old
      → (cc' : ColumnCommitments s index_map) × (try_append_rows_with_offset s index_map cc new
            (offset + n)
            setup
          ≡ ok cc')
        × IsExact s index_map linear cc' (concat_columns old new) offset setup
  unfolding try_append_rows_with_offset
  try_append_rows-concat_columns cc old new n offset setup x h k =
      let distinct = DistinctKeys-SameSchema old new h x.distinct in
      let (p, q) =
        map-from_columns s index_map linear {E = AppendColumnCommitmentsError} new distinct in
      let all_distinct = DistinctKeys-concat_columns old new h x.distinct in
      (
        record {
          commitments = commits s index_map linear (concat_columns old new) offset setup;
          column_metadata = collect (exact_entries (concat_columns old new));
        },
        rw (
          check_unique_ok new distinct,
          p,
          try_union-exact cc.column_metadata (collect (exact_entries new)) old new h x.described q,
          append_points cc.commitments old new n offset setup x.committed h k,
        ),
        record {
          committed = refl;
          described =
              collect_entries (exact_entries (concat_columns old new))
                (DistinctKeys-exact_entries (concat_columns old new) all_distinct);
          distinct = all_distinct;
        },
      )
