-- ===== src/Commitment/Columns/Extend.antt =====
-- `try_extend_columns_with_offset` on a value that commits to a table.
use sxt_proof_of_sql.Shared.{
  ℕ, ok, err, true, [], ◌∷◌, ◌++◌, All-map, ◌≡◌, refl, sym, ◌∙◌, ap, ap₂, subst, ◌⊎◌, inl, inr,
}
use sxt_proof_of_sql.Database.Names.{Identifier}
use sxt_proof_of_sql.Database.IndexMap.{IndexMap, has_key, DistinctKeys}
use sxt_proof_of_sql.Database.IndexMap.Keys.{DistinctKeys-append_right}
use sxt_proof_of_sql.Commitment.Metadata.{ColumnCommitmentMetadata}
use sxt_proof_of_sql.Commitment.MetadataMap.Exact.{
  Columns, exact_entries, exact_metadata, has_key-exact_entries, DistinctKeys-exact_entries,
}
use sxt_proof_of_sql.Commitment.Scheme.{Scheme, IsLinear}
use sxt_proof_of_sql.Commitment.Columns.{
  ColumnCommitments, duplicate_identifiers, try_extend_columns_with_offset,
}
use sxt_proof_of_sql.Commitment.Columns.Unique.{
  Absent, check_new_cases, IsRepeated-has_key, DistinctKeys-append, DistinctKeys-Absent,
}
use sxt_proof_of_sql.Commitment.Columns.FromColumns.{commits, IsExact, try_from_columns_cases}

exact_entries-append :
    (xs ys : Columns) → exact_entries (xs ++ ys) ≡ exact_entries xs ++ exact_entries ys
exact_entries-append [] ys = refl
exact_entries-append ((i, c) ∷ xs) ys =
    ap (λ l. (i, exact_metadata c) ∷ l) (exact_entries-append xs ys)

Absent-of_exact : (xs ys : Columns) → Absent (exact_entries xs) ys → Absent xs ys
Absent-of_exact xs ys h = All-map (λ e k. sym (has_key-exact_entries e.0 xs) ∙ k) ys h

exact_of_Absent : (xs ys : Columns) → Absent xs ys → Absent (exact_entries xs) ys
exact_of_Absent xs ys h = All-map (λ e k. has_key-exact_entries e.0 xs ∙ k) ys h

module _ (s : Scheme) (index_map : IndexMap ColumnCommitmentMetadata) (linear : IsLinear s) where
  open index_map use {entries, extend, extend_entries}

  commits-append :
      (xs ys : Columns) (offset : ℕ) (setup : s.PublicSetup)
      → commits s index_map linear (xs ++ ys) offset setup
        ≡ commits s index_map linear xs offset setup ++ commits s index_map linear ys offset setup
  commits-append [] ys offset setup = refl
  commits-append (x ∷ xs) ys offset setup =
      ap (λ l. linear.commit x.1 offset setup ∷ l) (commits-append xs ys offset setup)

  -- Adding columns to the commitment to a table succeeds exactly where no identifier repeats, among
  -- the new columns or with the old ones. The result is then the commitment to the columns of the
  -- table followed by the new ones; else the error names a new column.
  pub try_extend_columns_cases :
      (cc : ColumnCommitments s index_map) (xs ys : Columns) (offset : ℕ) (setup : s.PublicSetup)
      → IsExact s index_map linear cc xs offset setup
      → (DistinctKeys (xs ++ ys)
          × ((cc' : ColumnCommitments s index_map) × (try_extend_columns_with_offset s index_map cc
                  ys offset setup
                ≡ ok cc')
              × IsExact s index_map linear cc' (xs ++ ys) offset setup))
        ⊎ (¬ DistinctKeys (xs ++ ys)
            × ((i : Identifier) × (try_extend_columns_with_offset s index_map cc ys offset setup
                  ≡ err (duplicate_identifiers i.name))
                × (has_key i ys ≡ true)))
  unfolding try_extend_columns_with_offset
  try_extend_columns_cases cc xs ys offset setup x =
      elim (check_new_cases s index_map cc.column_metadata ys) [
        | inr (bad, (i, p, q)) ↦ inr (
          λ h. bad (
              subst (λ es. Absent es ys) (sym x.described)
                (exact_of_Absent xs ys (DistinctKeys-Absent xs ys h))),
          (i, rw p, q),
        )
        | inl (absent, p) ↦ elim (try_from_columns_cases s index_map linear ys offset setup) [
          | inr (bad, (i, q, r)) ↦ inr (
            λ h. bad (DistinctKeys-append_right xs ys h),
            (i, rw (p, q), IsRepeated-has_key i ys r),
          )
          | inl (distinct, (added, q, y)) ↦
              let all_distinct =
                DistinctKeys-append xs ys x.distinct distinct
                  (Absent-of_exact xs ys (subst (λ es. Absent es ys) x.described absent)) in
              let whole : entries cc.column_metadata ++ entries added.column_metadata
                  ≡ exact_entries (xs ++ ys) =
                ap₂ (λ a b. a ++ b) x.described y.described ∙ sym (exact_entries-append xs ys) in
              inl (
                all_distinct,
                (
                  record {
                    commitments = cc.commitments ++ added.commitments;
                    column_metadata = extend cc.column_metadata (entries added.column_metadata);
                  },
                  rw (p, q),
                  record {
                    committed =
                        ap₂ (λ a b. a ++ b) x.committed y.committed
                        ∙ sym (commits-append xs ys offset setup);
                    described =
                        extend_entries cc.column_metadata (entries added.column_metadata) (
                          subst DistinctKeys (sym whole)
                            (DistinctKeys-exact_entries (xs ++ ys) all_distinct))
                        ∙ whole;
                    distinct = all_distinct;
                  },
                ),
              )
        ]
      ]
