-- ===== src/Commitment/Columns/Invariant.antt =====
-- The invariant of `ColumnCommitments`: one commitment for each column, and valid metadata. Every
-- operation keeps it, and none of the `expect`s fails on values that have it.
use sxt_proof_of_sql.Shared.{
  ℕ, Result, ok, err, panic, true, ==_iff, [], ◌∷◌, map, length, length-map, ◌≡◌, refl, ap, inl,
  inr, arith,
}
use sxt_proof_of_sql.Database.IndexMap.{IndexMap}
use sxt_proof_of_sql.Commitment.CommittableColumn.{CommittableColumn, column_type}
use sxt_proof_of_sql.Commitment.ColumnBounds.Sound.{exact_of}
use sxt_proof_of_sql.Commitment.Metadata.{ColumnCommitmentMetadata, fits}
use sxt_proof_of_sql.Commitment.MetadataMap.Combine.{
  ValidEntries, length-SameColumns, try_union_outcome, try_difference_outcome,
}
use sxt_proof_of_sql.Commitment.MetadataMap.Exact.{Columns, exact_entries, length-exact_entries}
use sxt_proof_of_sql.Commitment.Scheme.{Scheme, IsLinear}
use sxt_proof_of_sql.Commitment.Vec
use sxt_proof_of_sql.Commitment.Vec.Linear.{length-add_assign, length-sub_assign}
use sxt_proof_of_sql.Commitment.Columns.{
  ColumnCommitments, AppendColumnCommitmentsError, try_from_columns_with_offset,
  try_append_rows_with_offset, try_add, try_sub,
}
use sxt_proof_of_sql.Commitment.Columns.Unique.{check_unique_cases}
use sxt_proof_of_sql.Commitment.Columns.FromColumns.{
  map-from_columns, try_from_columns_cases, length-commits,
}

exact_of-fits : (c : CommittableColumn) → fits (column_type c) (exact_of c) ≡ true
unfolding column_type exact_of
exact_of-fits (CommittableColumn.boolean col) = refl
exact_of-fits _ = refl

pub exact_entries-ValidEntries : (columns : Columns) → ValidEntries (exact_entries columns)
exact_entries-ValidEntries [] = tt
exact_entries-ValidEntries ((i, c) ∷ columns) =
    (exact_of-fits c, exact_entries-ValidEntries columns)

module _ (s : Scheme) (index_map : IndexMap ColumnCommitmentMetadata) where
  open index_map use {Map, entries}

  pub record IsValid (cc : ColumnCommitments s index_map) : Type 0 where
    pub counted : length cc.commitments ≡ length (entries cc.column_metadata)
    pub valid : ValidEntries (entries cc.column_metadata)

  -- A result that is valid, or an error, and not a panic.
  abbrev pub Keeps {ε} : {E : Type ε} → Result E (ColumnCommitments s index_map) → Type 0
  Keeps (ok cc) = IsValid cc
  Keeps (err e) = Unit
  Keeps panic = ⊥

module _ (s : Scheme) (index_map : IndexMap ColumnCommitmentMetadata) (linear : IsLinear s) where
  open index_map use {Map, entries}

  -- On valid values addition does not panic, and what it returns is valid.
  pub try_add-Keeps :
      (a b : ColumnCommitments s index_map)
      → IsValid s index_map a
      → IsValid s index_map b
      → Keeps s index_map (try_add s index_map a b)
  unfolding try_add Vec.try_add
  try_add-Keeps a b va vb =
      elim (try_union_outcome index_map a.column_metadata b.column_metadata va.valid vb.valid) [
        | inr (differ, (e, p)) ↦ rw p tt
        | inl (same, (m, p, t, v)) ↦
            rw
              (
                p,
                (==_iff (length a.commitments) (length b.commitments)).1
                    (omega (arith, va.counted, vb.counted, length-SameColumns _ _ same)),
              )
              (record {
                counted = omega (
                  arith,
                  length-add_assign s linear a.commitments b.commitments,
                  va.counted,
                  length-SameColumns _ _ t,
                );
                valid = v;
              })
      ]

  -- On valid values subtraction does not panic, and what it returns is valid.
  pub try_sub-Keeps :
      (a b : ColumnCommitments s index_map)
      → IsValid s index_map a
      → IsValid s index_map b
      → Keeps s index_map (try_sub s index_map a b)
  unfolding try_sub Vec.try_sub
  try_sub-Keeps a b va vb =
      elim (try_difference_outcome index_map a.column_metadata b.column_metadata va.valid
        vb.valid) [
          | inr (differ, (e, p)) ↦ rw p tt
          | inl (same, (m, p, t, v)) ↦
              rw
                (
                  p,
                  (==_iff (length a.commitments) (length b.commitments)).1
                      (omega (arith, va.counted, vb.counted, length-SameColumns _ _ same)),
                )
                (record {
                  counted = omega (
                    arith,
                    length-sub_assign s linear a.commitments b.commitments,
                    va.counted,
                    length-SameColumns _ _ t,
                  );
                  valid = v;
                })
        ]

  -- Committing to columns never panics, and what it returns is valid.
  pub try_from_columns-Keeps :
      (columns : Columns) (offset : ℕ) (setup : s.PublicSetup)
      → Keeps s index_map (try_from_columns_with_offset s index_map columns offset setup)
  try_from_columns-Keeps columns offset setup =
      elim (try_from_columns_cases s index_map linear columns offset setup) [
        | inr (bad, (i, p, q)) ↦ rw p tt
        | inl (distinct, (cc', p, x)) ↦ rw p (record {
          counted = omega (
            arith,
            ap length x.committed,
            ap length x.described,
            length-commits s index_map linear columns offset setup,
            length-exact_entries columns,
          );
          valid = rw x.described (exact_entries-ValidEntries columns);
        })
      ]

  -- Appending rows to a valid value never panics, whatever the columns are, and what it returns is
  -- valid.
  pub try_append_rows-Keeps :
      (self : ColumnCommitments s index_map) (columns : Columns) (offset : ℕ)
      (setup : s.PublicSetup)
      → IsValid s index_map self
      → Keeps s index_map (try_append_rows_with_offset s index_map self columns offset setup)
  unfolding try_append_rows_with_offset Vec.try_append_rows_with_offset
  try_append_rows-Keeps self columns offset setup v = elim (check_unique_cases columns) [
    | inr (bad, (i, p, q)) ↦ rw p tt
    | inl (distinct, p) ↦
        let (q, r) =
          map-from_columns s index_map linear {E = AppendColumnCommitmentsError} columns distinct in
        let new = index_map.collect (exact_entries columns) in
        elim (try_union_outcome index_map self.column_metadata new v.valid
          (rw r (exact_entries-ValidEntries columns))) [
            | inr (differ, (e, u)) ↦ rw (p, q, u) tt
            | inl (same, (m, u, t, w)) ↦
                rw
                  (
                    p,
                    q,
                    u,
                    (==_iff (length self.commitments) (length (map (λ e. e.1) columns))).1 (
                        omega (
                          arith,
                          v.counted,
                          length-SameColumns _ _ same,
                          ap length r,
                          length-exact_entries columns,
                          length-map columns (λ e. e.1),
                        )),
                  )
                  (record {
                    counted = omega (
                      arith,
                      length-add_assign s linear self.commitments (
                          Vec.from_commitable_columns_with_offset s (map (λ e. e.1) columns) offset
                            setup),
                      v.counted,
                      length-SameColumns _ _ t,
                    );
                    valid = w;
                  })
          ]
  ]
