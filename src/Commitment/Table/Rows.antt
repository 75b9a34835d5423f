-- ===== src/Commitment/Table/Rows.antt =====
-- `num_rows_of_columns`, and the tables that a `TableCommitment` commits to.
use sxt_proof_of_sql.Shared.{
  ℕ, ok, err, ◌==◌, ==_iff, [], ◌∷◌, map, ◌≡◌, ◌≢◌, refl, sym, ◌∙◌, subst, ◌⊎◌, inl, inr,
  Bool-cases,
}
use sxt_proof_of_sql.Database.IndexMap.{IndexMap}
use sxt_proof_of_sql.Commitment.CommittableColumn.{len}
use sxt_proof_of_sql.Commitment.Metadata.{ColumnCommitmentMetadata}
use sxt_proof_of_sql.Commitment.MetadataMap.Exact.{Columns}
use sxt_proof_of_sql.Commitment.Scheme.{Scheme, IsLinear}
use sxt_proof_of_sql.Commitment.Columns.FromColumns.{HasRows, IsExact, Commits}
use sxt_proof_of_sql.Commitment.Table.{
  TableCommitment, mixed_length_columns, num_rows_of_columns, same_length, usize_add,
}

same_length_cases :
    (n : ℕ) (columns : Columns)
    → (HasRows n columns × (same_length n (map (λ e. e.1) columns) ≡ ok n))
      ⊎ (¬ HasRows n columns × (same_length n (map (λ e. e.1) columns) ≡ err mixed_length_columns))
unfolding same_length
same_length_cases n [] = inl (tt, refl)
same_length_cases n ((i, c) ∷ columns) = elim (Bool-cases (len c == n)) [
  | inl e ↦ elim (same_length_cases n columns) [
    | inl (h, p) ↦ inl (((==_iff (len c) n).0 e, h), rw (e, p))
    | inr (h, p) ↦ inr (λ k. h k.1, rw (e, p))
  ]
  | inr e ↦ inr (λ k. cc ((==_iff (len c) n).1 k.0), rw e)
]

-- Columns of one length have that number of rows; columns of mixed length are refused.
pub num_rows_of_columns_cases :
    (columns : Columns)
    → ((n : ℕ) × HasRows n columns × (num_rows_of_columns (map (λ e. e.1) columns) ≡ ok n))
      ⊎ (((n : ℕ) → ¬ HasRows n columns)
          × (num_rows_of_columns (map (λ e. e.1) columns) ≡ err mixed_length_columns))
unfolding num_rows_of_columns
num_rows_of_columns_cases [] = inl (0, tt, refl)
num_rows_of_columns_cases ((i, c) ∷ columns) = elim (same_length_cases (len c) ((i, c) ∷ columns)) [
  | inl (h, p) ↦ inl (len c, h, p)
  | inr (h, p) ↦ inr (λ n k. h (subst (λ m. HasRows m ((i, c) ∷ columns)) (sym k.0) k), p)
]

-- For a table with a column, the number of rows is the one it has.
pub num_rows_of_columns_ok :
    (n : ℕ) (columns : Columns)
    → columns ≢ []
    → HasRows n columns
    → num_rows_of_columns (map (λ e. e.1) columns) ≡ ok n
num_rows_of_columns_ok n [] nonempty h = absurd (nonempty refl)
num_rows_of_columns_ok n ((i, c) ∷ columns) nonempty h =
    elim (num_rows_of_columns_cases ((i, c) ∷ columns)) [
      | inl (m, k, p) ↦ p ∙ cc (k.0, h.0)
      | inr (bad, p) ↦ absurd (bad n h)
    ]

module _ (s : Scheme) (index_map : IndexMap ColumnCommitmentMetadata) (linear : IsLinear s) where
  -- The value that commits to the `n` rows of the table from the offset on, with exact bounds.
  pub record IsExactTable (t : TableCommitment s index_map) (columns : Columns) (n offset : ℕ)
      (setup : s.PublicSetup) : Type 0 where
    pub exact : IsExact s index_map linear t.column_commitments columns offset setup
    pub rows : HasRows n columns
    pub start : t.range.start ≡ offset
    pub end : t.range.end ≡ usize_add offset n

  -- The same with any bounds that hold.
  pub record CommitsTable (t : TableCommitment s index_map) (columns : Columns) (n offset : ℕ)
      (setup : s.PublicSetup) : Type 0 where
    pub commits : Commits s index_map linear t.column_commitments columns offset setup
    pub rows : HasRows n columns
    pub start : t.range.start ≡ offset
    pub end : t.range.end ≡ usize_add offset n
