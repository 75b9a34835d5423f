-- ===== src/Commitment/Table/FromColumns.antt =====
-- `TableCommitment::try_from_columns_with_offset`.
use sxt_proof_of_sql.Shared.{ℕ, ok, err, ◌≡◌, refl, ◌⊎◌, inl, inr}
use sxt_proof_of_sql.Database.Names.{Identifier}
use sxt_proof_of_sql.Database.IndexMap.{IndexMap, DistinctKeys}
use sxt_proof_of_sql.Commitment.Metadata.{ColumnCommitmentMetadata}
use sxt_proof_of_sql.Commitment.MetadataMap.Exact.{Columns}
use sxt_proof_of_sql.Commitment.Scheme.{Scheme, IsLinear}
use sxt_proof_of_sql.Commitment.Columns.{duplicate_identifiers}
use sxt_proof_of_sql.Commitment.Columns.Unique.{IsRepeated}
use sxt_proof_of_sql.Commitment.Columns.FromColumns.{HasRows, try_from_columns_cases}
use sxt_proof_of_sql.Commitment.Table.{
  TableCommitment, from_mixed_length, from_duplicate, mixed_length_columns,
  try_from_columns_with_offset, usize_add,
}
use sxt_proof_of_sql.Commitment.Table.Rows.{IsExactTable, num_rows_of_columns_cases}

module _ (s : Scheme) (index_map : IndexMap ColumnCommitmentMetadata) (linear : IsLinear s)
    (columns : Columns) (offset : ℕ) (setup : s.PublicSetup) where
  -- Committing to columns refuses those of mixed length first, whatever their identifiers are, then,
  -- for columns of one length, identifiers that repeat: the error names one that stands at two
  -- places. Otherwise the result commits to the columns, which have one length and distinct
  -- identifiers, with exact metadata.
  pub try_from_columns_outcome :
      (((n : ℕ) → ¬ HasRows n columns)
        × (try_from_columns_with_offset s index_map columns offset setup
            ≡ err (from_mixed_length mixed_length_columns)))
      ⊎ (((n : ℕ) × HasRows n columns)
          × ¬ DistinctKeys columns
          × ((i : Identifier) × (try_from_columns_with_offset s index_map columns offset setup
                ≡ err (from_duplicate (duplicate_identifiers i.name)))
              × IsRepeated i columns))
      ⊎ ((n : ℕ) × (t : TableCommitment s index_map) × (try_from_columns_with_offset s index_map
              columns offset setup
            ≡ ok t)
          × IsExactTable s index_map linear t columns n offset setup)
  unfolding try_from_columns_with_offset
  try_from_columns_outcome = elim (num_rows_of_columns_cases columns) [
    | inr (mixed, p) ↦ inl (mixed, rw p)
    | inl (n, rows, p) ↦ elim (try_from_columns_cases s index_map linear columns offset setup) [
      | inr (bad, (i, q, r)) ↦ inr (inl ((n, rows), bad, (i, rw (p, q), r)))
      | inl (distinct, (cc', q, exact)) ↦ inr (
          inr (
            n,
            record {
              column_commitments = cc';
              range = record { start = offset; end = usize_add offset n };
            },
            rw (p, q),
            record { exact = exact; rows = rows; start = refl; end = refl },
          ))
    ]
  ]
