-- ===== src/Commitment/Table/Extend.antt =====
-- `TableCommitment::try_extend_columns`.
use sxt_proof_of_sql.Shared.{
  ℕ, ◌+◌, ◌-◌, ◌<◌, ok, err, true, ◌==◌, ==_iff, [], ◌++◌, All-append, ◌≡◌, ◌≢◌, ◌⊎◌, inl, inr,
  arith,
}
use sxt_proof_of_sql.Database.Names.{Identifier}
use sxt_proof_of_sql.Database.IndexMap.{IndexMap, DistinctKeys, has_key}
use sxt_proof_of_sql.Commitment.Metadata.{ColumnCommitmentMetadata}
use sxt_proof_of_sql.Commitment.MetadataMap.Exact.{Columns}
use sxt_proof_of_sql.Commitment.Scheme.{Scheme, IsLinear}
use sxt_proof_of_sql.Commitment.Columns.{duplicate_identifiers}
use sxt_proof_of_sql.Commitment.Columns.FromColumns.{HasRows}
use sxt_proof_of_sql.Commitment.Columns.Extend.{try_extend_columns_cases}
use sxt_proof_of_sql.Commitment.Table.{
  TableCommitment, from_duplicate, try_extend_columns, usize_mod, range_len,
}
use sxt_proof_of_sql.Commitment.Table.Rows.{IsExactTable, num_rows_of_columns_ok}

module _ (s : Scheme) (index_map : IndexMap ColumnCommitmentMetadata) (linear : IsLinear s) where
  -- Adding one or more columns of `n` rows to the commitment to a table of `n` rows, whose end is
  -- within `usize`, succeeds exactly where no identifier repeats, and then gives the commitment to
  -- the table with these columns at its end; else the error names a new column.
  pub try_extend_columns-append :
      (t : TableCommitment s index_map) (xs ys : Columns) (n offset : ℕ) (setup : s.PublicSetup)
      → IsExactTable s index_map linear t xs n offset setup
      → ys ≢ []
      → HasRows n ys
      → offset + n < usize_mod
      → (DistinctKeys (xs ++ ys)
          × ((t' : TableCommitment s index_map) × (try_extend_columns s index_map t ys setup
                ≡ ok t')
              × IsExactTable s index_map linear t' (xs ++ ys) n offset setup))
        ⊎ (¬ DistinctKeys (xs ++ ys)
            × ((i : Identifier) × (try_extend_columns s index_map t ys setup
                  ≡ err (from_duplicate (duplicate_identifiers i.name)))
                × (has_key i ys ≡ true)))
  unfolding try_extend_columns range_len
  try_extend_columns-append t xs ys n offset setup x nonempty rows fits =
      elim (try_extend_columns_cases s index_map linear t.column_commitments xs ys offset setup
        x.exact) [
          | inl (distinct, (cc', p, exact)) ↦ inl (
            distinct,
            (
              record { column_commitments = cc'; range = t.range },
              rw (num_rows_of_columns_ok n ys nonempty rows, same_rows, x.start, p),
              record {
                exact = exact;
                rows = All-append _ xs ys x.rows rows;
                start = x.start;
                end = x.end;
              },
            ),
          )
          | inr (bad, (i, p, q)) ↦
              inr
                (bad, (i, rw (num_rows_of_columns_ok n ys nonempty rows, same_rows, x.start, p), q))
        ]
    where
      same_rows : (n == t.range.end - t.range.start) ≡ true
      same_rows = (==_iff n _).1 (omega (arith, x.start, x.end))
