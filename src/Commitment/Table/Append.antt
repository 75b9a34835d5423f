-- ===== src/Commitment/Table/Append.antt =====
-- `TableCommitment::try_append_rows`.
use sxt_proof_of_sql.Shared.{ℕ, ◌+◌, ◌<◌, ok, [], ◌∷◌, ◌≡◌, ◌≢◌, sym, ◌∙◌, subst, arith}
use sxt_proof_of_sql.Database.IndexMap.{IndexMap}
use sxt_proof_of_sql.Commitment.CommittableColumn.{len-concat}
use sxt_proof_of_sql.Commitment.Metadata.{ColumnCommitmentMetadata}
use sxt_proof_of_sql.Commitment.MetadataMap.Exact.{Columns, SameSchema, concat_columns}
use sxt_proof_of_sql.Commitment.Scheme.{Scheme, IsLinear}
use sxt_proof_of_sql.Commitment.Columns
use sxt_proof_of_sql.Commitment.Columns.FromColumns.{HasRows}
use sxt_proof_of_sql.Commitment.Columns.Append.{try_append_rows-concat_columns}
use sxt_proof_of_sql.Commitment.Table.{TableCommitment, try_append_rows, usize_mod, usize_add}
use sxt_proof_of_sql.Commitment.Table.Rows.{IsExactTable, num_rows_of_columns_ok}

pub HasRows-concat_columns :
    (xs ys : Columns) (n k : ℕ)
    → SameSchema xs ys
    → HasRows n xs
    → HasRows k ys
    → HasRows (n + k) (concat_columns xs ys)
HasRows-concat_columns [] [] n k h p q = tt
HasRows-concat_columns [] (y ∷ ys) n k h p q = absurd h
HasRows-concat_columns (x ∷ xs) [] n k h p q = absurd h
HasRows-concat_columns ((i, c) ∷ xs) ((j, d) ∷ ys) n k h p q =
    (omega (arith, len-concat c d h.1), HasRows-concat_columns xs ys n k h.2 p.1 q.1)

module _ (s : Scheme) (index_map : IndexMap ColumnCommitmentMetadata) (linear : IsLinear s) where
  -- Appending the rows of `new` to the commitment to a table gives the commitment to the table with
  -- these rows at its end, in every part: points, metadata and range. It needs a column, columns of
  -- the schema of the table in its order, all of `k` rows, and an end of the table within `usize`.
  pub try_append_rows-concat_table :
      (t : TableCommitment s index_map) (old new : Columns) (n k offset : ℕ) (setup : s.PublicSetup)
      → IsExactTable s index_map linear t old n offset setup
      → SameSchema old new
      → new ≢ []
      → HasRows k new
      → offset + n < usize_mod
      → (t' : TableCommitment s index_map) × (try_append_rows s index_map t new setup ≡ ok t')
        × IsExactTable s index_map linear t' (concat_columns old new) (n + k) offset setup
  unfolding try_append_rows
  try_append_rows-concat_table t old new n k offset setup x same nonempty rows fits =
      let (cc', p, exact) =
        try_append_rows-concat_columns s index_map linear t.column_commitments old new n offset
          setup x.exact same x.rows in
      let at_end : t.range.end ≡ offset + n = x.end ∙ omega arith in
      (
        record {
          column_commitments = cc';
          range = record { start = t.range.start; end = usize_add t.range.end k };
        },
        rw (num_rows_of_columns_ok k new nonempty rows) (
            rw (
              subst
                (λ e.
                  Columns.try_append_rows_with_offset s index_map t.column_commitments new e setup
                  ≡ ok cc')
                (sym at_end) p)),
        record {
          exact = exact;
          rows = HasRows-concat_columns old new n k same x.rows rows;
          start = x.start;
          end = ground (arith, at_end);
        },
      )
