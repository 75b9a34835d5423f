-- ===== src/Commitment/Table/Arithmetic.antt =====
-- `TableCommitment::try_add` and `try_sub`.
use sxt_proof_of_sql.Shared.{ℕ, ◌+◌, ◌≤◌, ◌<◌, ok, ◌≡◌, sym, ◌∙◌, arith}
use sxt_proof_of_sql.Database.IndexMap.{IndexMap, DistinctKeys}
use sxt_proof_of_sql.Commitment.Metadata.{ColumnCommitmentMetadata}
use sxt_proof_of_sql.Commitment.MetadataMap.Exact.{Columns, SameSchema, concat_columns}
use sxt_proof_of_sql.Commitment.Scheme.{Scheme, IsLinear}
use sxt_proof_of_sql.Commitment.Columns.FromColumns.{HasRows}
use sxt_proof_of_sql.Commitment.Columns.Arithmetic.{
  try_add-concat_columns, try_sub-concat_columns_end, try_sub-concat_columns_front,
}
use sxt_proof_of_sql.Commitment.Table.{
  TableCommitment, Range, add_range, sub_range, try_add, try_sub, usize_mod,
}
use sxt_proof_of_sql.Commitment.Table.Rows.{CommitsTable}
use sxt_proof_of_sql.Commitment.Table.Append.{HasRows-concat_columns}

-- Two ranges that meet add up to the range of both, in either order.
add_range_meet :
    (a b : Range)
    → a.start ≤ a.end
    → b.start ≤ b.end
    → a.end ≡ b.start
    → (add_range a b ≡ ok (record { start = a.start; end = b.end }))
      × (add_range b a ≡ ok (record { start = a.start; end = b.end }))
unfolding add_range
add_range_meet a b p q h = (ground arith, ground arith)

-- Taking off a first part leaves the rest; so does taking off a last part, if something is left.
sub_range_front :
    (a b : Range)
    → a.start ≡ b.start
    → b.end ≤ a.end
    → sub_range a b ≡ ok (record { start = b.end; end = a.end })
unfolding sub_range
sub_range_front a b h p = ground arith

sub_range_end :
    (a b : Range)
    → a.end ≡ b.end
    → a.start < b.start
    → sub_range a b ≡ ok (record { start = a.start; end = b.start })
unfolding sub_range
sub_range_end a b h p = ground arith

module _ (s : Scheme) (index_map : IndexMap ColumnCommitmentMetadata) (linear : IsLinear s)
    (xs ys : Columns) (n k offset : ℕ) (setup : s.PublicSetup) where
  abbrev IsFront : TableCommitment s index_map → Type 0
  IsFront t = CommitsTable s index_map linear t xs n offset setup

  abbrev IsBack : TableCommitment s index_map → Type 0
  IsBack t = CommitsTable s index_map linear t ys k (offset + n) setup

  abbrev IsWhole : TableCommitment s index_map → Type 0
  IsWhole t = CommitsTable s index_map linear t (concat_columns xs ys) (n + k) offset setup

  -- The commitments to two stretches of the rows of one table that meet, with columns of one
  -- schema, add up, in either order, to the commitment to all of the rows, with metadata that
  -- describes them. The end of the rows is within `usize`.
  pub try_add-concat_table :
      (a b : TableCommitment s index_map)
      → SameSchema xs ys
      → IsFront a
      → IsBack b
      → offset + n + k < usize_mod
      → (r : TableCommitment s index_map) × (try_add s index_map a b ≡ ok r)
        × (try_add s index_map b a ≡ ok r)
        × IsWhole r
  unfolding try_add
  try_add-concat_table a b same p q fits =
      let (cc', u, v, w) =
        try_add-concat_columns s index_map linear xs ys n offset setup same p.rows
          a.column_commitments b.column_commitments p.commits q.commits in
      let (f, g) =
        add_range_meet a.range b.range (omega (arith, p.start, p.end))
          (omega (arith, q.start, q.end)) (omega (arith, p.end, q.start)) in
      (
        record {
          column_commitments = cc';
          range = record { start = a.range.start; end = b.range.end };
        },
        rw (f, u),
        rw (g, v),
        record {
          commits = w;
          rows = HasRows-concat_columns xs ys n k same p.rows q.rows;
          start = p.start;
          end = omega (arith, q.end);
        },
      )

  -- Subtracting the commitment to the first rows of a table with distinct identifiers leaves the
  -- commitment to its last rows, with metadata that describes them. The end of the rows is within
  -- `usize`.
  pub try_sub-concat_table_front :
      (a b : TableCommitment s index_map)
      → SameSchema xs ys
      → DistinctKeys xs
      → HasRows k ys
      → IsWhole a
      → IsFront b
      → offset + n + k < usize_mod
      → (r : TableCommitment s index_map) × (try_sub s index_map a b ≡ ok r) × IsBack r
  unfolding try_sub
  try_sub-concat_table_front a b same distinct rows p q fits =
      let (cc', u, w) =
        try_sub-concat_columns_front s index_map linear xs ys n offset setup same q.rows
          a.column_commitments b.column_commitments distinct p.commits q.commits in
      let f =
        sub_range_front a.range b.range (p.start ∙ sym q.start) (omega (arith, p.end, q.end)) in
      (
        record {
          column_commitments = cc';
          range = record { start = b.range.end; end = a.range.end };
        },
        rw (f, u),
        record {
          commits = w;
          rows = rows;
          start = omega (arith, q.end);
          end = omega (arith, p.end);
        },
      )

  -- Subtracting the commitment to the last rows of a table with distinct identifiers leaves the
  -- commitment to its first rows, where there is such a row, with metadata that describes them. The
  -- end of the rows is within `usize`.
  pub try_sub-concat_table_end :
      (a b : TableCommitment s index_map)
      → SameSchema xs ys
      → DistinctKeys xs
      → HasRows n xs
      → IsWhole a
      → IsBack b
      → 0 < n
      → offset + n + k < usize_mod
      → (r : TableCommitment s index_map) × (try_sub s index_map a b ≡ ok r) × IsFront r
  unfolding try_sub
  try_sub-concat_table_end a b same distinct rows p q some_row fits =
      let (cc', u, w) =
        try_sub-concat_columns_end s index_map linear xs ys n offset setup same rows
          a.column_commitments b.column_commitments distinct p.commits q.commits in
      let f =
        sub_range_end a.range b.range (omega (arith, p.end, q.end))
          (omega (arith, p.start, q.start)) in
      (
        record {
          column_commitments = cc';
          range = record { start = a.range.start; end = b.range.start };
        },
        rw (f, u),
        record { commits = w; rows = rows; start = p.start; end = omega (arith, q.start) },
      )
