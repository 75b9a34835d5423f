-- ===== src/Commitment/Table.antt =====
-- crates/proof-of-sql/src/base/commitment/table_commitment.rs: the commitment to a whole table, with
-- the range of its rows. `usize` sums wrap at 2 ^ 64. A method that takes `&mut self` returns the
-- new value; on an error the receiver is as it was.
pub mod Rows
pub mod FromColumns
pub mod Append
pub mod Extend
pub mod Arithmetic
use sxt_proof_of_sql.Shared.{
  ℕ, ◌+◌, ◌-◌, ◌%◌, ◌^◌, Result, ok, err, panic, ◌>>=◌, map_err, expect, Bool, not, ◌==◌, ltb, leb,
  List, [], ◌∷◌, map, if◌then◌else◌,
}
use sxt_proof_of_sql.Database.Names.{Identifier, TableRef}
use sxt_proof_of_sql.Database.ColumnType.{ColumnField}
use sxt_proof_of_sql.Database.IndexMap.{IndexMap}
use sxt_proof_of_sql.Database.Accessor.{CommitmentAccessor}
use sxt_proof_of_sql.Commitment.CommittableColumn
use sxt_proof_of_sql.Commitment.CommittableColumn.{CommittableColumn}
use sxt_proof_of_sql.Commitment.Metadata.{ColumnCommitmentMetadata}
use sxt_proof_of_sql.Commitment.MetadataMap.{ColumnCommitmentsMismatch}
use sxt_proof_of_sql.Commitment.Scheme.{Scheme}
use sxt_proof_of_sql.Commitment.Columns
use sxt_proof_of_sql.Commitment.Columns.{
  ColumnCommitments, DuplicateIdentifiers, AppendColumnCommitmentsError,
}

pub data NegativeRange : Type 0 where
  negative_range : NegativeRange

pub data MixedLengthColumns : Type 0 where
  mixed_length_columns : MixedLengthColumns

pub data TableCommitmentFromColumnsError : Type 0 where
  from_mixed_length : MixedLengthColumns → TableCommitmentFromColumnsError
  from_duplicate : DuplicateIdentifiers → TableCommitmentFromColumnsError

pub data AppendTableCommitmentError : Type 0 where
  append_mixed_length : MixedLengthColumns → AppendTableCommitmentError
  append_column_commitments : AppendColumnCommitmentsError → AppendTableCommitmentError

pub data TableCommitmentArithmeticError : Type 0 where
  column_mismatch : ColumnCommitmentsMismatch → TableCommitmentArithmeticError
  arithmetic_negative_range : NegativeRange → TableCommitmentArithmeticError
  non_contiguous : TableCommitmentArithmeticError

-- `E` is the error of converting a record batch to columns.
pub data AppendRecordBatchTableCommitmentError (E : Type 0) : Type 0 where
  batch_mismatch : ColumnCommitmentsMismatch → AppendRecordBatchTableCommitmentError E
  batch_to_column : E → AppendRecordBatchTableCommitmentError E

-- `Range<usize>`
pub record Range : Type 0 where
  pub start : ℕ
  pub end : ℕ

unfoldable pub range_len : Range → ℕ
range_len r = r.end - r.start

abbrev pub usize_mod : ℕ
usize_mod = 2 ^ 64

abbrev pub usize_add : ℕ → ℕ → ℕ
usize_add a b = (a + b) % usize_mod

-- The loop of `num_rows_of_columns`.
unfoldable pub same_length : ℕ → List CommittableColumn → Result MixedLengthColumns ℕ
same_length num_rows [] = ok num_rows
same_length num_rows (c ∷ columns) =
    let rest = same_length num_rows columns in
    if not (CommittableColumn.len c == num_rows) then err mixed_length_columns else rest

-- The peeked first column is part of the loop too.
unfoldable pub num_rows_of_columns : List CommittableColumn → Result MixedLengthColumns ℕ
unfolding same_length
num_rows_of_columns [] = same_length 0 []
num_rows_of_columns (c ∷ columns) = same_length (CommittableColumn.len c) (c ∷ columns)

pub record TableCommitment (s : Scheme) (index_map : IndexMap ColumnCommitmentMetadata)
    : Type 0 where
  pub column_commitments : ColumnCommitments s index_map
  pub range : Range

-- The range that `try_add` computes.
unfoldable pub add_range : Range → Range → Result TableCommitmentArithmeticError Range
add_range a b =
    if a.end == b.start
    then ok (record { start = a.start; end = b.end })
    else if b.end == a.start
    then ok (record { start = b.start; end = a.end })
    else err non_contiguous

-- The checks and the range of `try_sub`.
unfoldable pub sub_range : Range → Range → Result TableCommitmentArithmeticError Range
unfolding range_len
sub_range a b =
    if ltb (range_len a) (range_len b)
    then err (arithmetic_negative_range negative_range)
    else if a.start == b.start
    then ok (record { start = b.end; end = a.end })
    else if a.end == b.end
    then ok (record { start = a.start; end = b.start })
    else err non_contiguous

module _ (s : Scheme) (index_map : IndexMap ColumnCommitmentMetadata) where
  open s use {Point, PublicSetup}

  unfoldable pub try_new :
      ColumnCommitments s index_map → Range → Result NegativeRange (TableCommitment s index_map)
  try_new column_commitments range =
      if leb range.start range.end
      then ok (record { column_commitments = column_commitments; range = range })
      else err negative_range

  unfoldable pub from_accessor_with_max_bounds {ε} :
      {E : Type ε}
      → TableRef
      → List ColumnField
      → CommitmentAccessor Point
      → Result E (TableCommitment s index_map)
  unfolding try_new
  from_accessor_with_max_bounds table_ref columns accessor = do
    let length = accessor.get_length table_ref
    let offset = accessor.get_offset table_ref
    column_commitments ←
        Columns.from_accessor_with_max_bounds s index_map table_ref columns accessor
    expect (try_new column_commitments (record { start = offset; end = usize_add offset length }))

  unfoldable pub num_columns : TableCommitment s index_map → ℕ
  num_columns self = Columns.len s index_map self.column_commitments

  unfoldable pub num_rows : TableCommitment s index_map → ℕ
  num_rows self = range_len self.range

  unfoldable pub try_from_columns_with_offset :
      List (Identifier × CommittableColumn)
      → ℕ
      → PublicSetup
      → Result TableCommitmentFromColumnsError (TableCommitment s index_map)
  try_from_columns_with_offset columns offset setup = do
    num_rows ← map_err from_mixed_length (num_rows_of_columns (map (λ e. e.1) columns))
    column_commitments ←
        map_err from_duplicate
          (Columns.try_from_columns_with_offset s index_map columns offset setup)
    ok (record {
      column_commitments = column_commitments;
      range = record { start = offset; end = usize_add offset num_rows };
    })

  -- The columns are those of the owned table.
  unfoldable pub from_owned_table_with_offset {ε} :
      {E : Type ε}
      → List (Identifier × CommittableColumn)
      → ℕ
      → PublicSetup
      → Result E (TableCommitment s index_map)
  unfolding try_from_columns_with_offset
  from_owned_table_with_offset columns offset setup =
      expect (try_from_columns_with_offset columns offset setup)

  unfoldable pub try_append_rows :
      TableCommitment s index_map
      → List (Identifier × CommittableColumn)
      → PublicSetup
      → Result AppendTableCommitmentError (TableCommitment s index_map)
  try_append_rows self columns setup = do
    num_rows ← map_err append_mixed_length (num_rows_of_columns (map (λ e. e.1) columns))
    column_commitments ← map_err append_column_commitments (
        Columns.try_append_rows_with_offset s index_map self.column_commitments columns
          self.range.end setup)
    ok (record {
      column_commitments = column_commitments;
      range = record { start = self.range.start; end = usize_add self.range.end num_rows };
    })

  -- The match on the error in `append_owned_table`.
  abbrev pub owned_table_error :
      Result AppendTableCommitmentError (TableCommitment s index_map)
      → Result ColumnCommitmentsMismatch (TableCommitment s index_map)
  owned_table_error (ok t) = ok t
  owned_table_error (err (append_column_commitments (Columns.mismatch e))) = err e
  owned_table_error (err (append_column_commitments (Columns.duplicate e))) = panic
  owned_table_error (err (append_mixed_length e)) = panic
  owned_table_error panic = panic

  unfoldable pub append_owned_table :
      TableCommitment s index_map
      → List (Identifier × CommittableColumn)
      → PublicSetup
      → Result ColumnCommitmentsMismatch (TableCommitment s index_map)
  unfolding try_append_rows
  append_owned_table self columns setup = owned_table_error (try_append_rows self columns setup)

  unfoldable pub try_extend_columns :
      TableCommitment s index_map
      → List (Identifier × CommittableColumn)
      → PublicSetup
      → Result TableCommitmentFromColumnsError (TableCommitment s index_map)
  try_extend_columns self columns setup = do
    num_rows_of_new_columns ←
        map_err from_mixed_length (num_rows_of_columns (map (λ e. e.1) columns))
    column_commitments ←
        if not (num_rows_of_new_columns == range_len self.range)
        then err (from_mixed_length mixed_length_columns)
        else map_err from_duplicate (
            Columns.try_extend_columns_with_offset s index_map self.column_commitments columns
              self.range.start setup)
    ok (record { column_commitments = column_commitments; range = self.range })

  unfoldable pub try_add :
      TableCommitment s index_map
      → TableCommitment s index_map
      → Result TableCommitmentArithmeticError (TableCommitment s index_map)
  unfolding add_range
  try_add self other = do
    range ← add_range self.range other.range
    column_commitments ←
        map_err column_mismatch
          (Columns.try_add s index_map self.column_commitments other.column_commitments)
    ok (record { column_commitments = column_commitments; range = range })

  unfoldable pub try_sub :
      TableCommitment s index_map
      → TableCommitment s index_map
      → Result TableCommitmentArithmeticError (TableCommitment s index_map)
  unfolding sub_range
  try_sub self other = do
    range ← sub_range self.range other.range
    column_commitments ←
        map_err column_mismatch
          (Columns.try_sub s index_map self.column_commitments other.column_commitments)
    ok (record { column_commitments = column_commitments; range = range })

  -- The match on the result in `try_append_record_batch`.
  abbrev pub record_batch_error :
      {E : Type 0}
      → Result AppendTableCommitmentError (TableCommitment s index_map)
      → Result (AppendRecordBatchTableCommitmentError E) (TableCommitment s index_map)
  record_batch_error (ok t) = ok t
  record_batch_error (err (append_mixed_length e)) = panic
  record_batch_error (err (append_column_commitments (Columns.duplicate e))) = panic
  record_batch_error (err (append_column_commitments (Columns.mismatch e))) = err (batch_mismatch e)
  record_batch_error panic = panic

  -- `batch` is the outcome of `batch_to_columns`, which reads an arrow record batch.
  unfoldable pub try_append_record_batch :
      {E : Type 0}
      → TableCommitment s index_map
      → Result E (List (Identifier × CommittableColumn))
      → PublicSetup
      → Result (AppendRecordBatchTableCommitmentError E) (TableCommitment s index_map)
  unfolding try_append_rows
  try_append_record_batch self batch setup = do
    columns ← map_err batch_to_column batch
    record_batch_error (try_append_rows self columns setup)

  unfoldable pub try_from_record_batch_with_offset :
      {E : Type 0}
      → Result E (List (Identifier × CommittableColumn))
      → ℕ
      → PublicSetup
      → Result E (TableCommitment s index_map)
  unfolding try_from_columns_with_offset
  try_from_record_batch_with_offset batch offset setup = do
    columns ← batch
    expect (try_from_columns_with_offset columns offset setup)

  unfoldable pub try_from_record_batch :
      {E : Type 0}
      → Result E (List (Identifier × CommittableColumn))
      → PublicSetup
      → Result E (TableCommitment s index_map)
  unfolding try_from_record_batch_with_offset
  try_from_record_batch batch setup = try_from_record_batch_with_offset batch 0 setup
