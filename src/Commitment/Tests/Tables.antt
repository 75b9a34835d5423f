-- ===== src/Commitment/Tests/Tables.antt =====
-- Runs on small tables, and the theorems about tables at them.
use sxt_proof_of_sql.Shared.{ℕ, ok, err, ◌≡◌, refl, [], ◌∷◌, ◌++◌, ◌⊎◌, true, arith}
use sxt_proof_of_sql.Database.Names.{Identifier, identifier_beq}
use sxt_proof_of_sql.Database.IndexMap.{DistinctKeys, has_key}
use sxt_proof_of_sql.Database.IndexMap.Instance.{insert_all, insert}
use sxt_proof_of_sql.Commitment.CommittableColumn.{big_int}
use sxt_proof_of_sql.Shared.Int.{pos}
use sxt_proof_of_sql.Commitment.MetadataMap.{ColumnCommitmentsMismatch}
use sxt_proof_of_sql.Commitment.MetadataMap.Exact.{Columns, concat_columns, exact_entries}
use sxt_proof_of_sql.Commitment.MetadataMap.Combine.{
  Combined, try_union_outcome, try_difference_outcome,
}
use sxt_proof_of_sql.Commitment.MetadataMap
use sxt_proof_of_sql.Commitment.Columns
use sxt_proof_of_sql.Commitment.Columns.{duplicate_identifiers}
use sxt_proof_of_sql.Commitment.Columns.FromColumns.{HasRows}
use sxt_proof_of_sql.Commitment.Columns.Invariant.{
  IsValid, Keeps, exact_entries-ValidEntries, try_append_rows-Keeps, try_add-Keeps,
}
use sxt_proof_of_sql.Commitment.Table.{
  TableCommitment, try_append_rows, try_add, try_sub, try_extend_columns,
  try_from_columns_with_offset, from_mixed_length, mixed_length_columns, from_duplicate,
}
use sxt_proof_of_sql.Commitment.Table.Rows.{IsExactTable, CommitsTable}
use sxt_proof_of_sql.Commitment.Columns.Unique.{IsRepeated}
use sxt_proof_of_sql.Commitment.Table.FromColumns.{try_from_columns_outcome}
use sxt_proof_of_sql.Commitment.Table.Append.{try_append_rows-concat_table, HasRows-concat_columns}
use sxt_proof_of_sql.Commitment.Table.Extend.{try_extend_columns-append}
use sxt_proof_of_sql.Commitment.Table.Arithmetic.{
  try_add-concat_table, try_sub-concat_table_front, try_sub-concat_table_end,
}
use sxt_proof_of_sql.Commitment.Tests.ToyScheme.{toy, toy_linear}
use sxt_proof_of_sql.Commitment.Tests.Data.{
  named, maps, exact_table, exact_columns, exact_table-IsExactTable, exact_table-CommitsTable,
  old_rows, new_rows, more_columns, old_rows-DistinctKeys, new_rows-DistinctKeys, old_rows-HasRows,
  new_rows-HasRows, more_columns-HasRows, old_new-SameSchema,
}

abbrev both : Columns
both = concat_columns old_rows new_rows

try_append_rows-concat_table_example :
    (t' : TableCommitment toy maps) × (try_append_rows toy maps
        (exact_table old_rows 2 10)
        new_rows
        tt
      ≡ ok t')
    × IsExactTable toy maps toy_linear t' both 3 10 tt
try_append_rows-concat_table_example =
    try_append_rows-concat_table toy maps toy_linear (exact_table old_rows 2 10) old_rows new_rows 2
      1 10 tt (exact_table-IsExactTable old_rows 2 10 old_rows-DistinctKeys old_rows-HasRows)
      old_new-SameSchema (λ e. cc) new_rows-HasRows (omega arith)

try_add-concat_table_example :
    (r : TableCommitment toy maps) × (try_add toy maps
        (exact_table old_rows 2 10)
        (exact_table new_rows 1 12)
      ≡ ok r)
    × (try_add toy maps (exact_table new_rows 1 12) (exact_table old_rows 2 10) ≡ ok r)
    × CommitsTable toy maps toy_linear r both 3 10 tt
try_add-concat_table_example =
    try_add-concat_table toy maps toy_linear old_rows new_rows 2 1 10 tt (exact_table old_rows 2 10)
      (exact_table new_rows 1 12) old_new-SameSchema
      (exact_table-CommitsTable old_rows 2 10 old_rows-DistinctKeys old_rows-HasRows)
      (exact_table-CommitsTable new_rows 1 12 new_rows-DistinctKeys new_rows-HasRows) (omega arith)

both-DistinctKeys : DistinctKeys both
unfolding identifier_beq
both-DistinctKeys = (refl, (refl, tt))

both-CommitsTable : CommitsTable toy maps toy_linear (exact_table both 3 10) both 3 10 tt
both-CommitsTable = exact_table-CommitsTable both 3 10 both-DistinctKeys (
    HasRows-concat_columns old_rows new_rows 2 1 old_new-SameSchema old_rows-HasRows
      new_rows-HasRows)

try_sub-concat_table_front_example :
    (r : TableCommitment toy maps) × (try_sub toy maps
        (exact_table both 3 10)
        (exact_table old_rows 2 10)
      ≡ ok r)
    × CommitsTable toy maps toy_linear r new_rows 1 12 tt
try_sub-concat_table_front_example =
    try_sub-concat_table_front toy maps toy_linear old_rows new_rows 2 1 10 tt
      (exact_table both 3 10) (exact_table old_rows 2 10) old_new-SameSchema old_rows-DistinctKeys
      new_rows-HasRows both-CommitsTable
      (exact_table-CommitsTable old_rows 2 10 old_rows-DistinctKeys old_rows-HasRows) (omega arith)

try_sub-concat_table_end_example :
    (r : TableCommitment toy maps) × (try_sub toy maps
        (exact_table both 3 10)
        (exact_table new_rows 1 12)
      ≡ ok r)
    × CommitsTable toy maps toy_linear r old_rows 2 10 tt
try_sub-concat_table_end_example =
    try_sub-concat_table_end toy maps toy_linear old_rows new_rows 2 1 10 tt (exact_table both 3 10)
      (exact_table new_rows 1 12) old_new-SameSchema old_rows-DistinctKeys old_rows-HasRows
      both-CommitsTable
      (exact_table-CommitsTable new_rows 1 12 new_rows-DistinctKeys new_rows-HasRows) (omega arith)
      (omega arith)

abbrev extended : Columns
extended = old_rows ++ more_columns

try_extend_columns-append_example :
    (DistinctKeys extended
      × ((t' : TableCommitment toy maps) × (try_extend_columns toy maps
              (exact_table old_rows 2 10)
              more_columns
              tt
            ≡ ok t')
          × IsExactTable toy maps toy_linear t' extended 2 10 tt))
    ⊎ (¬ DistinctKeys extended
        × ((i : Identifier) × (try_extend_columns toy maps
                (exact_table old_rows 2 10)
                more_columns
                tt
              ≡ err (from_duplicate (duplicate_identifiers i.name)))
            × (has_key i more_columns ≡ true)))
try_extend_columns-append_example =
    try_extend_columns-append toy maps toy_linear (exact_table old_rows 2 10) old_rows more_columns
      2 10 tt (exact_table-IsExactTable old_rows 2 10 old_rows-DistinctKeys old_rows-HasRows)
      (λ e. cc) more_columns-HasRows (omega arith)

-- A table with a repeated identifier.
abbrev twice : Columns
twice = new_rows ++ new_rows

try_from_columns_outcome_example :
    (((n : ℕ) → ¬ HasRows n twice)
      × (try_from_columns_with_offset toy maps twice 4 tt
          ≡ err (from_mixed_length mixed_length_columns)))
    ⊎ (((n : ℕ) × HasRows n twice)
        × ¬ DistinctKeys twice
        × ((i : Identifier) × (try_from_columns_with_offset toy maps twice 4 tt
              ≡ err (from_duplicate (duplicate_identifiers i.name)))
            × IsRepeated i twice))
    ⊎ ((n : ℕ) × (t : TableCommitment toy maps) × (try_from_columns_with_offset toy maps twice 4 tt
          ≡ ok t)
        × IsExactTable toy maps toy_linear t twice n 4 tt)
try_from_columns_outcome_example = try_from_columns_outcome toy maps toy_linear twice 4 tt

old_rows-IsValid : IsValid toy maps (exact_columns old_rows 10)
unfolding insert_all insert identifier_beq
old_rows-IsValid = record { counted = refl; valid = exact_entries-ValidEntries old_rows }

-- New rows without the second column.
abbrev fewer_columns : Columns
fewer_columns = (named "a", big_int (pos 3 ∷ [])) ∷ []

try_append_rows-Keeps_example :
    Keeps toy maps
      (Columns.try_append_rows_with_offset toy maps (exact_columns old_rows 10) fewer_columns 12 tt)
try_append_rows-Keeps_example =
    try_append_rows-Keeps toy maps toy_linear (exact_columns old_rows 10) fewer_columns 12 tt
      old_rows-IsValid

try_add-Keeps_example :
    Keeps toy maps
      (Columns.try_add toy maps (exact_columns old_rows 10) (exact_columns old_rows 10))
try_add-Keeps_example =
    try_add-Keeps toy maps toy_linear (exact_columns old_rows 10) (exact_columns old_rows 10)
      old_rows-IsValid old_rows-IsValid

try_union_outcome_example :
    Combined maps.entries (exact_entries old_rows) (exact_entries fewer_columns) (
      MetadataMap.try_union maps
        (maps.collect (exact_entries old_rows))
        (maps.collect (exact_entries fewer_columns)))
unfolding insert_all insert identifier_beq
try_union_outcome_example =
    try_union_outcome maps (maps.collect (exact_entries old_rows))
      (maps.collect (exact_entries fewer_columns)) (exact_entries-ValidEntries old_rows)
      (exact_entries-ValidEntries fewer_columns)

try_difference_outcome_example :
    Combined maps.entries (exact_entries old_rows) (exact_entries new_rows) (
      MetadataMap.try_difference maps
        (maps.collect (exact_entries old_rows))
        (maps.collect (exact_entries new_rows)))
unfolding insert_all insert identifier_beq
try_difference_outcome_example =
    try_difference_outcome maps (maps.collect (exact_entries old_rows))
      (maps.collect (exact_entries new_rows)) (exact_entries-ValidEntries old_rows)
      (exact_entries-ValidEntries new_rows)
