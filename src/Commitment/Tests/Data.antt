-- ===== src/Commitment/Tests/Data.antt =====
-- Small tables, and the commitments to them.
use sxt_proof_of_sql.Shared.{ℕ, refl, String, [], ◌∷◌}
use sxt_proof_of_sql.Shared.Int.{pos, negsuc}
use sxt_proof_of_sql.Database.Names.{Identifier, identifier_beq}
use sxt_proof_of_sql.Database.IndexMap.{IndexMap, DistinctKeys}
use sxt_proof_of_sql.Database.IndexMap.Instance.{list_map}
use sxt_proof_of_sql.Commitment.CommittableColumn.{big_int, varchar, len, column_type}
use sxt_proof_of_sql.Commitment.Metadata.{ColumnCommitmentMetadata}
use sxt_proof_of_sql.Commitment.MetadataMap.Exact.{
  Columns, exact_entries, DistinctKeys-exact_entries, SameSchema,
}
use sxt_proof_of_sql.Commitment.Columns.{ColumnCommitments}
use sxt_proof_of_sql.Commitment.Columns.FromColumns.{HasRows, commits, IsExact, IsExact-Commits}
use sxt_proof_of_sql.Commitment.Table.{TableCommitment, usize_add}
use sxt_proof_of_sql.Commitment.Table.Rows.{IsExactTable, CommitsTable}
use sxt_proof_of_sql.Commitment.Tests.ToyScheme.{toy, toy_linear}

abbrev pub maps : IndexMap ColumnCommitmentMetadata
maps = list_map ColumnCommitmentMetadata

abbrev pub exact_columns : Columns → ℕ → ColumnCommitments toy maps
exact_columns columns offset = record {
  commitments = commits toy maps toy_linear columns offset tt;
  column_metadata = maps.collect (exact_entries columns);
}

abbrev pub exact_table : Columns → ℕ → ℕ → TableCommitment toy maps
exact_table columns n offset = record {
  column_commitments = exact_columns columns offset;
  range = record { start = offset; end = usize_add offset n };
}

pub exact_columns-IsExact :
    (columns : Columns) (offset : ℕ)
    → DistinctKeys columns
    → IsExact toy maps toy_linear (exact_columns columns offset) columns offset tt
exact_columns-IsExact columns offset distinct = record {
  committed = refl;
  described =
      maps.collect_entries (exact_entries columns) (DistinctKeys-exact_entries columns distinct);
  distinct = distinct;
}

pub exact_table-IsExactTable :
    (columns : Columns) (n offset : ℕ)
    → DistinctKeys columns
    → HasRows n columns
    → IsExactTable toy maps toy_linear (exact_table columns n offset) columns n offset tt
exact_table-IsExactTable columns n offset distinct rows = record {
  exact = exact_columns-IsExact columns offset distinct;
  rows = rows;
  start = refl;
  end = refl;
}

pub exact_table-CommitsTable :
    (columns : Columns) (n offset : ℕ)
    → DistinctKeys columns
    → HasRows n columns
    → CommitsTable toy maps toy_linear (exact_table columns n offset) columns n offset tt
exact_table-CommitsTable columns n offset distinct rows = record {
  commits = IsExact-Commits toy maps toy_linear (exact_columns-IsExact columns offset distinct);
  rows = rows;
  start = refl;
  end = refl;
}

abbrev pub named : String → Identifier
named name = record { name = name }

abbrev pub old_rows : Columns
old_rows =
    (named "a", big_int (pos 1 ∷ negsuc 4 ∷ []))
    ∷ (named "b", varchar ((7, 0, 0, 0) ∷ (9, 0, 0, 0) ∷ []))
    ∷ []

abbrev pub new_rows : Columns
new_rows = (named "a", big_int (pos 3 ∷ [])) ∷ (named "b", varchar ((5, 0, 0, 0) ∷ [])) ∷ []

abbrev pub more_columns : Columns
more_columns = (named "c", big_int (pos 8 ∷ pos 9 ∷ [])) ∷ []

pub old_rows-DistinctKeys : DistinctKeys old_rows
unfolding identifier_beq
old_rows-DistinctKeys = (refl, (refl, tt))

pub new_rows-DistinctKeys : DistinctKeys new_rows
unfolding identifier_beq
new_rows-DistinctKeys = (refl, (refl, tt))

pub old_rows-HasRows : HasRows 2 old_rows
unfolding len
old_rows-HasRows = (refl, (refl, tt))

pub new_rows-HasRows : HasRows 1 new_rows
unfolding len
new_rows-HasRows = (refl, (refl, tt))

pub more_columns-HasRows : HasRows 2 more_columns
unfolding len
more_columns-HasRows = (refl, tt)

pub old_new-SameSchema : SameSchema old_rows new_rows
unfolding column_type
old_new-SameSchema = (refl, refl, (refl, refl, tt))
