-- ===== src/Commitment/Query.antt =====
-- crates/proof-of-sql/src/base/commitment/query_commitments.rs: the commitments to all tables of a
-- query. The standard `HashMap` is a list of entries whose keys differ; `Result` shows the `unwrap`s.
pub mod FromAccessor
use sxt_proof_of_sql.Shared.{
  ℕ, Result, ok, err, panic, ◌>>=◌, expect_some, Option, none, some, List, [], ◌∷◌, ◌++◌, map,
  equal, if◌then◌else◌,
}
use mathlib.Core.Option
use sxt_proof_of_sql.Database.Names.{Identifier, TableRef, table_ref_eq}
use sxt_proof_of_sql.Database.ColumnType.{ColumnType, ColumnRef, ColumnField}
use sxt_proof_of_sql.Database.IndexMap.{IndexMap}
use sxt_proof_of_sql.Database.Accessor.{CommitmentAccessor}
use sxt_proof_of_sql.Commitment.Metadata.{ColumnCommitmentMetadata}
use sxt_proof_of_sql.Commitment.Scheme.{Scheme}
use sxt_proof_of_sql.Commitment.Columns
use sxt_proof_of_sql.Commitment.Table
use sxt_proof_of_sql.Commitment.Table.{TableCommitment}

-- `HashMap::get`
unfoldable pub get : {V : Type 0} → TableRef → List (TableRef × V) → Option V
get k [] = none
get k ((t, v) ∷ l) = if equal t k then some v else get k l

-- `entry(..).or_default().push(..)`
unfoldable pub push_column :
    TableRef → ColumnField → List (TableRef × List ColumnField) → List (TableRef × List ColumnField)
push_column k field [] = (k, field ∷ []) ∷ []
push_column k field ((t, columns) ∷ l) =
    let rest = push_column k field l in
    if equal t k then (t, columns ++ field ∷ []) ∷ l else (t, columns) ∷ rest

-- The fold of `from_accessor_with_max_bounds`.
unfoldable pub table_columns :
    List (TableRef × List ColumnField) → List ColumnRef → List (TableRef × List ColumnField)
unfolding push_column
table_columns acc [] = acc
table_columns acc (column ∷ columns) =
    table_columns
      (push_column column.table_ref
        (record { name = column.column_id; data_type = column.column_type }) acc)
      columns

module _ (s : Scheme) (index_map : IndexMap ColumnCommitmentMetadata) where
  open s use {Point}

  abbrev pub QueryCommitments : Type 0
  QueryCommitments = List (TableRef × TableCommitment s index_map)

  -- The `map` and the `collect`.
  unfoldable pub table_commitments {ε} :
      {E : Type ε}
      → CommitmentAccessor Point
      → List (TableRef × List ColumnField)
      → Result E QueryCommitments
  table_commitments accessor [] = ok []
  table_commitments accessor ((table_ref, columns) ∷ l) = do
    t ← Table.from_accessor_with_max_bounds s index_map table_ref columns accessor
    rest ← table_commitments accessor l
    ok ((table_ref, t) ∷ rest)

  unfoldable pub from_accessor_with_max_bounds {ε} :
      {E : Type ε} → List ColumnRef → CommitmentAccessor Point → Result E QueryCommitments
  from_accessor_with_max_bounds columns accessor =
      table_commitments accessor (table_columns [] columns)

  unfoldable pub get_length {ε} : {E : Type ε} → QueryCommitments → TableRef → Result E ℕ
  get_length self table_ref = do
    table_commitment ← expect_some (get table_ref self)
    ok (Table.num_rows s index_map table_commitment)

  unfoldable pub get_offset {ε} : {E : Type ε} → QueryCommitments → TableRef → Result E ℕ
  get_offset self table_ref = do
    table_commitment ← expect_some (get table_ref self)
    ok table_commitment.range.start

  unfoldable pub get_commitment {ε} : {E : Type ε} → QueryCommitments → ColumnRef → Result E Point
  get_commitment self column = do
    table_commitment ← expect_some (get column.table_ref self)
    commitment ←
        Columns.get_commitment s index_map table_commitment.column_commitments column.column_id
    expect_some commitment

  -- After the `?`.
  abbrev pub column_type_in : Option (TableCommitment s index_map) → Identifier → Option ColumnType
  column_type_in none column_id = none
  column_type_in (some table_commitment) column_id =
      Option.map (λ (m : ColumnCommitmentMetadata). m.column_type)
        (Columns.get_metadata s index_map table_commitment.column_commitments column_id)

  unfoldable pub lookup_column : QueryCommitments → TableRef → Identifier → Option ColumnType
  lookup_column self table_ref column_id = column_type_in (get table_ref self) column_id

  unfoldable pub lookup_schema {ε} :
      {E : Type ε} → QueryCommitments → TableRef → Result E (List (Identifier × ColumnType))
  lookup_schema self table_ref = do
    table_commitment ← expect_some (get table_ref self)
    ok (
        map (λ e. (e.0, e.1.column_type))
          (index_map.entries table_commitment.column_commitments.column_metadata))
