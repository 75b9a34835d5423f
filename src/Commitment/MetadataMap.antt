-- ===== src/Commitment/MetadataMap.antt =====
-- crates/proof-of-sql/src/base/commitment/column_commitment_metadata_map.rs: the metadata of
-- columns by identifier, in order.
pub mod Combine
pub mod Exact
pub mod Described
use sxt_proof_of_sql.Shared.{
  ℕ, Result, ok, err, panic, ◌>>=◌, map_err, Bool, not, ◌==◌, String, List, [], ◌∷◌, if◌then◌else◌,
  All, ◌≡◌, equal,
}
use sxt_proof_of_sql.Database.Names.{Identifier, identifier_eq}
use sxt_proof_of_sql.Database.ColumnType.{ColumnField}
use sxt_proof_of_sql.Database.IndexMap.{IndexMap}
use sxt_proof_of_sql.Commitment.CommittableColumn.{CommittableColumn}
use sxt_proof_of_sql.Commitment.Metadata
use sxt_proof_of_sql.Commitment.Metadata.{
  ColumnCommitmentMetadata, ColumnCommitmentMetadataMismatch,
}

pub data ColumnCommitmentsMismatch : Type 0 where
  column_commitment_metadata : ColumnCommitmentMetadataMismatch → ColumnCommitmentsMismatch
  num_columns : ColumnCommitmentsMismatch
  mismatched_identifier : String → String → ColumnCommitmentsMismatch

abbrev pub Entry : Type 0
Entry = Identifier × ColumnCommitmentMetadata

-- The fields or columns in order, with the metadata made for each.
unfoldable pub field_entries {ε} : {E : Type ε} → List ColumnField → Result E (List Entry)
field_entries [] = ok []
field_entries (f ∷ fs) = do
  metadata ← Metadata.from_column_type_with_max_bounds f.data_type
  rest ← field_entries fs
  ok ((f.name, metadata) ∷ rest)

unfoldable pub column_entries {ε} :
    {E : Type ε} → List (Identifier × CommittableColumn) → Result E (List Entry)
column_entries [] = ok []
column_entries ((identifier, column) ∷ columns) = do
  metadata ← Metadata.from_column column
  rest ← column_entries columns
  ok ((identifier, metadata) ∷ rest)

-- The closure and the `zip` of `try_union` and `try_difference`, which differ in `op`.
unfoldable pub zip_entries :
    (ColumnCommitmentMetadata
      → ColumnCommitmentMetadata
      → Result ColumnCommitmentMetadataMismatch ColumnCommitmentMetadata)
    → List Entry
    → List Entry
    → Result ColumnCommitmentsMismatch (List Entry)
zip_entries op ((identifier_a, a) ∷ xs) ((identifier_b, b) ∷ ys) = do
  entry ←
      if equal identifier_a identifier_b
      then (do metadata ← map_err column_commitment_metadata (op a b); ok (identifier_a, metadata))
      else err (mismatched_identifier identifier_a.name identifier_b.name)
  rest ← zip_entries op xs ys
  ok (entry ∷ rest)
zip_entries op _ _ = ok []

module _ (index_map : IndexMap ColumnCommitmentMetadata) where
  open index_map use {Map, entries, len, collect}

  unfoldable pub from_column_fields_with_max_bounds {ε} :
      {E : Type ε} → List ColumnField → Result E Map
  unfolding field_entries
  from_column_fields_with_max_bounds columns = do es ← field_entries columns; ok (collect es)

  unfoldable pub from_columns {ε} :
      {E : Type ε} → List (Identifier × CommittableColumn) → Result E Map
  unfolding column_entries
  from_columns columns = do es ← column_entries columns; ok (collect es)

  unfoldable pub try_union : Map → Map → Result ColumnCommitmentsMismatch Map
  try_union a b =
      if not (len a == len b)
      then err num_columns
      else (do es ← zip_entries Metadata.try_union (entries a) (entries b); ok (collect es))

  unfoldable pub try_difference : Map → Map → Result ColumnCommitmentsMismatch Map
  try_difference a b =
      if not (len a == len b)
      then err num_columns
      else (do es ← zip_entries Metadata.try_difference (entries a) (entries b); ok (collect es))
