-- ===== src/Commitment/Columns.antt =====
-- crates/proof-of-sql/src/base/commitment/column_commitments.rs: commitments to a collection of
-- columns, with their metadata. A method that takes `&mut self` returns the new value; on an error
-- the receiver is as it was. Columns come converted to `CommittableColumn`.
pub mod Unique
pub mod Invariant
pub mod FromColumns
pub mod Append
pub mod Extend
pub mod Arithmetic
use mathlib.Core.List.{zip}
use sxt_proof_of_sql.Shared.{
  ℕ, Result, ok, err, panic, ◌>>=◌, map_err, expect, expect_some, Bool, true, false, not, ◌||◌,
  String, List, [], ◌∷◌, ◌++◌, map, length, Option, none, some, if◌then◌else◌, equal, All, ◌≡◌,
}
use sxt_proof_of_sql.Database.Names.{Identifier, identifier_eq, TableRef}
use sxt_proof_of_sql.Database.ColumnType.{ColumnField, ColumnRef}
use sxt_proof_of_sql.Database.IndexMap.{IndexMap}
use sxt_proof_of_sql.Database.Accessor.{CommitmentAccessor}
use sxt_proof_of_sql.Commitment.CommittableColumn.{CommittableColumn}
use sxt_proof_of_sql.Commitment.Metadata
use sxt_proof_of_sql.Commitment.Metadata.{ColumnCommitmentMetadata}
use sxt_proof_of_sql.Commitment.MetadataMap
use sxt_proof_of_sql.Commitment.MetadataMap.{ColumnCommitmentsMismatch}
use sxt_proof_of_sql.Commitment.Scheme.{Scheme}
use sxt_proof_of_sql.Commitment.Vec

pub data DuplicateIdentifiers : Type 0 where
  duplicate_identifiers : String → DuplicateIdentifiers

pub data AppendColumnCommitmentsError : Type 0 where
  mismatch : ColumnCommitmentsMismatch → AppendColumnCommitmentsError
  duplicate : DuplicateIdentifiers → AppendColumnCommitmentsError

abbrev pub seen_before : Identifier → List Identifier → Bool
seen_before i [] = false
seen_before i (j ∷ seen) = equal i j || seen_before i seen

-- The pass with the set of identifiers met so far.
unfoldable pub check_unique :
    List Identifier
    → List (Identifier × CommittableColumn)
    → Result DuplicateIdentifiers (List (Identifier × CommittableColumn))
check_unique seen [] = ok []
check_unique seen ((i, c) ∷ columns) =
    let rest = check_unique (i ∷ seen) columns in
    if seen_before i seen
    then err (duplicate_identifiers i.name)
    else (do columns' ← rest; ok ((i, c) ∷ columns'))

pub record ColumnCommitments (s : Scheme) (index_map : IndexMap ColumnCommitmentMetadata)
    : Type 0 where
  pub commitments : List s.Point
  pub column_metadata : index_map.Map

module _ (s : Scheme) (index_map : IndexMap ColumnCommitmentMetadata) where
  open s use {Point, PublicSetup}

  unfoldable pub from_accessor_with_max_bounds {ε} :
      {E : Type ε}
      → TableRef
      → List ColumnField
      → CommitmentAccessor Point
      → Result E (ColumnCommitments s index_map)
  from_accessor_with_max_bounds table columns accessor = do
    column_metadata ← MetadataMap.from_column_fields_with_max_bounds index_map columns
    ok (record {
      commitments =
          map
            (λ (c : ColumnField).
              accessor.get_commitment
                (record { table_ref = table; column_id = c.name; column_type = c.data_type }))
            columns;
      column_metadata = column_metadata;
    })

  unfoldable pub len : ColumnCommitments s index_map → ℕ
  len self = index_map.len self.column_metadata

  -- The index is found in the metadata and used in the commitments.
  unfoldable pub get_commitment {ε} :
      {E : Type ε} → ColumnCommitments s index_map → Identifier → Result E (Option Point)
  get_commitment self identifier = elim (index_map.get_index_of self.column_metadata identifier) [
    | none ↦ ok none
    | some i ↦ do
      decompressed ← Vec.get_decompressed_commitment s self.commitments i
      c ← expect_some decompressed
      ok (some c)
  ]

  unfoldable pub get_metadata :
      ColumnCommitments s index_map → Identifier → Option ColumnCommitmentMetadata
  get_metadata self identifier = index_map.get self.column_metadata identifier

  unfoldable pub iter :
      ColumnCommitments s index_map → List (Identifier × ColumnCommitmentMetadata × Point)
  iter self =
      map (λ e. (e.0.0, e.0.1, e.1)) (zip (index_map.entries self.column_metadata) self.commitments)

  unfoldable pub from_iter :
      List (Identifier × ColumnCommitmentMetadata × Point) → ColumnCommitments s index_map
  from_iter items = record {
    commitments = map (λ e. e.2) items;
    column_metadata = index_map.collect (map (λ e. (e.0, e.1)) items);
  }

  unfoldable pub try_from_columns_with_offset :
      List (Identifier × CommittableColumn)
      → ℕ
      → PublicSetup
      → Result DuplicateIdentifiers (ColumnCommitments s index_map)
  unfolding check_unique
  try_from_columns_with_offset columns offset setup = do
    unique_columns ← check_unique [] columns
    column_metadata ← MetadataMap.from_columns index_map unique_columns
    ok (record {
      commitments = Vec.from_columns_with_offset s (map (λ e. e.1) unique_columns) offset setup;
      column_metadata = column_metadata;
    })

  unfoldable pub try_append_rows_with_offset :
      ColumnCommitments s index_map
      → List (Identifier × CommittableColumn)
      → ℕ
      → PublicSetup
      → Result AppendColumnCommitmentsError (ColumnCommitments s index_map)
  unfolding check_unique
  try_append_rows_with_offset self columns offset setup = do
    unique_columns ← map_err duplicate (check_unique [] columns)
    column_metadata ← MetadataMap.from_columns index_map unique_columns
    united ← map_err mismatch (MetadataMap.try_union index_map self.column_metadata column_metadata)
    appended ← expect (
        Vec.try_append_rows_with_offset s self.commitments (map (λ e. e.1) unique_columns) offset
          setup)
    ok (record { commitments = appended; column_metadata = united })

  -- The pass that refuses a new column whose identifier is there.
  unfoldable pub check_new :
      index_map.Map
      → List (Identifier × CommittableColumn)
      → Result DuplicateIdentifiers (List (Identifier × CommittableColumn))
  check_new present [] = ok []
  check_new present ((i, c) ∷ columns) =
      let rest = check_new present columns in
      if index_map.contains_key present i
      then err (duplicate_identifiers i.name)
      else (do columns' ← rest; ok ((i, c) ∷ columns'))

  unfoldable pub try_extend_columns_with_offset :
      ColumnCommitments s index_map
      → List (Identifier × CommittableColumn)
      → ℕ
      → PublicSetup
      → Result DuplicateIdentifiers (ColumnCommitments s index_map)
  unfolding check_new
  try_extend_columns_with_offset self columns offset setup = do
    unique_columns ← check_new self.column_metadata columns
    added ← try_from_columns_with_offset unique_columns offset setup
    ok (record {
      commitments = self.commitments ++ added.commitments;
      column_metadata =
          index_map.extend self.column_metadata (index_map.entries added.column_metadata);
    })

  unfoldable pub try_add :
      ColumnCommitments s index_map
      → ColumnCommitments s index_map
      → Result ColumnCommitmentsMismatch (ColumnCommitments s index_map)
  try_add self other = do
    column_metadata ← MetadataMap.try_union index_map self.column_metadata other.column_metadata
    commitments ← expect (Vec.try_add s self.commitments other.commitments)
    ok (record { commitments = commitments; column_metadata = column_metadata })

  unfoldable pub try_sub :
      ColumnCommitments s index_map
      → ColumnCommitments s index_map
      → Result ColumnCommitmentsMismatch (ColumnCommitments s index_map)
  try_sub self other = do
    column_metadata ←
        MetadataMap.try_difference index_map self.column_metadata other.column_metadata
    commitments ← expect (Vec.try_sub s self.commitments other.commitments)
    ok (record { commitments = commitments; column_metadata = column_metadata })
