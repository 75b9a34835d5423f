-- ===== src/Commitment/Metadata.antt =====
-- crates/proof-of-sql/src/base/commitment/column_commitment_metadata.rs: the type and the bounds of
-- a committed column.
pub mod Sound
pub mod MaxBounds
use sxt_proof_of_sql.Shared.{
  Result, ok, err, panic, ◌>>=◌, expect, Bool, true, false, ℕ, ◌-◌, ◌^◌, ◌≡◌, if◌then◌else◌,
}
use sxt_proof_of_sql.Shared.Int.{ℤ, pos, negsuc, int_ord}
use sxt_proof_of_sql.Database.ColumnType.{ColumnType, column_type_beq}
use sxt_proof_of_sql.Commitment.CommittableColumn
use sxt_proof_of_sql.Commitment.CommittableColumn.{CommittableColumn}
use sxt_proof_of_sql.Commitment.Bounds
use sxt_proof_of_sql.Commitment.Bounds.{Bounds}
use sxt_proof_of_sql.Commitment.ColumnBounds
use sxt_proof_of_sql.Commitment.ColumnBounds.{ColumnBounds}

pub data InvalidColumnCommitmentMetadata : Type 0 where
  type_bounds_mismatch : ColumnType → ColumnBounds → InvalidColumnCommitmentMetadata

pub data ColumnCommitmentMetadataMismatch : Type 0 where
  metadata_mismatch : ColumnType → ColumnType → ColumnCommitmentMetadataMismatch

pub record ColumnCommitmentMetadata : Type 0 where
  pub column_type : ColumnType
  pub bounds : ColumnBounds

-- The pairs that the first arm of the match in `try_new` accepts.
abbrev pub fits : ColumnType → ColumnBounds → Bool
fits ColumnType.small_int (ColumnBounds.small_int b) = true
fits ColumnType.int (ColumnBounds.int b) = true
fits ColumnType.big_int (ColumnBounds.big_int b) = true
fits ColumnType.int128 (ColumnBounds.int128 b) = true
fits ColumnType.boolean ColumnBounds.no_order = true
fits ColumnType.varchar ColumnBounds.no_order = true
fits ColumnType.scalar ColumnBounds.no_order = true
fits (ColumnType.decimal75 p s) ColumnBounds.no_order = true
fits _ _ = false

unfoldable pub try_new :
    ColumnType → ColumnBounds → Result InvalidColumnCommitmentMetadata ColumnCommitmentMetadata
try_new column_type bounds =
    if fits column_type bounds
    then ok (record { column_type = column_type; bounds = bounds })
    else err (type_bounds_mismatch column_type bounds)

-- `Bounded(BoundsInner::try_new(T::MIN, T::MAX).expect(..))` for the integers of `bits + 1` bits.
unfoldable pub widest {ε} : {E : Type ε} → ℕ → Result E (Bounds ℤ)
widest bits = do
  i ← expect (Bounds.try_new (negsuc (2 ^ bits - 1)) (pos (2 ^ bits - 1)))
  ok (Bounds.bounded i)

unfoldable pub max_bounds {ε} : {E : Type ε} → ColumnType → Result E ColumnBounds
unfolding widest
max_bounds ColumnType.small_int = do b ← widest 15; ok (ColumnBounds.small_int b)
max_bounds ColumnType.int = do b ← widest 31; ok (ColumnBounds.int b)
max_bounds ColumnType.big_int = do b ← widest 63; ok (ColumnBounds.big_int b)
max_bounds ColumnType.int128 = do b ← widest 127; ok (ColumnBounds.int128 b)
max_bounds _ = ok ColumnBounds.no_order

unfoldable pub from_column_type_with_max_bounds {ε} :
    {E : Type ε} → ColumnType → Result E ColumnCommitmentMetadata
unfolding max_bounds try_new
from_column_type_with_max_bounds column_type = do
  bounds ← max_bounds column_type
  expect (try_new column_type bounds)

unfoldable pub from_column {ε} :
    {E : Type ε} → CommittableColumn → Result E ColumnCommitmentMetadata
from_column column = do
  bounds ← ColumnBounds.from_column column
  ok (record { column_type = CommittableColumn.column_type column; bounds = bounds })

unfoldable pub try_union :
    ColumnCommitmentMetadata
    → ColumnCommitmentMetadata
    → Result ColumnCommitmentMetadataMismatch ColumnCommitmentMetadata
try_union a b =
    if column_type_beq a.column_type b.column_type
    then (do
      bounds ← expect (ColumnBounds.try_union a.bounds b.bounds)
      ok (record { column_type = a.column_type; bounds = bounds }))
    else err (metadata_mismatch a.column_type b.column_type)

unfoldable pub try_difference :
    ColumnCommitmentMetadata
    → ColumnCommitmentMetadata
    → Result ColumnCommitmentMetadataMismatch ColumnCommitmentMetadata
try_difference a b =
    if column_type_beq a.column_type b.column_type
    then (do
      bounds ← expect (ColumnBounds.try_difference a.bounds b.bounds)
      ok (record { column_type = a.column_type; bounds = bounds }))
    else err (metadata_mismatch a.column_type b.column_type)

-- What `try_new` guards: the variant of the bounds is the one for the type.
abbrev pub IsValid : ColumnCommitmentMetadata → Type 0
IsValid m = fits m.column_type m.bounds ≡ true

-- The metadata of a column: its type, and bounds that describe its values.
abbrev pub DescribesColumn : ColumnCommitmentMetadata → CommittableColumn → Type 0
DescribesColumn m c =
    (m.column_type ≡ CommittableColumn.column_type c) × ColumnBounds.DescribesColumn m.bounds c
