-- ===== src/Commitment/Metadata/MaxBounds.antt =====
-- `from_column_type_with_max_bounds`: the bounds that hold for every column of a type.
use sxt_proof_of_sql.Shared.{ℕ, ◌≤◌, ◌-◌, ◌^◌, ok, ◌≡◌, refl, true, All, All-map, arith}
use sxt_proof_of_sql.Shared.Int.{ℤ, pos, negsuc, pos_part, neg_part, int_ord}
use sxt_proof_of_sql.Database.ColumnType.{ColumnType}
use sxt_proof_of_sql.Commitment.CommittableColumn.{CommittableColumn, column_type}
use sxt_proof_of_sql.Commitment.Bounds.{
  bounded, BoundsInner, surrounds_inner, try_new as bounds_try_new,
}
use sxt_proof_of_sql.Commitment.ColumnBounds
use sxt_proof_of_sql.Commitment.Metadata.{
  ColumnCommitmentMetadata, from_column_type_with_max_bounds, DescribesColumn, IsValid,
}

-- A value of a signed machine integer of `bits + 1` bits.
abbrev pub InRange : ℕ → ℤ → Type 0
InRange bits x = (pos_part x ≤ 2 ^ bits - 1) × (neg_part x ≤ 2 ^ bits)

-- The columns that the source can hold: the integers have the width of the column's type.
abbrev pub IsMachine : CommittableColumn → Type 0
IsMachine (CommittableColumn.small_int ints) = All (InRange 15) ints
IsMachine (CommittableColumn.int ints) = All (InRange 31) ints
IsMachine (CommittableColumn.big_int ints) = All (InRange 63) ints
IsMachine (CommittableColumn.int128 ints) = All (InRange 127) ints
IsMachine _ = Unit

abbrev range : ℕ → BoundsInner ℤ
range bits = record { min = negsuc (2 ^ bits - 1); max = pos (2 ^ bits - 1) }

InRange-surrounds :
    (bits : ℕ) (x : ℤ) → 1 ≤ 2 ^ bits → InRange bits x → surrounds_inner (range bits) x ≡ true
unfolding surrounds_inner
InRange-surrounds bits x p h = ground arith

-- `from_column_type_with_max_bounds` never panics, and its metadata is valid and describes every
-- column of the type whose integers have the width of the type.
pub from_column_type_with_max_bounds-DescribesColumn {ε} :
    {E : Type ε} (c : CommittableColumn)
    → IsMachine c
    → (m : ColumnCommitmentMetadata) × (from_column_type_with_max_bounds {E = E} (column_type c)
        ≡ ok m)
      × DescribesColumn m c
      × IsValid m
unfolding from_column_type_with_max_bounds bounds_try_new column_type
from_column_type_with_max_bounds-DescribesColumn (CommittableColumn.small_int ints) h = (
  record {
    column_type = ColumnType.small_int;
    bounds = ColumnBounds.small_int (bounded (range 15));
  },
  refl,
  (refl, All-map (λ x. InRange-surrounds 15 x (omega arith)) ints h),
  refl,
)
from_column_type_with_max_bounds-DescribesColumn (CommittableColumn.int ints) h = (
  record { column_type = ColumnType.int; bounds = ColumnBounds.int (bounded (range 31)) },
  refl,
  (refl, All-map (λ x. InRange-surrounds 31 x (omega arith)) ints h),
  refl,
)
from_column_type_with_max_bounds-DescribesColumn (CommittableColumn.big_int ints) h = (
  record { column_type = ColumnType.big_int; bounds = ColumnBounds.big_int (bounded (range 63)) },
  refl,
  (refl, All-map (λ x. InRange-surrounds 63 x (omega arith)) ints h),
  refl,
)
from_column_type_with_max_bounds-DescribesColumn (CommittableColumn.int128 ints) h = (
  record { column_type = ColumnType.int128; bounds = ColumnBounds.int128 (bounded (range 127)) },
  refl,
  (refl, All-map (λ x. InRange-surrounds 127 x (omega arith)) ints h),
  refl,
)
from_column_type_with_max_bounds-DescribesColumn (CommittableColumn.boolean col) h = (
  record { column_type = ColumnType.boolean; bounds = ColumnBounds.no_order },
  refl,
  (refl, tt),
  refl,
)
from_column_type_with_max_bounds-DescribesColumn (CommittableColumn.decimal75 p s col) h = (
  record { column_type = ColumnType.decimal75 p s; bounds = ColumnBounds.no_order },
  refl,
  (refl, tt),
  refl,
)
from_column_type_with_max_bounds-DescribesColumn (CommittableColumn.scalar col) h = (
  record { column_type = ColumnType.scalar; bounds = ColumnBounds.no_order },
  refl,
  (refl, tt),
  refl,
)
from_column_type_with_max_bounds-DescribesColumn (CommittableColumn.varchar col) h = (
  record { column_type = ColumnType.varchar; bounds = ColumnBounds.no_order },
  refl,
  (refl, tt),
  refl,
)
