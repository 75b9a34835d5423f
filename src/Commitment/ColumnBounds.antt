-- ===== src/Commitment/ColumnBounds.antt =====
-- crates/proof-of-sql/src/base/commitment/column_bounds.rs: `ColumnBounds`, the bounds of a column
-- whose type has an order.
pub mod Sound
use sxt_proof_of_sql.Shared.{Result, ok, err, ◌>>=◌}
use sxt_proof_of_sql.Shared.Int.{ℤ, int_ord}
use sxt_proof_of_sql.Commitment.CommittableColumn.{CommittableColumn}
use sxt_proof_of_sql.Commitment.Bounds
use sxt_proof_of_sql.Commitment.Bounds.{Bounds}

pub data ColumnBounds : Type 0 where
  no_order : ColumnBounds
  small_int int big_int int128 : Bounds ℤ → ColumnBounds

pub data ColumnBoundsMismatch : Type 0 where
  column_bounds_mismatch : ColumnBounds → ColumnBounds → ColumnBoundsMismatch

unfoldable pub from_column {ε} : {E : Type ε} → CommittableColumn → Result E ColumnBounds
from_column (CommittableColumn.small_int ints) = do b ← Bounds.from_iter ints; ok (small_int b)
from_column (CommittableColumn.int ints) = do b ← Bounds.from_iter ints; ok (int b)
from_column (CommittableColumn.big_int ints) = do b ← Bounds.from_iter ints; ok (big_int b)
from_column (CommittableColumn.int128 ints) = do b ← Bounds.from_iter ints; ok (int128 b)
from_column _ = ok no_order

unfoldable pub try_union : ColumnBounds → ColumnBounds → Result ColumnBoundsMismatch ColumnBounds
try_union no_order no_order = ok no_order
try_union (small_int a) (small_int b) = ok (small_int (Bounds.union a b))
try_union (int a) (int b) = ok (int (Bounds.union a b))
try_union (big_int a) (big_int b) = ok (big_int (Bounds.union a b))
try_union (int128 a) (int128 b) = ok (int128 (Bounds.union a b))
try_union a b = err (column_bounds_mismatch a b)

unfoldable pub try_difference :
    ColumnBounds → ColumnBounds → Result ColumnBoundsMismatch ColumnBounds
try_difference no_order no_order = ok no_order
try_difference (small_int a) (small_int b) = ok (small_int (Bounds.difference a b))
try_difference (int a) (int b) = ok (int (Bounds.difference a b))
try_difference (big_int a) (big_int b) = ok (big_int (Bounds.difference a b))
try_difference (int128 a) (int128 b) = ok (int128 (Bounds.difference a b))
try_difference a b = err (column_bounds_mismatch a b)

-- Bounds of the column's type that describe its values.
abbrev pub DescribesColumn : ColumnBounds → CommittableColumn → Type 0
DescribesColumn no_order (CommittableColumn.boolean col) = Unit
DescribesColumn no_order (CommittableColumn.decimal75 p s col) = Unit
DescribesColumn no_order (CommittableColumn.scalar col) = Unit
DescribesColumn no_order (CommittableColumn.varchar col) = Unit
DescribesColumn (small_int b) (CommittableColumn.small_int ints) = Bounds.Describes b ints
DescribesColumn (int b) (CommittableColumn.int ints) = Bounds.Describes b ints
DescribesColumn (big_int b) (CommittableColumn.big_int ints) = Bounds.Describes b ints
DescribesColumn (int128 b) (CommittableColumn.int128 ints) = Bounds.Describes b ints
DescribesColumn _ _ = ⊥
