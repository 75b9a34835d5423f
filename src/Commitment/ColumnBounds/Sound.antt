-- ===== src/Commitment/ColumnBounds/Sound.antt =====
-- Bounds of columns against the columns that they describe.
use sxt_proof_of_sql.Shared.{ok, ◌≡◌, refl, arith}
use sxt_proof_of_sql.Shared.Int.{int_ord}
use sxt_proof_of_sql.Commitment.CommittableColumn.{CommittableColumn, column_type, concat}
use sxt_proof_of_sql.Commitment.Bounds
use sxt_proof_of_sql.Commitment.Bounds.{Bounds}
use sxt_proof_of_sql.Commitment.Bounds.FromIter.{
  exact, from_iter-exact, exact-Describes, exact-append,
}
use sxt_proof_of_sql.Commitment.Bounds.Union.{Describes-union, union_comm}
use sxt_proof_of_sql.Commitment.Bounds.Difference.{
  difference-Describes, append-IsRemoval, prepend-IsRemoval,
}
use sxt_proof_of_sql.Commitment.ColumnBounds.{
  ColumnBounds, no_order, small_int, int, big_int, int128, from_column, try_union, try_difference,
  DescribesColumn,
}

-- The bounds that `from_column` computes.
unfoldable pub exact_of : CommittableColumn → ColumnBounds
exact_of (CommittableColumn.small_int ints) = small_int (exact ints)
exact_of (CommittableColumn.int ints) = int (exact ints)
exact_of (CommittableColumn.big_int ints) = big_int (exact ints)
exact_of (CommittableColumn.int128 ints) = int128 (exact ints)
exact_of _ = no_order

pub from_column-exact {ε} :
    {E : Type ε} (c : CommittableColumn) → from_column {E = E} c ≡ ok (exact_of c)
unfolding from_column exact_of
from_column-exact {E} (CommittableColumn.small_int ints) = rw (from_iter-exact {E = E} ints)
from_column-exact {E} (CommittableColumn.int ints) = rw (from_iter-exact {E = E} ints)
from_column-exact {E} (CommittableColumn.big_int ints) = rw (from_iter-exact {E = E} ints)
from_column-exact {E} (CommittableColumn.int128 ints) = rw (from_iter-exact {E = E} ints)
from_column-exact _ = refl

pub exact_of-DescribesColumn : (c : CommittableColumn) → DescribesColumn (exact_of c) c
unfolding exact_of
exact_of-DescribesColumn (CommittableColumn.small_int ints) = exact-Describes ints
exact_of-DescribesColumn (CommittableColumn.int ints) = exact-Describes ints
exact_of-DescribesColumn (CommittableColumn.big_int ints) = exact-Describes ints
exact_of-DescribesColumn (CommittableColumn.int128 ints) = exact-Describes ints
exact_of-DescribesColumn (CommittableColumn.boolean col) = tt
exact_of-DescribesColumn (CommittableColumn.decimal75 p s col) = tt
exact_of-DescribesColumn (CommittableColumn.scalar col) = tt
exact_of-DescribesColumn (CommittableColumn.varchar col) = tt

-- The exact bounds of two columns of one type unite to the exact bounds of their rows together.
pub try_union-exact_of :
    (c d : CommittableColumn)
    → column_type c ≡ column_type d
    → try_union (exact_of c) (exact_of d) ≡ ok (exact_of (concat c d))
unfolding column_type exact_of try_union concat
try_union-exact_of (CommittableColumn.boolean xs) (CommittableColumn.boolean ys) h = refl
try_union-exact_of (CommittableColumn.small_int xs) (CommittableColumn.small_int ys) h =
    rw (exact-append xs ys)
try_union-exact_of (CommittableColumn.int xs) (CommittableColumn.int ys) h = rw (exact-append xs ys)
try_union-exact_of (CommittableColumn.big_int xs) (CommittableColumn.big_int ys) h =
    rw (exact-append xs ys)
try_union-exact_of (CommittableColumn.int128 xs) (CommittableColumn.int128 ys) h =
    rw (exact-append xs ys)
try_union-exact_of (CommittableColumn.decimal75 p s xs) (CommittableColumn.decimal75 q t ys) h =
    refl
try_union-exact_of (CommittableColumn.scalar xs) (CommittableColumn.scalar ys) h = refl
try_union-exact_of (CommittableColumn.varchar xs) (CommittableColumn.varchar ys) h = refl
try_union-exact_of _ _ h = cc

-- Bounds that describe two columns of one type unite to bounds that describe their rows together.
pub try_union-DescribesColumn :
    (a b : ColumnBounds) (c d : CommittableColumn)
    → DescribesColumn a c
    → DescribesColumn b d
    → column_type c ≡ column_type d
    → (r : ColumnBounds) × (try_union a b ≡ ok r) × DescribesColumn r (concat c d)
unfolding column_type try_union concat
try_union-DescribesColumn (small_int a) (small_int b) (CommittableColumn.small_int xs)
      (CommittableColumn.small_int ys) h k e =
    (small_int (Bounds.union a b), refl, Describes-union a b xs ys h k)
try_union-DescribesColumn (int a) (int b) (CommittableColumn.int xs) (CommittableColumn.int ys) h k
      e =
    (int (Bounds.union a b), refl, Describes-union a b xs ys h k)
try_union-DescribesColumn (big_int a) (big_int b) (CommittableColumn.big_int xs)
      (CommittableColumn.big_int ys) h k e =
    (big_int (Bounds.union a b), refl, Describes-union a b xs ys h k)
try_union-DescribesColumn (int128 a) (int128 b) (CommittableColumn.int128 xs)
      (CommittableColumn.int128 ys) h k e =
    (int128 (Bounds.union a b), refl, Describes-union a b xs ys h k)
try_union-DescribesColumn no_order no_order (CommittableColumn.boolean xs)
      (CommittableColumn.boolean ys) h k e =
    (no_order, refl, tt)
try_union-DescribesColumn no_order no_order (CommittableColumn.decimal75 p s xs)
      (CommittableColumn.decimal75 q t ys) h k e =
    (no_order, refl, tt)
try_union-DescribesColumn no_order no_order (CommittableColumn.scalar xs)
      (CommittableColumn.scalar ys) h k e =
    (no_order, refl, tt)
try_union-DescribesColumn no_order no_order (CommittableColumn.varchar xs)
      (CommittableColumn.varchar ys) h k e =
    (no_order, refl, tt)
try_union-DescribesColumn _ _ _ _ h k e = ground arith

-- The difference describes what is left where the rows of `d` are the last ones.
pub try_difference-DescribesColumn_end :
    (a b : ColumnBounds) (rest d : CommittableColumn)
    → DescribesColumn a (concat rest d)
    → DescribesColumn b d
    → column_type rest ≡ column_type d
    → (r : ColumnBounds) × (try_difference a b ≡ ok r) × DescribesColumn r rest
unfolding column_type try_difference concat
try_difference-DescribesColumn_end (small_int a) (small_int b) (CommittableColumn.small_int xs)
      (CommittableColumn.small_int ys) h k e =
    (
      small_int (Bounds.difference a b),
      refl,
      difference-Describes a b _ ys xs h k (append-IsRemoval xs ys),
    )
try_difference-DescribesColumn_end (int a) (int b) (CommittableColumn.int xs)
      (CommittableColumn.int ys) h k e =
    (
      int (Bounds.difference a b),
      refl,
      difference-Describes a b _ ys xs h k (append-IsRemoval xs ys),
    )
try_difference-DescribesColumn_end (big_int a) (big_int b) (CommittableColumn.big_int xs)
      (CommittableColumn.big_int ys) h k e =
    (
      big_int (Bounds.difference a b),
      refl,
      difference-Describes a b _ ys xs h k (append-IsRemoval xs ys),
    )
try_difference-DescribesColumn_end (int128 a) (int128 b) (CommittableColumn.int128 xs)
      (CommittableColumn.int128 ys) h k e =
    (
      int128 (Bounds.difference a b),
      refl,
      difference-Describes a b _ ys xs h k (append-IsRemoval xs ys),
    )
try_difference-DescribesColumn_end no_order no_order (CommittableColumn.boolean xs)
      (CommittableColumn.boolean ys) h k e =
    (no_order, refl, tt)
try_difference-DescribesColumn_end no_order no_order (CommittableColumn.decimal75 p s xs)
      (CommittableColumn.decimal75 q t ys) h k e =
    (no_order, refl, tt)
try_difference-DescribesColumn_end no_order no_order (CommittableColumn.scalar xs)
      (CommittableColumn.scalar ys) h k e =
    (no_order, refl, tt)
try_difference-DescribesColumn_end no_order no_order (CommittableColumn.varchar xs)
      (CommittableColumn.varchar ys) h k e =
    (no_order, refl, tt)
try_difference-DescribesColumn_end _ _ _ _ h k e = ground arith

-- The difference describes what is left where the rows of `d` are the first ones.
pub try_difference-DescribesColumn_front :
    (a b : ColumnBounds) (rest d : CommittableColumn)
    → DescribesColumn a (concat d rest)
    → DescribesColumn b d
    → column_type rest ≡ column_type d
    → (r : ColumnBounds) × (try_difference a b ≡ ok r) × DescribesColumn r rest
unfolding column_type try_difference concat
try_difference-DescribesColumn_front (small_int a) (small_int b) (CommittableColumn.small_int xs)
      (CommittableColumn.small_int ys) h k e =
    (
      small_int (Bounds.difference a b),
      refl,
      difference-Describes a b _ ys xs h k (prepend-IsRemoval xs ys),
    )
try_difference-DescribesColumn_front (int a) (int b) (CommittableColumn.int xs)
      (CommittableColumn.int ys) h k e =
    (
      int (Bounds.difference a b),
      refl,
      difference-Describes a b _ ys xs h k (prepend-IsRemoval xs ys),
    )
try_difference-DescribesColumn_front (big_int a) (big_int b) (CommittableColumn.big_int xs)
      (CommittableColumn.big_int ys) h k e =
    (
      big_int (Bounds.difference a b),
      refl,
      difference-Describes a b _ ys xs h k (prepend-IsRemoval xs ys),
    )
try_difference-DescribesColumn_front (int128 a) (int128 b) (CommittableColumn.int128 xs)
      (CommittableColumn.int128 ys) h k e =
    (
      int128 (Bounds.difference a b),
      refl,
      difference-Describes a b _ ys xs h k (prepend-IsRemoval xs ys),
    )
try_difference-DescribesColumn_front no_order no_order (CommittableColumn.boolean xs)
      (CommittableColumn.boolean ys) h k e =
    (no_order, refl, tt)
try_difference-DescribesColumn_front no_order no_order (CommittableColumn.decimal75 p s xs)
      (CommittableColumn.decimal75 q t ys) h k e =
    (no_order, refl, tt)
try_difference-DescribesColumn_front no_order no_order (CommittableColumn.scalar xs)
      (CommittableColumn.scalar ys) h k e =
    (no_order, refl, tt)
try_difference-DescribesColumn_front no_order no_order (CommittableColumn.varchar xs)
      (CommittableColumn.varchar ys) h k e =
    (no_order, refl, tt)
try_difference-DescribesColumn_front _ _ _ _ h k e = ground arith

pub try_union_comm :
    (a b : ColumnBounds) {r : ColumnBounds} → try_union a b ≡ ok r → try_union b a ≡ ok r
unfolding try_union
try_union_comm no_order no_order h = h
try_union_comm (small_int a) (small_int b) h = rw (union_comm b a) h
try_union_comm (int a) (int b) h = rw (union_comm b a) h
try_union_comm (big_int a) (big_int b) h = rw (union_comm b a) h
try_union_comm (int128 a) (int128 b) h = rw (union_comm b a) h
try_union_comm _ _ h = cc
