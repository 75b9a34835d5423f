-- ===== src/Commitment/CommittableColumn.antt =====
-- crates/proof-of-sql/src/base/commitment/committable_column.rs: column data in the form that
-- commitments are computed from. A machine integer is the integer it stands for.
use sxt_proof_of_sql.Shared.{ℕ, Bool, List, ◌++◌, length, ◌≡◌, refl, length-append, ◌+◌, ◌==◌}
use sxt_proof_of_sql.Shared.Int.{ℤ}
use sxt_proof_of_sql.Database.Decimal.{Precision}
use sxt_proof_of_sql.Database.ColumnType.{ColumnType}

-- `[u64; 4]`
abbrev pub Limbs : Type 0
Limbs = ℕ × ℕ × ℕ × ℕ

pub data CommittableColumn : Type 0 where
  boolean : List Bool → CommittableColumn
  small_int int big_int int128 : List ℤ → CommittableColumn
  decimal75 : Precision → ℤ → List Limbs → CommittableColumn
  scalar varchar : List Limbs → CommittableColumn

unfoldable pub len : CommittableColumn → ℕ
len (boolean col) = length col
len (small_int col) = length col
len (int col) = length col
len (big_int col) = length col
len (int128 col) = length col
len (decimal75 p s col) = length col
len (scalar col) = length col
len (varchar col) = length col

unfoldable pub is_empty : CommittableColumn → Bool
unfolding len
is_empty c = len c == 0

unfoldable pub column_type : CommittableColumn → ColumnType
column_type (boolean col) = ColumnType.boolean
column_type (small_int col) = ColumnType.small_int
column_type (int col) = ColumnType.int
column_type (big_int col) = ColumnType.big_int
column_type (int128 col) = ColumnType.int128
column_type (decimal75 p s col) = ColumnType.decimal75 p s
column_type (scalar col) = ColumnType.scalar
column_type (varchar col) = ColumnType.varchar

-- The rows of `c` followed by those of `d`, for columns of one type. (Else just `c`.)
unfoldable pub concat : CommittableColumn → CommittableColumn → CommittableColumn
concat (boolean xs) (boolean ys) = boolean (xs ++ ys)
concat (small_int xs) (small_int ys) = small_int (xs ++ ys)
concat (int xs) (int ys) = int (xs ++ ys)
concat (big_int xs) (big_int ys) = big_int (xs ++ ys)
concat (int128 xs) (int128 ys) = int128 (xs ++ ys)
concat (decimal75 p s xs) (decimal75 q t ys) = decimal75 p s (xs ++ ys)
concat (scalar xs) (scalar ys) = scalar (xs ++ ys)
concat (varchar xs) (varchar ys) = varchar (xs ++ ys)
concat c d = c

pub column_type-concat : (c d : CommittableColumn) → column_type (concat c d) ≡ column_type c
unfolding column_type concat
column_type-concat (boolean xs) (boolean ys) = refl
column_type-concat (small_int xs) (small_int ys) = refl
column_type-concat (int xs) (int ys) = refl
column_type-concat (big_int xs) (big_int ys) = refl
column_type-concat (int128 xs) (int128 ys) = refl
column_type-concat (decimal75 p s xs) (decimal75 q t ys) = refl
column_type-concat (scalar xs) (scalar ys) = refl
column_type-concat (varchar xs) (varchar ys) = refl
column_type-concat _ _ = refl

pub len-concat :
    (c d : CommittableColumn) → column_type c ≡ column_type d → len (concat c d) ≡ len c + len d
unfolding column_type concat len
len-concat (boolean xs) (boolean ys) h = length-append xs ys
len-concat (small_int xs) (small_int ys) h = length-append xs ys
len-concat (int xs) (int ys) h = length-append xs ys
len-concat (big_int xs) (big_int ys) h = length-append xs ys
len-concat (int128 xs) (int128 ys) h = length-append xs ys
len-concat (decimal75 p s xs) (decimal75 q t ys) h = length-append xs ys
len-concat (scalar xs) (scalar ys) h = length-append xs ys
len-concat (varchar xs) (varchar ys) h = length-append xs ys
len-concat _ _ h = cc
