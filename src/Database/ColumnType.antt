-- ===== src/Database/ColumnType.antt =====
-- crates/proof-of-sql/src/base/database/column.rs: `ColumnType`, `ColumnField`, `ColumnRef`.
use sxt_proof_of_sql.Shared.{
  ℕ, Bool, true, false, ◌&&◌, ◌==◌, Option, none, some, Eq, ◌≡◌, ◌↔◌, arith, refl,
}
use sxt_proof_of_sql.Shared.Int.{ℤ, pos, int_beq, int_beq_iff}
use sxt_proof_of_sql.Database.Names.{Identifier, TableRef}
use sxt_proof_of_sql.Database.Decimal.{Precision}

pub data ColumnType : Type 0 where
  boolean small_int int big_int int128 varchar scalar : ColumnType
  decimal75 : Precision → ℤ → ColumnType

-- The derived `PartialEq`.
unfoldable pub column_type_beq : ColumnType → ColumnType → Bool
column_type_beq boolean boolean = true
column_type_beq small_int small_int = true
column_type_beq int int = true
column_type_beq big_int big_int = true
column_type_beq int128 int128 = true
column_type_beq varchar varchar = true
column_type_beq scalar scalar = true
column_type_beq (decimal75 p s) (decimal75 q t) = p.value == q.value && int_beq s t
column_type_beq _ _ = false

column_type_beq_sound : (a b : ColumnType) → column_type_beq a b ≡ true → a ≡ b
unfolding column_type_beq
column_type_beq_sound (decimal75 p s) (decimal75 q t) h = ground (arith, int_beq_iff s t)
column_type_beq_sound a b h = ground arith

column_type_beq_refl : (a : ColumnType) → column_type_beq a a ≡ true
unfolding column_type_beq
column_type_beq_refl (decimal75 p s) = ground (arith, int_beq_iff s s)
column_type_beq_refl a = refl

pub column_type_beq_iff : (a b : ColumnType) → (column_type_beq a b ≡ true) ↔ (a ≡ b)
column_type_beq_iff a b = (column_type_beq_sound a b, λ e. rw e (column_type_beq_refl b))

instance abbrev pub column_type_eq : Eq ColumnType
column_type_eq = record { beq = column_type_beq; beq_iff = column_type_beq_iff }

unfoldable pub is_numeric : ColumnType → Bool
is_numeric small_int = true
is_numeric int = true
is_numeric big_int = true
is_numeric int128 = true
is_numeric scalar = true
is_numeric (decimal75 p s) = true
is_numeric _ = false

unfoldable pub is_integer : ColumnType → Bool
is_integer small_int = true
is_integer int = true
is_integer big_int = true
is_integer int128 = true
is_integer _ = false

unfoldable pub precision_value : ColumnType → Option ℕ
precision_value small_int = some 5
precision_value int = some 10
precision_value big_int = some 19
precision_value int128 = some 39
precision_value (decimal75 p s) = some p.value
precision_value scalar = some 0
precision_value _ = none

unfoldable pub scale : ColumnType → Option ℤ
scale (decimal75 p s) = some s
scale big_int = some (pos 0)
scale int128 = some (pos 0)
scale scalar = some (pos 0)
scale _ = none

pub record ColumnRef : Type 0 where
  pub column_id : Identifier
  pub table_ref : TableRef
  pub column_type : ColumnType

pub record ColumnField : Type 0 where
  pub name : Identifier
  pub data_type : ColumnType
