-- ===== src/Encode/Sized.antt =====
-- crates/proof-of-sql/src/base/encode/varint_trait.rs, `VarInt` for the other types: all go through
-- `u64` or `U256`. `max` and `min` are the `MAX` and `MIN` of the type.
pub mod RoundTrip
use mathlib.Core.Option
use sxt_proof_of_sql.Shared.{
  ℕ, Result, Option, none, some, Bool, true, false, ◌||◌, ltb, ◌==◌, List, if◌then◌else◌,
}
use sxt_proof_of_sql.Shared.Int.{ℤ, pos, ltb_ℤ}
use sxt_proof_of_sql.Encode.Varint.{required_space, encode_var, decode_var}
use sxt_proof_of_sql.Encode.ZigZag.{zigzag_encode, zigzag_decode}
use sxt_proof_of_sql.Encode.U256.{U256, u256_varint_size, write_u256_varint, read_u256_varint}

-- `usize`, `u32`, `u16`, `u8`; sizes and writing are those of `u64`.
abbrev pub check_unsigned : ℕ → Option (ℕ × ℕ) → Option (ℕ × ℕ)
check_unsigned max none = none
check_unsigned max (some (n, s)) = if ltb max n then none else some (n, s)

unfoldable pub decode_var_unsigned : ℕ → List ℕ → Option (ℕ × ℕ)
decode_var_unsigned max src = check_unsigned max (decode_var src)

unfoldable pub from_bool : Bool → ℕ
from_bool b = if b then 1 else 0

unfoldable pub required_space_bool : Bool → ℕ
required_space_bool b = required_space (from_bool b)

unfoldable pub encode_var_bool : Bool → List ℕ → Result ⊥ (List ℕ × ℕ)
encode_var_bool b dst = encode_var (from_bool b) dst

abbrev pub check_bool : Option (ℕ × ℕ) → Option (Bool × ℕ)
check_bool none = none
check_bool (some (n, s)) =
    if n == 0 then some (false, s) else if n == 1 then some (true, s) else none

unfoldable pub decode_var_bool : List ℕ → Option (Bool × ℕ)
decode_var_bool src = check_bool (decode_var src)

unfoldable pub required_space_i64 : ℤ → ℕ
required_space_i64 n = required_space (zigzag_encode 63 n)

unfoldable pub encode_var_i64 : ℤ → List ℕ → Result ⊥ (List ℕ × ℕ)
encode_var_i64 n dst = encode_var (zigzag_encode 63 n) dst

unfoldable pub decode_var_i64 : List ℕ → Option (ℤ × ℕ)
decode_var_i64 src = Option.map (λ r. (zigzag_decode 63 r.0, r.1)) (decode_var src)

-- `isize`, `i32`, `i16`, `i8`; sizes and writing are those of `i64`.
abbrev pub check_signed : ℤ → ℤ → Option (ℤ × ℕ) → Option (ℤ × ℕ)
check_signed min max none = none
check_signed min max (some (n, s)) = if ltb_ℤ max n || ltb_ℤ n min then none else some (n, s)

unfoldable pub decode_var_signed : ℤ → ℤ → List ℕ → Option (ℤ × ℕ)
decode_var_signed min max src = check_signed min max (decode_var_i64 src)

unfoldable pub low_word : ℕ → U256
low_word n = record { low = n; high = 0 }

unfoldable pub required_space_u128 : ℕ → ℕ
required_space_u128 n = u256_varint_size (low_word n)

unfoldable pub encode_var_u128 : ℕ → List ℕ → Result ⊥ (List ℕ × ℕ)
encode_var_u128 n dst = write_u256_varint dst (low_word n)

abbrev pub check_u128 : Option (U256 × ℕ) → Option (ℕ × ℕ)
check_u128 none = none
check_u128 (some (x, s)) = if x.high == 0 then some (x.low, s) else none

unfoldable pub decode_var_u128 : List ℕ → Option (ℕ × ℕ)
decode_var_u128 src = check_u128 (read_u256_varint src)

unfoldable pub required_space_i128 : ℤ → ℕ
required_space_i128 n = required_space_u128 (zigzag_encode 127 n)

unfoldable pub encode_var_i128 : ℤ → List ℕ → Result ⊥ (List ℕ × ℕ)
encode_var_i128 n dst = encode_var_u128 (zigzag_encode 127 n) dst

unfoldable pub decode_var_i128 : List ℕ → Option (ℤ × ℕ)
decode_var_i128 src = Option.map (λ r. (zigzag_decode 127 r.0, r.1)) (decode_var_u128 src)
