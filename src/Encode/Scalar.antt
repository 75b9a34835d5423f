-- ===== src/Encode/Scalar.antt =====
-- crates/proof-of-sql/src/base/encode/zigzag.rs, the conversions of u256.rs, and the scalars of
-- scalar_varint.rs. The field is that of the `ark_ff` crate, a parameter.
pub mod ZigZag
pub mod RoundTrip
use Prim.Native.Nat.{bit_and, bit_or}
use mathlib.Core.Option
use sxt_proof_of_sql.Shared.{
  ℕ, ◌+◌, ◌-◌, ◌*◌, ◌/◌, ◌%◌, ◌^◌, ◌≤◌, ◌<◌, Result, Option, Bool, ◌&&◌, ◌||◌, ◌==◌, ltb, List, ◌≡◌,
  if◌then◌else◌,
}
use sxt_proof_of_sql.Encode.U256.{U256, u256_varint_size, write_u256_varint, read_u256_varint}

-- The field modulo `modulus`. `limbs` are the four words of 64 bits of the least representative,
-- lowest first; `of_number` reduces the number of 32 bytes.
pub record MontScalar : Type 1 where
  pub Scalar : Type 0
  pub modulus : ℕ
  pub representative : Scalar → ℕ
  pub limbs : Scalar → ℕ × ℕ × ℕ × ℕ
  pub of_number : ℕ → Scalar
  pub neg : Scalar → Scalar
  pub modulus_le : modulus ≤ 2 ^ 255
  pub representative_lt : (x : Scalar) → representative x < modulus
  pub representative_injective : (x y : Scalar) → representative x ≡ representative y → x ≡ y
  pub limbs_lt :
      (x : Scalar)
      → ((limbs x).0 < 2 ^ 64)
        × ((limbs x).1 < 2 ^ 64)
        × ((limbs x).2 < 2 ^ 64)
        × ((limbs x).3 < 2 ^ 64)
  pub limbs_value :
      (x : Scalar)
      → (limbs x).0 + (limbs x).1 * 2 ^ 64 + (limbs x).2 * 2 ^ 128 + (limbs x).3 * 2 ^ 192
        ≡ representative x
  pub representative_of_number : (n : ℕ) → n < modulus → representative (of_number n) ≡ n
  pub representative_neg :
      (x : Scalar)
      → representative (neg x) ≡ (if representative x == 0 then 0 else modulus - representative x)

-- `y.high << 1 | y.low >> 127` and `y.low << 1`
unfoldable pub double : U256 → U256
double y = record {
  low = y.low * 2 % 2 ^ 128;
  high = bit_or (y.high * 2 % 2 ^ 128) (y.low / 2 ^ 127);
}

-- `overflowing_sub(1)` on the low word, and the carry from the high one, which wraps.
unfoldable pub minus_one : U256 → U256
minus_one y =
    if y.low == 0
    then record { low = 2 ^ 128 - 1; high = if y.high == 0 then 2 ^ 128 - 1 else y.high - 1 }
    else record { low = y.low - 1; high = y.high }

-- `overflowing_add(1)` on the low word, and the carry to the high one.
unfoldable pub plus_one : U256 → U256
plus_one y =
    if y.low + 1 == 2 ^ 128
    then record { low = 0; high = (y.high + 1) % 2 ^ 128 }
    else record { low = y.low + 1; high = y.high }

unfoldable pub half : U256 → U256
half y = record {
  low = bit_or (y.low / 2) (bit_and y.high 1 * 2 ^ 127 % 2 ^ 128);
  high = y.high / 2;
}

unfoldable pub greater : U256 → U256 → Bool
greater x y = ltb y.high x.high || (x.high == y.high && ltb y.low x.low)

module _ (t : MontScalar) where
  open t use {Scalar, limbs, of_number, neg}

  unfoldable pub to_u256 : Scalar → U256
  to_u256 val = record {
    low = bit_or (limbs val).0 ((limbs val).1 * 2 ^ 64);
    high = bit_or (limbs val).2 ((limbs val).3 * 2 ^ 64);
  }

  unfoldable pub of_u256 : U256 → Scalar
  of_u256 val = of_number (val.low + val.high * 2 ^ 128)

  unfoldable pub zigzag : Scalar → U256
  zigzag self =
      let x = to_u256 self in
      let y = to_u256 (neg self) in if greater x y then minus_one (double y) else double x

  unfoldable pub unzigzag : U256 → Scalar
  unzigzag self =
      let zig_val = half self in
      if bit_and self.low 1 == 1 then neg (of_u256 (plus_one zig_val)) else of_u256 zig_val

  unfoldable pub scalar_varint_size : Scalar → ℕ
  scalar_varint_size x = u256_varint_size (zigzag x)

  unfoldable pub write_scalar_varint : List ℕ → Scalar → Result ⊥ (List ℕ × ℕ)
  write_scalar_varint buf x = write_u256_varint buf (zigzag x)

  unfoldable pub read_scalar_varint : List ℕ → Option (Scalar × ℕ)
  read_scalar_varint buf = Option.map (λ r. (unzigzag r.0, r.1)) (read_u256_varint buf)
