-- ===== src/Encode/U256.antt =====
-- crates/proof-of-sql/src/base/encode/u256.rs and scalar_varint.rs: numbers of 256 bits in two words,
-- and their varints. A shift to the left drops the digits from 2 ^ 128 on.
pub mod Write
pub mod Read
pub mod RoundTrip
use Prim.Native.Nat.{max, bit_and, bit_or}
use sxt_proof_of_sql.Shared.{
  ℕ, ◌+◌, ◌-◌, ◌*◌, ◌/◌, ◌%◌, ◌^◌, ◌<◌, Result, ok, err, panic, ◌>>=◌, Option, none, some, Bool,
  true, false, not, ◌||◌, ◌==◌, ltb, leb, List, [], ◌∷◌, if◌then◌else◌,
}
use sxt_proof_of_sql.Encode.BitLength.{leading_zeros}

pub record U256 : Type 0 where
  pub low : ℕ
  pub high : ℕ

-- The shift to the right by seven in `write_u256_varint`.
unfoldable pub shift_right : U256 → U256
shift_right zig_x = record {
  low = bit_or (zig_x.low / 2 ^ 7) (bit_and zig_x.high 0x7f * 2 ^ 121 % 2 ^ 128);
  high = zig_x.high / 2 ^ 7;
}

-- An index past the end of the buffer panics.
unfoldable pub write_u256_varint : List ℕ → U256 → Result ⊥ (List ℕ × ℕ)
unfolding shift_right
write_u256_varint [] zig_x = panic
write_u256_varint (b ∷ buf) zig_x =
    let rest = write_u256_varint buf (shift_right zig_x) in
    if not (zig_x.high == 0) || leb 0x80 zig_x.low
    then (do (written, pos) ← rest; ok (bit_or (zig_x.low % 256) 0x80 ∷ written, pos + 1))
    else ok (bit_and zig_x.low 0x7f % 256 ∷ buf, 1)

unfoldable pub u256_varint_size : U256 → ℕ
u256_varint_size zig_x =
    let zigzag_size =
      if zig_x.high == 0
      then 128 - leading_zeros 128 zig_x.low
      else 256 - leading_zeros 128 zig_x.high in
    max 1 ((zigzag_size + 6) / 7)

-- The match on the shift amount in `read_u256_varint`.
unfoldable pub take_byte : U256 → ℕ → ℕ → U256
take_byte val next_byte shift_amount =
    if ltb shift_amount 126
    then record {
      low = bit_or val.low (bit_and next_byte 0x7f * 2 ^ shift_amount % 2 ^ 128);
      high = val.high;
    }
    else if shift_amount == 126
    then record {
      low = bit_or val.low (bit_and next_byte 0x03 * 2 ^ shift_amount % 2 ^ 128);
      high = bit_or val.high (bit_and next_byte 0x7c / 2 ^ 2);
    }
    else record {
      low = val.low;
      high = bit_or val.high (bit_and next_byte 0x7f * 2 ^ (shift_amount - 128) % 2 ^ 128);
    }

unfoldable pub read_loop : List ℕ → U256 → ℕ → Option (U256 × ℕ)
unfolding take_byte
read_loop [] val shift_amount = none
read_loop (next_byte ∷ buf) val shift_amount =
    let val' = take_byte val next_byte shift_amount in
    let shift_amount' = shift_amount + 7 in
    let rest = read_loop buf val' shift_amount' in
    if next_byte / 2 ^ 7 == 0
    then some (val', shift_amount' / 7)
    else if ltb 256 shift_amount'
    then none
    else rest

unfoldable pub read_u256_varint : List ℕ → Option (U256 × ℕ)
unfolding read_loop
read_u256_varint buf = read_loop buf (record { low = 0; high = 0 }) 0

-- The number that the two words stand for.
abbrev pub to_nat : U256 → ℕ
to_nat x = x.low + x.high * 2 ^ 128

abbrev pub of_nat : ℕ → U256
of_nat n = record { low = n % 2 ^ 128; high = n / 2 ^ 128 }

-- The words have 128 bits.
abbrev pub IsWords : U256 → Type 0
IsWords x = (x.low < 2 ^ 128) × (x.high < 2 ^ 128)
