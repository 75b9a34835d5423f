-- ===== src/Encode/U256/Write.antt =====
-- `write_u256_varint` and `u256_varint_size`: the format, on the number that the words stand for.
use Prim.Native.Nat.{zero, suc, max, bit_and, bit_or}
use sxt_proof_of_sql.Shared.{
  ℕ, ◌+◌, ◌-◌, ◌*◌, ◌/◌, ◌%◌, ◌^◌, ◌≤◌, ◌<◌, ok, true, false, not, ◌||◌, ◌==◌, leb, List, [], ◌∷◌,
  ◌++◌, length, ◌≡◌, refl, sym, ◌∙◌, ap, subst, arith, if◌then◌else◌,
}
use sxt_proof_of_sql.Encode.Bits.{set_top_right, bit_or-shifted, bit_and_seven_ones}
use sxt_proof_of_sql.Encode.BitLength.{
  bit_length, bit_length-le, bit_length_wider, bit_length_shifted, leading_zeros,
}
use sxt_proof_of_sql.Encode.Varint.Groups.{Takes, groups, bit_length-Takes}
use sxt_proof_of_sql.Encode.Varint.Write.{one_more}
use sxt_proof_of_sql.Encode.U256.{
  U256, shift_right, write_u256_varint, u256_varint_size, to_nat, IsWords,
}

moved_in : (h : ℕ) → bit_and h 0x7f * 2 ^ 121 % 2 ^ 128 ≡ h % 128 * 2 ^ 121
moved_in h = omega (arith, bit_and_seven_ones h)

shift_right-low :
    (x : U256) → IsWords x → (shift_right x).low ≡ x.low / 128 + x.high % 128 * 2 ^ 121
unfolding shift_right
shift_right-low x w =
    ap (bit_or (x.low / 128)) (moved_in x.high)
    ∙ bit_or-shifted 121 (x.low / 128) (x.high % 128) (omega (arith, w.0))

shift_right-high : (x : U256) → (shift_right x).high ≡ x.high / 128
unfolding shift_right
shift_right-high x = refl

-- A shift of the words is a division of the number.
pub to_nat-shift_right : (x : U256) → IsWords x → to_nat (shift_right x) ≡ to_nat x / 128
to_nat-shift_right x w = omega (arith, shift_right-low x w, shift_right-high x)

pub shift_right-IsWords : (x : U256) → IsWords x → IsWords (shift_right x)
shift_right-IsWords x w =
    (omega (arith, shift_right-low x w, w.0, w.1), omega (arith, shift_right-high x, w.1))

goes_on : (low high : ℕ) → 128 ≤ low + high * 2 ^ 128 → (not (high == 0) || leb 0x80 low) ≡ true
goes_on low high h = ground arith

top_of_low : (low high : ℕ) → bit_or (low % 256) 0x80 ≡ 128 + (low + high * 2 ^ 128) % 128
top_of_low low high = omega (arith, set_top_right (low % 256) (omega arith))

pub write_u256_varint-groups :
    (k : ℕ) (x : U256) (old rest : List ℕ)
    → IsWords x
    → Takes k (to_nat x)
    → length old ≡ suc k
    → write_u256_varint (old ++ rest) x ≡ ok (groups k (to_nat x) ++ rest, suc k)
unfolding write_u256_varint groups
write_u256_varint-groups k x [] rest w h e = absurd (omega arith)
write_u256_varint-groups zero x (b ∷ []) rest w h e = ground (arith, bit_and_seven_ones x.low)
write_u256_varint-groups zero x (b ∷ c ∷ old) rest w h e = absurd (omega arith)
write_u256_varint-groups (suc k) x (b ∷ old) rest w h e = rw (
  goes_on x.low x.high h.0,
  subst (λ n. write_u256_varint (old ++ rest) (shift_right x) ≡ ok (groups k n ++ rest, suc k))
      (to_nat-shift_right x w)
      (write_u256_varint-groups k (shift_right x) old rest (shift_right-IsWords x w)
        (subst (Takes k) (sym (to_nat-shift_right x w)) h.1) (omega arith)),
  top_of_low x.low x.high,
  one_more (suc k),
)

size_digits :
    (low high : ℕ)
    → low < 2 ^ 128
    → (if high == 0 then 128 - leading_zeros 128 low else 256 - leading_zeros 128 high)
      ≡ bit_length 256 (low + high * 2 ^ 128)
unfolding leading_zeros
size_digits low zero h = omega (
  arith,
  bit_length-le 128 low,
  ap (bit_length 256) (no_high low),
  bit_length_wider 128 128 low h,
)
  where
    no_high : (l : ℕ) → l + 0 * 2 ^ 128 ≡ l
    no_high l = omega arith
size_digits low (suc high) h = rw (not_zero high) (
    omega (
      arith,
      bit_length-le 128 (suc high),
      bit_length_shifted 128 128 low (suc high) h (omega arith),
    ))
  where
    not_zero : (n : ℕ) → (suc n == 0) ≡ false
    not_zero n = ground arith

-- The size is the number of bytes that the number takes.
pub u256_varint_size-Takes :
    (x : U256) → IsWords x → (k : ℕ) × Takes k (to_nat x) × (u256_varint_size x ≡ suc k)
unfolding u256_varint_size
u256_varint_size-Takes x w =
    let (k, takes, size) =
      bit_length-Takes 256 256 (to_nat x) (omega arith) (omega (arith, w.0, w.1)) in
    (k, takes, ap (λ d. max 1 ((d + 6) / 7)) (size_digits x.low x.high w.0) ∙ size)
