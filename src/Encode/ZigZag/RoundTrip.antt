-- ===== src/Encode/ZigZag/RoundTrip.antt =====
-- The zigzag encoding takes the signed words one to one to the unsigned ones, small ones first.
use Prim.Native.Nat.{suc, bit_and, bit_xor}
use native.Mathlib.Nat.{pow-succ', one-le-pow, mod-eq_of_lt, add-mod_left}
use sxt_proof_of_sql.Shared.{
  ℕ, ◌+◌, ◌-◌, ◌*◌, ◌/◌, ◌%◌, ◌^◌, ◌<◌, false, ltb, ◌≡◌, ◌∙◌, sym, ap, ap₂, arith, ◌⊎◌, inl, inr,
}
use sxt_proof_of_sql.Shared.Int.{ℤ, pos, negsuc}
use sxt_proof_of_sql.Encode.Bits.{bit_xor-zero, bit_xor_ones, bit_and-one}
use sxt_proof_of_sql.Encode.ZigZag.{
  as_unsigned, as_signed, sign_bits, negate, zigzag_encode, zigzag_decode,
}

-- The values of a signed word.
abbrev pub IsWord : ℕ → ℤ → Type 0
IsWord v (pos n) = n < 2 ^ v
IsWord v (negsuc n) = n < 2 ^ v

xor_none : (x : ℕ) → bit_xor x 0 ≡ x
xor_none x = bit_xor-zero x x (omega arith)

all_ones : (v : ℕ) → as_unsigned v (negsuc 0) ≡ 2 ^ suc v - 1
unfolding as_unsigned
all_ones v = omega (arith, mod-eq_of_lt (one-le-pow (suc v) 2 (omega arith)))

no_ones : (v : ℕ) → as_unsigned v (pos 0) ≡ 0
unfolding as_unsigned
no_ones v = mod-eq_of_lt (one-le-pow (suc v) 2 (omega arith))

fits_twice : (v n : ℕ) → n < 2 ^ v → n < 2 ^ suc v
fits_twice v n h = omega (arith, pow-succ' 2 v)

pub zigzag_encode-pos : (v n : ℕ) → n < 2 ^ v → zigzag_encode v (pos n) ≡ 2 * n
unfolding zigzag_encode sign_bits as_unsigned
zigzag_encode-pos v n h = ap₂ bit_xor shifted (no_ones v) ∙ xor_none (2 * n)
  where
    twice : n * 2 < 2 ^ suc v
    twice = omega (arith, pow-succ' 2 v)

    shifted : n % 2 ^ suc v * 2 % 2 ^ suc v ≡ 2 * n
    shifted =
        ap (λ t. t * 2 % 2 ^ suc v) (mod-eq_of_lt (fits_twice v n h))
        ∙ mod-eq_of_lt twice
        ∙ omega arith

pub zigzag_encode-negsuc : (v n : ℕ) → n < 2 ^ v → zigzag_encode v (negsuc n) ≡ 2 * n + 1
unfolding zigzag_encode sign_bits as_unsigned
zigzag_encode-negsuc v n h = ap₂ bit_xor shifted (all_ones v) ∙ complement
  where
    in_two : (2 ^ suc v - 1 - n) * 2 ≡ 2 ^ suc v + (2 ^ suc v - 2 - 2 * n)
    in_two = omega (arith, pow-succ' 2 v)

    less : 2 ^ suc v - 2 - 2 * n < 2 ^ suc v
    less = omega (arith, one-le-pow (suc v) 2 (omega arith), pow-succ' 2 v)

    shifted : (2 ^ suc v - 1 - n % 2 ^ suc v) * 2 % 2 ^ suc v ≡ 2 ^ suc v - 2 - 2 * n
    shifted =
        ap (λ t. (2 ^ suc v - 1 - t) * 2 % 2 ^ suc v) (mod-eq_of_lt (fits_twice v n h))
        ∙ ap (λ t. t % 2 ^ suc v) in_two
        ∙ add-mod_left (2 ^ suc v) (2 ^ suc v - 2 - 2 * n)
        ∙ mod-eq_of_lt less

    complement : bit_xor (2 ^ suc v - 2 - 2 * n) (2 ^ suc v - 1) ≡ 2 * n + 1
    complement = omega (arith, bit_xor_ones (suc v) (2 ^ suc v - 2 - 2 * n) less, pow-succ' 2 v)

as_signed-pos : (v n : ℕ) → n < 2 ^ v → as_signed v n ≡ pos n
unfolding as_signed
as_signed-pos v n h = ground arith

as_signed-negsuc : (v n : ℕ) → n < 2 ^ v → as_signed v (2 ^ suc v - 1 - n) ≡ negsuc n
unfolding as_signed
as_signed-negsuc v n h = rw high (ap negsuc (omega (arith, pow-succ' 2 v)))
  where
    high : ltb (2 ^ suc v - 1 - n) (2 ^ v) ≡ false
    high = ground (arith, pow-succ' 2 v)

pub zigzag_decode_even : (v n : ℕ) → n < 2 ^ v → zigzag_decode v (2 * n) ≡ pos n
unfolding zigzag_decode negate
zigzag_decode_even v n h =
    ap (as_signed v)
      (ap₂ bit_xor half (ap (λ d. as_unsigned v (negate d)) digit ∙ no_ones v) ∙ xor_none n)
    ∙ as_signed-pos v n h
  where
    half : 2 * n / 2 ≡ n
    half = omega arith

    digit : bit_and (2 * n) 1 ≡ 0
    digit = omega (arith, bit_and-one (2 * n))

pub zigzag_decode_odd : (v n : ℕ) → n < 2 ^ v → zigzag_decode v (2 * n + 1) ≡ negsuc n
unfolding zigzag_decode negate
zigzag_decode_odd v n h =
    ap (as_signed v)
      (ap₂ bit_xor half (ap (λ d. as_unsigned v (negate d)) digit ∙ all_ones v) ∙ complement)
    ∙ as_signed-negsuc v n h
  where
    half : (2 * n + 1) / 2 ≡ n
    half = omega arith

    digit : bit_and (2 * n + 1) 1 ≡ 1
    digit = omega (arith, bit_and-one (2 * n + 1))

    complement : bit_xor n (2 ^ suc v - 1) ≡ 2 ^ suc v - 1 - n
    complement = omega (arith, bit_xor_ones (suc v) n (fits_twice v n h))

-- Decoding undoes encoding on the values of a signed word of `v + 1` bits, and the code is an unsigned
-- word of as many bits.
pub zigzag_decode-zigzag_encode :
    (v : ℕ) (x : ℤ)
    → IsWord v x
    → (zigzag_decode v (zigzag_encode v x) ≡ x) × (zigzag_encode v x < 2 ^ suc v)
zigzag_decode-zigzag_encode v (pos n) h = (
  ap (zigzag_decode v) (zigzag_encode-pos v n h) ∙ zigzag_decode_even v n h,
  omega (arith, zigzag_encode-pos v n h, pow-succ' 2 v),
)
zigzag_decode-zigzag_encode v (negsuc n) h = (
  ap (zigzag_decode v) (zigzag_encode-negsuc v n h) ∙ zigzag_decode_odd v n h,
  omega (arith, zigzag_encode-negsuc v n h, pow-succ' 2 v),
)

-- Encoding undoes decoding on the unsigned words of `v + 1` bits.
pub zigzag_encode-zigzag_decode :
    (v u : ℕ) → u < 2 ^ suc v → zigzag_encode v (zigzag_decode v u) ≡ u
zigzag_encode-zigzag_decode v u h = elim (parity u) [
  | inl (n, e) ↦
      ap (λ t. zigzag_encode v (zigzag_decode v t)) e
      ∙ ap (zigzag_encode v) (zigzag_decode_even v n (omega (arith, e, pow-succ' 2 v)))
      ∙ zigzag_encode-pos v n (omega (arith, e, pow-succ' 2 v))
      ∙ sym e
  | inr (n, e) ↦
      ap (λ t. zigzag_encode v (zigzag_decode v t)) e
      ∙ ap (zigzag_encode v) (zigzag_decode_odd v n (omega (arith, e, pow-succ' 2 v)))
      ∙ zigzag_encode-negsuc v n (omega (arith, e, pow-succ' 2 v))
      ∙ sym e
]
  where
    parity_of : (m : ℕ) → (m ≡ 2 * (m / 2)) ⊎ (m ≡ 2 * (m / 2) + 1)
    parity_of m = omega arith

    parity : (m : ℕ) → ((n : ℕ) × (m ≡ 2 * n)) ⊎ ((n : ℕ) × (m ≡ 2 * n + 1))
    parity m = elim (parity_of m) [ inl e ↦ inl (m / 2, e) | inr e ↦ inr (m / 2, e) ]
