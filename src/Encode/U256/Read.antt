-- ===== src/Encode/U256/Read.antt =====
-- `read_u256_varint`: it reads the varints of at most 37 bytes, and keeps 256 bits of the value.
use Prim.Native.Nat.{zero, suc, bit_and, bit_or}
use native.Mathlib.Nat.{pow-succ', pow-le-pow_right}
use sxt_proof_of_sql.Shared.{
  ℕ, ◌+◌, ◌-◌, ◌*◌, ◌/◌, ◌%◌, ◌^◌, ◌≤◌, ◌<◌, some, true, false, ◌==◌, ltb, List, [], ◌∷◌, ◌++◌,
  length, ◌≡◌, refl, ◌∙◌, sym, ap, ap₂, subst, arith, ◌⊎◌, inl, inr,
}
use sxt_proof_of_sql.Encode.Bits.{low_bits, low_two, middle_five, bit_or-shifted, bit_or-zero_left}
use sxt_proof_of_sql.Encode.Varint.Groups.{value_of, IsVarint}
use sxt_proof_of_sql.Encode.Varint.Read.{shifted_lt, grown, value-regroup}
use sxt_proof_of_sql.Encode.U256.{U256, take_byte, read_loop, of_nat}

pow_add : (a b : ℕ) → 2 ^ (a + b) ≡ 2 ^ a * 2 ^ b
pow_add a zero = ap (λ n. 2 ^ n) (none a) ∙ one (2 ^ a)
  where
    none : (n : ℕ) → n + 0 ≡ n
    none n = omega arith

    one : (n : ℕ) → n ≡ n * 1
    one n = omega arith
pow_add a (suc b) =
    ap (λ n. 2 ^ n) (next a b)
    ∙ pow-succ' 2 (a + b)
    ∙ ap (λ n. 2 * n) (pow_add a b)
    ∙ inside (2 ^ a) (2 ^ b)
    ∙ ap (λ n. 2 ^ a * n) (sym (pow-succ' 2 b))
  where
    next : (m n : ℕ) → m + suc n ≡ suc (m + n)
    next m n = omega arith

    inside : (m n : ℕ) → 2 * (m * n) ≡ m * (2 * n)
    inside m n = omega arith

below_word : (x : ℕ) → x < 2 ^ 128 → x % 2 ^ 128 ≡ x
below_word x h = omega arith

words : ℕ → ℕ → U256
words low high = record { low = low; high = high }

module _ (b r : ℕ) (hb : b < 256) where
  -- In the low word.
  in_low :
      (s : ℕ)
      → s + 7 ≤ 126
      → r < 2 ^ s
      → take_byte (of_nat r) b s ≡ of_nat ((r + b % 128 * 2 ^ s) % 2 ^ 256)
  unfolding take_byte words
  in_low s hs hr =
      rw (before, low_bits b hb)
        (ap₂ words
          (ap₂ bit_or (below_word r (omega (arith, small, grows)))
              (below_word (b % 128 * 2 ^ s) (omega (arith, small, grows)))
            ∙ bit_or-shifted s r (b % 128) hr
            ∙ omega (arith, small, grows))
          (omega (arith, small, grows)))
    where
      small : 2 ^ (s + 7) ≤ 2 ^ 126
      small = pow-le-pow_right {n = 2} (omega arith) hs

      before : ltb s 126 ≡ true
      before = ground arith

      grows : r + b % 128 * 2 ^ s < 2 ^ (s + 7)
      grows = grown b r s hr

  -- Over the border of the words.
  at_border : r < 2 ^ 126 → take_byte (of_nat r) b 126 ≡ of_nat ((r + b % 128 * 2 ^ 126) % 2 ^ 256)
  unfolding take_byte words
  at_border hr =
      ap₂ words
        (ap₂ bit_or (below_word r (omega arith)) (low_digits b)
          ∙ bit_or-shifted 126 r (b % 4) hr
          ∙ omega arith)
        (ap₂ bit_or no_high (middle_five b hb) ∙ bit_or-zero_left (b % 128 / 4) ∙ omega arith)
    where
      no_high : r / 2 ^ 128 ≡ 0
      no_high = omega arith

      low_digits : (c : ℕ) → bit_and b 3 * 2 ^ 126 % 2 ^ 128 ≡ b % 4 * 2 ^ 126
      low_digits c = omega (arith, low_two b hb)

  -- In the high word.
  in_high :
      (t : ℕ)
      → t + 7 ≤ 128
      → r < 2 ^ (128 + t)
      → take_byte (of_nat r) b (128 + t) ≡ of_nat ((r + b % 128 * 2 ^ (128 + t)) % 2 ^ 256)
  unfolding take_byte words
  in_high t ht hr =
      rw (not_before, not_at, back, low_bits b hb)
        (ap₂ words (omega (arith, shifted, small, grows)) (
          ap (bit_or (r / 2 ^ 128)) (below_word (b % 128 * 2 ^ t) (omega (arith, group, room)))
          ∙ bit_or-shifted t (r / 2 ^ 128) (b % 128) (omega (arith, pow_add 128 t))
          ∙ omega (arith, shifted, small, grows)))
    where
      not_before : ltb (128 + t) 126 ≡ false
      not_before = ground arith

      not_at : (128 + t == 126) ≡ false
      not_at = ground arith

      back : 128 + t - 128 ≡ t
      back = omega arith

      group : b % 128 * 2 ^ t < 2 ^ (t + 7)
      group = shifted_lt t 7 (b % 128) (omega arith)

      room : 2 ^ (t + 7) ≤ 2 ^ 128
      room = pow-le-pow_right {n = 2} (omega arith) ht

      grows : r + b % 128 * 2 ^ (128 + t) < 2 ^ (128 + t + 7)
      grows = grown b r (128 + t) hr

      small : 2 ^ (128 + t + 7) ≤ 2 ^ 256
      small = pow-le-pow_right {n = 2} (omega arith) {j = 256} (omega arith)

      out : (x y : ℕ) → x * (2 ^ 128 * y) ≡ x * y * 2 ^ 128
      out x y = omega arith

      shifted : b % 128 * 2 ^ (128 + t) ≡ b % 128 * 2 ^ t * 2 ^ 128
      shifted = ap (λ n. b % 128 * n) (pow_add 128 t) ∙ out (b % 128) (2 ^ t)

  -- At the end of the high word three digits are dropped.
  at_end : r < 2 ^ 252 → take_byte (of_nat r) b 252 ≡ of_nat ((r + b % 128 * 2 ^ 252) % 2 ^ 256)
  unfolding take_byte words
  at_end hr = ap₂ words (omega arith) (
      ap (bit_or (r / 2 ^ 128)) cut
      ∙ bit_or-shifted 124 (r / 2 ^ 128) (b % 16) (omega arith)
      ∙ omega arith)
    where
      cut : bit_and b 0x7f * 2 ^ 124 % 2 ^ 128 ≡ b % 16 * 2 ^ 124
      cut = omega (arith, low_bits b hb)

places :
    (s j : ℕ)
    → s ≡ 7 * j
    → j ≤ 36
    → (s + 7 ≤ 126) ⊎ (s ≡ 126) ⊎ ((t : ℕ) × (t + 7 ≤ 128) × (s ≡ 128 + t)) ⊎ (s ≡ 252)
places s j h k = elim (apart_cases s j h k) [
  | inl a ↦ inl a
  | inr (inl a) ↦ inr (inl a)
  | inr (inr (inl (a, b))) ↦ inr (inr (inl (s - 128, omega arith, omega arith)))
  | inr (inr (inr a)) ↦ inr (inr (inr a))
]
  where
    apart_cases :
        (m n : ℕ)
        → m ≡ 7 * n
        → n ≤ 36
        → (m + 7 ≤ 126) ⊎ (m ≡ 126) ⊎ ((m + 7 ≤ 256) × (128 ≤ m)) ⊎ (m ≡ 252)
    apart_cases m n p q = omega arith

-- The words of a number with one more group of seven bits from the digit `s` on.
pub take_byte-of_nat :
    (b r s j : ℕ)
    → b < 256
    → s ≡ 7 * j
    → j ≤ 36
    → r < 2 ^ s
    → take_byte (of_nat r) b s ≡ of_nat ((r + b % 128 * 2 ^ s) % 2 ^ 256)
take_byte-of_nat b r s j hb hs hj hr = elim (places s j hs hj) [
  | inl low ↦ in_low b r hb s low hr
  | inr (inl border) ↦ subst (λ n. r < 2 ^ n → At n) (sym border) (at_border b r hb) hr
  | inr (inr (inl (t, ht, high))) ↦
      subst (λ n. r < 2 ^ n → At n) (sym high) (in_high b r hb t ht) hr
  | inr (inr (inr end)) ↦ subst (λ n. r < 2 ^ n → At n) (sym end) (at_end b r hb) hr
]
  where
    At : ℕ → Type 0
    At n = take_byte (of_nat r) b n ≡ of_nat ((r + b % 128 * 2 ^ n) % 2 ^ 256)

last_byte :
    (b : ℕ) (rest : List ℕ) (r s j : ℕ)
    → b < 128
    → s ≡ 7 * j
    → j ≤ 36
    → r < 2 ^ s
    → read_loop (b ∷ rest) (of_nat r) s ≡ some (of_nat ((r + b % 128 * 2 ^ s) % 2 ^ 256), j + 1)
unfolding read_loop
last_byte b rest r s j hb hs hj hr =
    rw (ends, take_byte-of_nat b r s j (omega arith) hs hj hr, counted)
  where
    ends : (b / 2 ^ 7 == 0) ≡ true
    ends = ground arith

    counted : (s + 7) / 7 ≡ j + 1
    counted = omega arith

inner_byte :
    (b : ℕ) (rest : List ℕ) (r s j : ℕ)
    → 128 ≤ b
    → b < 256
    → s ≡ 7 * j
    → j ≤ 35
    → r < 2 ^ s
    → read_loop (b ∷ rest) (of_nat r) s ≡ read_loop rest (of_nat (r + b % 128 * 2 ^ s)) (s + 7)
unfolding read_loop
inner_byte b rest r s j low high hs hj hr =
    rw (goes_on, take_byte-of_nat b r s j high hs (omega arith) hr, room, kept) refl
  where
    goes_on : (b / 2 ^ 7 == 0) ≡ false
    goes_on = ground arith

    room : ltb 256 (s + 7) ≡ false
    room = ground arith

    kept : (r + b % 128 * 2 ^ s) % 2 ^ 256 ≡ r + b % 128 * 2 ^ s
    kept = omega (arith, grown b r s hr, small)
      where
        small : 2 ^ (s + 7) ≤ 2 ^ 256
        small = pow-le-pow_right {n = 2} (omega arith) {j = 256} (omega arith)

-- A varint of at most 37 bytes is read, whatever comes after it; 256 bits of its value are kept.
pub read_loop-IsVarint :
    (bytes rest : List ℕ) (r s j : ℕ)
    → IsVarint bytes
    → s ≡ 7 * j
    → j + length bytes ≤ 37
    → r < 2 ^ s
    → read_loop (bytes ++ rest) (of_nat r) s
      ≡ some (of_nat ((r + value_of bytes * 2 ^ s) % 2 ^ 256), j + length bytes)
read_loop-IsVarint [] rest r s j v hs short hr = absurd v
read_loop-IsVarint (b ∷ []) rest r s j v hs short hr =
    last_byte b rest r s j v hs (omega arith) hr
    ∙ ap (λ t. some (of_nat ((r + t * 2 ^ s) % 2 ^ 256), j + 1)) same
  where
    same : b % 128 ≡ b % 128 + 0
    same = omega arith
read_loop-IsVarint (b ∷ c ∷ bytes) rest r s j (low, high, v) hs short hr =
    inner_byte b (c ∷ (bytes ++ rest)) r s j low high hs (omega arith) hr
    ∙ read_loop-IsVarint (c ∷ bytes) rest (r + b % 128 * 2 ^ s) (s + 7) (j + 1) v (omega arith)
        (omega arith) (grown b r s hr)
    ∙ ap₂ (λ t n. some (of_nat (t % 2 ^ 256), n))
        (value-regroup r (b % 128) (value_of (c ∷ bytes)) s) (omega arith)
