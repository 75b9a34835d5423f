-- ===== src/Encode/BitLength.antt =====
-- `leading_zeros` of the standard library, by the number of binary digits.
use Prim.Native.Nat.{zero, suc}
use native.Mathlib.Nat.{pow-succ', one-le-pow, mul-le-mul}
use sxt_proof_of_sql.Shared.{
  ℕ, ◌+◌, ◌-◌, ◌*◌, ◌/◌, ◌^◌, ◌≤◌, ◌<◌, ◌==◌, if◌then◌else◌, ◌≡◌, refl, sym, ◌∙◌, ap, ap₂, subst,
  arith, ◌⊎◌, inl, inr,
}

-- The number of binary digits of `n`, for `n < 2 ^ w`.
unfoldable pub bit_length : ℕ → ℕ → ℕ
bit_length zero n = 0
bit_length (suc w) n = let rest = bit_length w (n / 2) in if n == 0 then 0 else suc rest

-- The number of leading zeros of a word of `w` bits.
unfoldable pub leading_zeros : ℕ → ℕ → ℕ
leading_zeros w n = w - bit_length w n

pub bit_length-le : (w n : ℕ) → bit_length w n ≤ w
unfolding bit_length
bit_length-le zero n = omega arith
bit_length-le (suc w) n = ground (arith, bit_length-le w (n / 2))

pub bit_length-zero : (w : ℕ) → bit_length w 0 ≡ 0
unfolding bit_length
bit_length-zero zero = refl
bit_length-zero (suc w) = refl

bit_length_half : (v w n : ℕ) → v ≡ w + 1 → 0 < n → bit_length v n ≡ suc (bit_length w (n / 2))
unfolding bit_length
bit_length_half v w n e h =
    subst (λ u. bit_length u n ≡ suc (bit_length w (n / 2))) (sym (as_suc v w e)) (step w n h)
  where
    as_suc : (a b : ℕ) → a ≡ b + 1 → a ≡ suc b
    as_suc a b p = omega arith

    step : (u m : ℕ) → 0 < m → bit_length (suc u) m ≡ suc (bit_length u (m / 2))
    step u m p = ground arith

-- A number below 2 ^ m has at most `m` digits.
pub bit_length-le_of_lt : (w m n : ℕ) → n < 2 ^ m → bit_length w n ≤ m
unfolding bit_length
bit_length-le_of_lt zero m n h = omega arith
bit_length-le_of_lt (suc w) zero n h = ground arith
bit_length-le_of_lt (suc w) (suc m) n h =
    ground (arith, bit_length-le_of_lt w m (n / 2) (omega (arith, pow-succ' 2 m)))

-- Seven digits are a step of the encoding.
pub bit_length_group : (w n : ℕ) → 128 ≤ n → bit_length (w + 7) n ≡ 7 + bit_length w (n / 128)
bit_length_group w n h = omega (
  arith,
  bit_length_half (w + 7) (w + 6) n (omega arith) (omega arith),
  bit_length_half (w + 6) (w + 5) (n / 2) (omega arith) (omega arith),
  bit_length_half (w + 5) (w + 4) (n / 2 / 2) (omega arith) (omega arith),
  bit_length_half (w + 4) (w + 3) (n / 2 / 2 / 2) (omega arith) (omega arith),
  bit_length_half (w + 3) (w + 2) (n / 2 / 2 / 2 / 2) (omega arith) (omega arith),
  bit_length_half (w + 2) (w + 1) (n / 2 / 2 / 2 / 2 / 2) (omega arith) (omega arith),
  bit_length_half (w + 1) w (n / 2 / 2 / 2 / 2 / 2 / 2) (omega arith) (omega arith),
  ap (bit_length w) seven,
)
  where
    seven : n / 2 / 2 / 2 / 2 / 2 / 2 / 2 ≡ n / 128
    seven = omega arith

pub bit_length_positive : (w n : ℕ) → 0 < n → n < 2 ^ w → 0 < bit_length w n
unfolding bit_length
bit_length_positive zero n h lt = absurd (omega arith)
bit_length_positive (suc w) n h lt = ground arith

-- A wider word has no more digits.
pub bit_length_wider : (d w n : ℕ) → n < 2 ^ w → bit_length (w + d) n ≡ bit_length w n
unfolding bit_length
bit_length_wider d zero n h = ap (bit_length (0 + d)) (none_left n h) ∙ bit_length-zero (0 + d)
  where
    none_left : (m : ℕ) → m < 1 → m ≡ 0
    none_left m p = omega arith
bit_length_wider d (suc w) n h = elim (zero_or_more n) [
  | inl e ↦
      ap (bit_length (suc w + d)) e
      ∙ bit_length-zero (suc w + d)
      ∙ sym (ap (bit_length (suc w)) e ∙ bit_length-zero (suc w))
  | inr more ↦ omega (
    arith,
    bit_length_half (suc w + d) (w + d) n (omega arith) more,
    bit_length_half (suc w) w n (omega arith) more,
    bit_length_wider d w (n / 2) (omega (arith, pow-succ' 2 w)),
  )
]
  where
    zero_or_more : (m : ℕ) → (m ≡ 0) ⊎ (0 < m)
    zero_or_more m = omega arith

-- The digits of a number in two parts, the high one not zero.
pub bit_length_shifted :
    (k w low high : ℕ)
    → low < 2 ^ k
    → 0 < high
    → bit_length (w + k) (low + high * 2 ^ k) ≡ k + bit_length w high
bit_length_shifted zero w low high h p = ap₂ bit_length (add_none w) (only_high low h) ∙ omega arith
  where
    add_none : (u : ℕ) → u + 0 ≡ u
    add_none u = omega arith

    only_high : (l : ℕ) → l < 1 → l + high * 1 ≡ high
    only_high l q = omega arith
bit_length_shifted (suc k) w low high h p = omega (
  arith,
  bit_length_half (w + suc k) (w + k) (low + high * 2 ^ suc k) (omega arith) some_digit,
  ap (bit_length (w + k)) half,
  bit_length_shifted k w (low / 2) high (omega (arith, pow-succ' 2 k)) p,
)
  where
    double : high * 2 ^ suc k ≡ 2 * (high * 2 ^ k)
    double = ap (λ t. high * t) (pow-succ' 2 k) ∙ swap high (2 ^ k)
      where
        swap : (a b : ℕ) → a * (2 * b) ≡ 2 * (a * b)
        swap a b = omega arith

    half : (low + high * 2 ^ suc k) / 2 ≡ low / 2 + high * 2 ^ k
    half = omega (arith, double)

    some_digit : 0 < low + high * 2 ^ suc k
    some_digit = omega (
      arith,
      double,
      mul-le-mul {n₁ = 1} {m₁ = 1} {n₂ = high} {m₂ = 2 ^ k} p (one-le-pow k 2 (omega arith)),
    )
