-- ===== src/Encode/Varint/Groups.antt =====
-- The format: seven bits to a byte, lowest first, with the top bit set on all but the last byte.
use Prim.Native.Nat.{zero, suc, max}
use native.Mathlib.Nat.{pow-le-pow_right}
use native.Mathlib.Numerals.{towards_suc}
use sxt_proof_of_sql.Shared.{
  ℕ, ◌+◌, ◌-◌, ◌*◌, ◌/◌, ◌%◌, ◌^◌, ◌≤◌, ◌<◌, List, [], ◌∷◌, length, ◌≡◌, refl, ap, subst, arith,
  ◌⊎◌, inl, inr,
}
use sxt_proof_of_sql.Encode.BitLength.{
  bit_length, bit_length-le_of_lt, bit_length_group, bit_length_positive, bit_length-le,
}

abbrev pub value_of : List ℕ → ℕ
value_of [] = 0
value_of (b ∷ bytes) = b % 128 + 128 * value_of bytes

-- Bytes that end where the first top bit is not set.
abbrev pub IsVarint : List ℕ → Type 0
IsVarint [] = ⊥
IsVarint (b ∷ []) = b < 128
IsVarint (b ∷ c ∷ bytes) = (128 ≤ b) × (b < 256) × IsVarint (c ∷ bytes)

-- `n` takes `k` bytes before its last one.
abbrev pub Takes : ℕ → ℕ → Type 0
Takes zero n = n < 128
Takes (suc k) n = (128 ≤ n) × Takes k (n / 128)

unfoldable pub groups : ℕ → ℕ → List ℕ
groups zero n = n ∷ []
groups (suc k) n = (128 + n % 128) ∷ groups k (n / 128)

pub value_of-groups : (k n : ℕ) → Takes k n → value_of (groups k n) ≡ n
unfolding groups
value_of-groups zero n h = omega arith
value_of-groups (suc k) n h = omega (arith, value_of-groups k (n / 128) h.1)

pub groups-IsVarint : (k n : ℕ) → Takes k n → IsVarint (groups k n)
unfolding groups
groups-IsVarint zero n h = h
groups-IsVarint (suc zero) n h = (omega arith, omega arith, h.1)
groups-IsVarint (suc (suc k)) n h =
    (omega arith, omega arith, groups-IsVarint (suc k) (n / 128) h.1)

pub length-groups : (k n : ℕ) → length (groups k n) ≡ suc k
unfolding groups
length-groups zero n = refl
length-groups (suc k) n = ap suc (length-groups k (n / 128))

pub pow_seven : (w : ℕ) → 2 ^ (w + 7) ≡ 128 * 2 ^ w
pow_seven w = simp towards_suc (omega arith)

-- A number of `w` bits that takes more than one byte leaves one of `w - 7` bits.
pub split_width : (w n : ℕ) → 128 ≤ n → n < 2 ^ w → (v : ℕ) × (w ≡ v + 7) × (n / 128 < 2 ^ v)
split_width w n h lt = (w - 7, wide, rest (subst (λ u. n < 2 ^ u) wide lt))
  where
    wide : w ≡ w - 7 + 7
    wide = elim (at_most_seven w) [
      | inl few ↦ absurd (omega (arith, pow-le-pow_right {n = 2} (omega arith) few))
      | inr many ↦ many
    ]
      where
        at_most_seven : (u : ℕ) → (u ≤ 7) ⊎ (u ≡ u - 7 + 7)
        at_most_seven u = omega arith

    rest : n < 2 ^ (w - 7 + 7) → n / 128 < 2 ^ (w - 7)
    rest p = omega (arith, pow_seven (w - 7))

pub small_or_large : (n : ℕ) → (n < 128) ⊎ (128 ≤ n)
small_or_large n = omega arith

-- The number of bytes that the bit length gives is the number that the value takes.
pub bit_length-Takes :
    (fuel w n : ℕ)
    → w ≤ fuel
    → n < 2 ^ w
    → (k : ℕ) × Takes k n × (max 1 ((bit_length w n + 6) / 7) ≡ suc k)
bit_length-Takes zero w n h lt =
    (0, omega (arith, pow-le-pow_right {n = 2} (omega arith) h), omega (arith, bit_length-le w n))
bit_length-Takes (suc fuel) w n h lt = elim (small_or_large n) [
  | inl small ↦ (0, small, omega (arith, bit_length-le_of_lt w 7 n small))
  | inr large ↦
      let (v, wide, less) = split_width w n large lt in
      let (k, takes, size) = bit_length-Takes fuel v (n / 128) (omega arith) less in
      (
        suc k,
        (large, takes),
        omega (
          arith,
          ap (λ u. bit_length u n) wide,
          bit_length_group v n large,
          bit_length_positive v (n / 128) (omega arith) less,
        ),
      )
]
