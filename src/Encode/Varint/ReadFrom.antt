-- ===== src/Encode/Varint/ReadFrom.antt =====
-- `decode_var` returns only what stands in a varint that fits.
use native.Mathlib.Nat.{pow-le-pow_right}
use sxt_proof_of_sql.Shared.{
  ℕ, ◌+◌, ◌-◌, ◌*◌, ◌%◌, ◌^◌, ◌≤◌, ◌<◌, Option, none, some, List, [], ◌∷◌, ◌++◌, length, All, ◌≡◌,
  refl, ◌∙◌, sym, ap, subst, arith, ◌⊎◌, inl, inr,
}
use sxt_proof_of_sql.Encode.Varint.{decode_loop}
use sxt_proof_of_sql.Encode.Varint.Groups.{value_of, IsVarint, small_or_large}
use sxt_proof_of_sql.Encode.Varint.Read.{value-regroup, more_fits, last_round, inner_round, grown}

decode_loop-nil : (r s : ℕ) → decode_loop [] r s ≡ none
unfolding decode_loop
decode_loop-nil r s = refl

-- Where the tenth byte is too large the result is refused.
overflowing : (b : ℕ) (src : List ℕ) (r s : ℕ) → 2 ≤ b → s ≡ 63 → decode_loop (b ∷ src) r s ≡ none
unfolding decode_loop
overflowing b src r s h e = ground arith

pub wide_enough : (w : ℕ) → 7 ≤ w → 128 ≤ 2 ^ w
wide_enough w h = pow-le-pow_right {n = 2} (omega arith) h

-- What `decode_loop` returns, it has read from a varint that fits.
abbrev pub ReadFrom : List ℕ → ℕ → ℕ → ℕ → ℕ → ℕ × ℕ → Type 0
ReadFrom src r s w j (v, c) =
    (bytes : List ℕ) × (rest : List ℕ) × (src ≡ bytes ++ rest)
    × IsVarint bytes
    × (value_of bytes < 2 ^ w)
    × (v ≡ r + value_of bytes * 2 ^ s)
    × (c ≡ j + length bytes)
    × (j + length bytes ≤ 10)

round_cases : (s j : ℕ) → s ≡ 7 * j → j ≤ 9 → (s ≡ 63) ⊎ (s ≤ 56)
round_cases s j h k = omega arith

two_cases : (b : ℕ) → (b < 2) ⊎ (2 ≤ b)
two_cases b = omega arith

read_last :
    (b : ℕ) (src : List ℕ) (r s w j : ℕ) (out : ℕ × ℕ)
    → b < 128
    → s + w ≡ 64
    → s ≡ 7 * j
    → j ≤ 9
    → b < 2 ^ w
    → r < 2 ^ s
    → decode_loop (b ∷ src) r s ≡ some out
    → ReadFrom (b ∷ src) r s w j out
read_last b src r s w j (v, c) hb hw hs hj fits hr h =
    let e : ◌≡◌ {A = Option (ℕ × ℕ)} (some (v, c)) (some (r + b * 2 ^ s, j + 1)) =
      sym h ∙ last_round b src r s w j hb hw hs hj fits hr in
    (
      b ∷ [],
      src,
      refl,
      hb,
      omega arith,
      first e ∙ ap (λ t. r + t * 2 ^ s) same,
      second e,
      omega arith,
    )
  where
    same : b ≡ b % 128 + 0
    same = omega arith

    first : ◌≡◌ {A = Option (ℕ × ℕ)} (some (v, c)) (some (r + b * 2 ^ s, j + 1)) → v ≡ r + b * 2 ^ s
    first e = cc

    second : ◌≡◌ {A = Option (ℕ × ℕ)} (some (v, c)) (some (r + b * 2 ^ s, j + 1)) → c ≡ j + 1
    second e = cc

read_more :
    (b : ℕ) (src : List ℕ) (r s w j : ℕ) (out : ℕ × ℕ)
    → 128 ≤ b
    → b < 256
    → s ≤ 56
    → s + w ≡ 64
    → ReadFrom src (r + b % 128 * 2 ^ s) (s + 7) (w - 7) (j + 1) out
    → ReadFrom (b ∷ src) r s w j out
read_more b src r s w j (v, c) low high hs hw ([], rest, e, d, f, g, k, short) = absurd d
read_more b src r s w j (v, c) low high hs hw (d ∷ bytes, rest, e, m, f, g, k, short) = (
  b ∷ d ∷ bytes,
  rest,
  ap (λ l. b ∷ l) e,
  (low, high, m),
  more_fits (b % 128) (value_of (d ∷ bytes)) w (omega arith) (omega arith) f,
  g ∙ value-regroup r (b % 128) (value_of (d ∷ bytes)) s,
  omega (arith, k),
  omega (arith, short),
)

pub decode_loop-ReadFrom :
    (src : List ℕ) (r s w j : ℕ) (out : ℕ × ℕ)
    → All (λ b. b < 256) src
    → s + w ≡ 64
    → s ≡ 7 * j
    → j ≤ 9
    → r < 2 ^ s
    → decode_loop src r s ≡ some out
    → ReadFrom src r s w j out
decode_loop-ReadFrom [] r s w j out hb hw hs hj hr h = cc (decode_loop-nil r s)
decode_loop-ReadFrom (b ∷ src) r s w j out (hb, hbs) hw hs hj hr h = elim (round_cases s j hs hj) [
  | inl last ↦ elim (two_cases b) [
    | inl two ↦
        read_last b src r s w j out (omega arith) hw hs hj
          (subst (λ u. b < 2 ^ u) (one_bit last) two) hr h
    | inr more ↦ cc (overflowing b src r s more last)
  ]
  | inr early ↦ elim (small_or_large b) [
    | inl small ↦
        read_last b src r s w j out small hw hs hj (omega (arith, wide_enough w (omega arith))) hr h
    | inr large ↦ read_more b src r s w j out large hb early hw (
        decode_loop-ReadFrom src (r + b % 128 * 2 ^ s) (s + 7) (w - 7) (j + 1) out hbs (omega arith)
          (omega arith) (omega arith) (grown b r s hr)
          (sym (
              inner_round b src r s w large hb hw (omega arith)
                (omega (arith, wide_enough w (omega arith))) hr)
            ∙ h))
  ]
]
  where
    one_bit : s ≡ 63 → 1 ≡ w
    one_bit e = omega arith
