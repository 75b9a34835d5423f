-- ===== src/Polynomial/Lagrange/Doubling.antt =====
-- What a new last variable does to the sum of the values of a basis.
use mathlib.Core.List.{reverse, reverse-cons}
use sxt_proof_of_sql.Shared.{
  ℕ, suc, ◌+◌, ◌-◌, ◌^◌, ◌<◌, ◌≤◌, ◌≡◌, refl, sym, ap, ap₂, ◌∙◌, arith, List, [], ◌∷◌, length,
  length-append, pow_double, leb, true, false, Bool-cases, inl, inr,
}
use sxt_proof_of_sql.Scalar.{Scalar, ◌⊕◌, ◌⊖◌, ◌⊗◌}
use sxt_proof_of_sql.Scalar.Ring.{ring_laws, add-sub}
use sxt_proof_of_sql.Scalar.Sums.{sum_to, sum_to_congr, sum_to-split, sum_to-mul}
use sxt_proof_of_sql.Polynomial.Weights.{weight, weight-append_low, weight-append_high}

pub length-reverse : {A : Type 0} (xs : List A) → length (reverse xs) ≡ length xs
length-reverse [] = refl
length-reverse (x ∷ xs) =
    rw (reverse-cons x xs) (omega (arith, length-append (reverse xs) (x ∷ []), length-reverse xs))

-- Where a length lies: in the first half, in the second one, or beyond both.
pub data Cut (n half full : ℕ) : Type 0 where
  low : leb half n ≡ false → leb n half ≡ true → leb n full ≡ true → n ≤ half → Cut n half full
  high :
      leb half n ≡ true
      → leb (n - half) half ≡ true
      → leb n full ≡ true
      → n - half ≤ half
      → half + (n - half) ≡ n
      → Cut n half full
  over : leb half n ≡ true → leb (n - half) half ≡ false → leb n full ≡ false → Cut n half full

pub cut : (n half full : ℕ) → full ≡ half + half → Cut n half full
cut n half full e = elim (Bool-cases (leb half n)) [
  | inr less ↦ low less (ground arith) (ground arith) (ground arith)
  | inl more ↦ elim (Bool-cases (leb n full)) [
    | inl fits ↦ high more (ground arith) fits (ground arith) (ground arith)
    | inr beyond ↦ over more (ground arith) beyond
  ]
]

module _ {S : Type 0} ⦃s : Scalar S⦄ where
  -- `v` has the values of `w` times `low`, then those times `high`.
  pub record Doubles (half : ℕ) (w v : ℕ → S) (low high : S) : Type 0 where
    pub at_low : (i : ℕ) → i < half → v i ≡ w i ⊗ low
    pub at_high : (i : ℕ) → i < half → v (half + i) ≡ w i ⊗ high

  module _ {half : ℕ} {w v : ℕ → S} {low high : S} (d : Doubles half w v low high) where
    pub sum_to-low : (n : ℕ) → n ≤ half → sum_to n v ≡ sum_to n w ⊗ low
    sum_to-low n le = sum_to_congr n (λ i lt. d.at_low i (omega arith)) ∙ sym (sum_to-mul n low w)

    pub sum_to-high :
        (k n : ℕ) → k ≤ half → half + k ≡ n → sum_to n v ≡ sum_to half w ⊗ low ⊕ sum_to k w ⊗ high
    sum_to-high k n le e =
        sum_to-split half k n v e
        ∙ ap₂ (λ x y. x ⊕ y) (sum_to-low half (omega arith))
            (sum_to_congr k (λ i lt. d.at_high i (omega arith)) ∙ sym (sum_to-mul k high w))

  pub weight-Doubles :
      (p : S) (ps : List S)
      → Doubles (2 ^ length ps) (weight (reverse ps)) (weight (reverse (p ∷ ps))) (s.one ⊖ p) p
  weight-Doubles p ps = record {
    at_low = λ i lt. rw (reverse-cons p ps) (weight-append_low (reverse ps) p i (size i lt));
    at_high = λ i lt. rw (reverse-cons p ps) (
        weight-append_high (reverse ps) p i _ (size i lt)
          (ap (λ k. 2 ^ k + i) (length-reverse ps)));
  }
    where
      size : (i : ℕ) → i < 2 ^ length ps → i < 2 ^ length (reverse ps)
      size i lt = rw (length-reverse ps) lt

  -- All the values add up to one.
  pub sum_to-weight_all : (ps : List S) → sum_to (2 ^ length ps) (weight (reverse ps)) ≡ s.one
  unfolding sum_to weight
  sum_to-weight_all [] = simp ring_laws
  sum_to-weight_all (p ∷ ps) =
      sum_to-high (weight-Doubles p ps) (2 ^ length ps) (2 ^ suc (length ps)) (omega arith)
        (sym (pow_double (length ps)))
      ∙ rw (sum_to-weight_all ps) (sum_of_both p)
    where
      sum_of_both : (p : S) → s.one ⊗ (s.one ⊖ p) ⊕ s.one ⊗ p ≡ s.one
      sum_of_both p = simp ring_laws (add-sub p s.one)
