-- ===== src/Polynomial/Lagrange/InnerProduct.antt =====
-- The truncated inner product of
-- crates/proof-of-sql/src/base/polynomial/lagrange_basis_evaluation.rs.
use mathlib.Core.List.{reverse, reverse-reverse}
use sxt_proof_of_sql.Shared.{
  ℕ, zero, suc, ◌-◌, ◌^◌, ◌≤◌, ◌≡◌, refl, sym, ap₂, ◌∙◌, arith, List, [], ◌∷◌, length, pow_double,
  leb, ◌==◌, if◌then◌else◌, ok, panic, Bool-cases, leb→le, inl, inr,
}
use sxt_proof_of_sql.Scalar.{Scalar, ◌⊖◌, ◌⊗◌}
use sxt_proof_of_sql.Scalar.Ring.{ring_laws}
use sxt_proof_of_sql.Scalar.Sums.{sum_to}
use sxt_proof_of_sql.Polynomial.Weights.{weight}
use sxt_proof_of_sql.Polynomial.Lagrange.{
  sub_part_length, both_with_last, inner_product_from_last,
  compute_truncated_lagrange_basis_inner_product_impl,
  compute_truncated_lagrange_basis_inner_product,
}
use sxt_proof_of_sql.Polynomial.Lagrange.Doubling.{
  length-reverse, Cut, cut, Doubles, weight-Doubles, sum_to-low, sum_to-high,
}

module _ {S : Type 0} ⦃s : Scalar S⦄ where
  -- The products of the values of the two bases.
  abbrev pub weight_product : List S → List S → ℕ → S
  weight_product a b i = weight a i ⊗ weight b i

  product_basis : List S → List S → ℕ → S
  product_basis ps qs i = weight (reverse ps) i ⊗ weight (reverse qs) i

  product_basis-reverse :
      (a b : List S) → product_basis (reverse a) (reverse b) ≡ weight_product a b
  unfolding product_basis
  product_basis-reverse a b = ap₂ weight_product (reverse-reverse a) (reverse-reverse b)

  product_basis-Doubles :
      (p q : S) (ps qs : List S)
      → length ps ≡ length qs
      → Doubles
          (2 ^ length ps)
          (product_basis ps qs)
          (product_basis (p ∷ ps) (q ∷ qs))
          ((s.one ⊖ p) ⊗ (s.one ⊖ q))
          (p ⊗ q)
  unfolding product_basis
  product_basis-Doubles p q ps qs e =
      let a = weight-Doubles p ps in
      let b = rw (← e) at (weight-Doubles q qs) in
      record {
        at_low = λ i lt. rw (a.at_low i lt, b.at_low i lt) (simp ring_laws);
        at_high = λ i lt. rw (a.at_high i lt, b.at_high i lt) (simp ring_laws);
      }

  first_two : (n : ℕ) → n ≤ 1 → (if n == 1 then s.one else s.zero) ≡ sum_to n (product_basis [] [])
  unfolding sum_to weight product_basis
  first_two zero h = refl
  first_two (suc zero) h = simp ring_laws
  first_two (suc (suc n)) h = absurd (omega arith)

  inner_product_from_last-weight :
      (n : ℕ) (ps qs : List S)
      → length ps ≡ length qs
      → inner_product_from_last n ps qs ≡ (
          if leb n (2 ^ length ps)
          then ok (sum_to n (product_basis ps qs), sum_to (2 ^ length ps) (product_basis ps qs))
          else panic)
  unfolding inner_product_from_last sub_part_length both_with_last
  inner_product_from_last-weight n [] [] h = elim (Bool-cases (leb n 1)) [
    | inl e ↦ rw (e, ← first_two n (leb→le n 1 e), ← first_two 1 (omega arith))
    | inr e ↦ rw e
  ]
  inner_product_from_last-weight n [] (q ∷ qs) h = absurd (omega arith)
  inner_product_from_last-weight n (p ∷ ps) [] h = absurd (omega arith)
  inner_product_from_last-weight n (p ∷ ps) (q ∷ qs) h =
      let e = product_basis-Doubles p q ps qs (omega arith) in
      let whole =
        sum_to-high e (2 ^ length ps) (2 ^ suc (length ps)) (omega arith)
          (sym (pow_double (length ps))) in
      elim (cut n (2 ^ length ps) (2 ^ suc (length ps)) (pow_double (length ps))) [
        | Cut.low t sub full le ↦
            rw
              (
                t,
                inner_product_from_last-weight n ps qs (omega arith),
                sub,
                full,
                whole,
                sum_to-low e n le,
              )
              (simp ring_laws)
        | Cut.high t sub full le total ↦
            rw
              (
                t,
                inner_product_from_last-weight (n - 2 ^ length ps) ps qs (omega arith),
                sub,
                full,
                whole,
                sum_to-high e (n - 2 ^ length ps) n le total,
              )
              (simp ring_laws)
        | Cut.over t sub full ↦
            rw
              (t, inner_product_from_last-weight (n - 2 ^ length ps) ps qs (omega arith), sub, full)
      ]

  -- `compute_truncated_lagrange_basis_inner_product` of a length and two points with as many
  -- coordinates is the sum, over that many indices, of the products of the values of the two
  -- Lagrange bases, and fails its assertion where the length is above two to the number of
  -- coordinates.
  pub compute_truncated_lagrange_basis_inner_product-weight :
      (n : ℕ) (a b : List S)
      → length a ≡ length b
      → compute_truncated_lagrange_basis_inner_product n a b
        ≡ (if leb n (2 ^ length a) then ok (sum_to n (weight_product a b)) else panic)
  unfolding compute_truncated_lagrange_basis_inner_product
      compute_truncated_lagrange_basis_inner_product_impl
  compute_truncated_lagrange_basis_inner_product-weight n a b e =
      rw
        (
          inner_product_from_last-weight n (reverse a) (reverse b)
              (length-reverse a ∙ e ∙ sym (length-reverse b)),
          product_basis-reverse a b,
          length-reverse a,
        )
        (elim (Bool-cases (leb n (2 ^ length a))) [ inl t ↦ rw t | inr t ↦ rw t ])
