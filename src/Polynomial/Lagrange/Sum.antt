-- ===== src/Polynomial/Lagrange/Sum.antt =====
-- The truncated sum of crates/proof-of-sql/src/base/polynomial/lagrange_basis_evaluation.rs.
use mathlib.Core.List.{reverse, reverse-reverse}
use sxt_proof_of_sql.Shared.{
  ℕ, zero, suc, ◌-◌, ◌^◌, ◌≤◌, ◌≡◌, refl, ◌∙◌, arith, List, [], ◌∷◌, length, pow_double, leb, ◌==◌,
  if◌then◌else◌, ok, panic, Bool-cases, leb→le, inl, inr,
}
use sxt_proof_of_sql.Scalar.{Scalar, ◌⊖◌}
use sxt_proof_of_sql.Scalar.Ring.{ring_laws, one-mul}
use sxt_proof_of_sql.Scalar.Sums.{sum_to}
use sxt_proof_of_sql.Polynomial.Weights.{weight}
use sxt_proof_of_sql.Polynomial.Lagrange.{
  sub_part_length, with_last, sum_from_last, compute_truncated_lagrange_basis_sum,
}
use sxt_proof_of_sql.Polynomial.Lagrange.Doubling.{
  length-reverse, Cut, cut, weight-Doubles, sum_to-low, sum_to-high, sum_to-weight_all,
}

module _ {S : Type 0} ⦃s : Scalar S⦄ where
  first_two : (n : ℕ) → n ≤ 1 → (if n == 1 then s.one else s.zero) ≡ sum_to n (weight [])
  unfolding sum_to weight
  first_two zero h = refl
  first_two (suc zero) h = simp ring_laws
  first_two (suc (suc n)) h = absurd (omega arith)

  sum_from_last-weight :
      (n : ℕ) (ps : List S)
      → sum_from_last n ps
        ≡ (if leb n (2 ^ length ps) then ok (sum_to n (weight (reverse ps))) else panic)
  unfolding sum_from_last sub_part_length with_last
  sum_from_last-weight n [] = elim (Bool-cases (leb n 1)) [
    | inl e ↦ rw (e, ← first_two n (leb→le n 1 e))
    | inr e ↦ rw e
  ]
  sum_from_last-weight n (p ∷ ps) =
      elim (cut n (2 ^ length ps) (2 ^ suc (length ps)) (pow_double (length ps))) [
        | Cut.low e sub full le ↦
            rw (e, sum_from_last-weight n ps, sub, full, sum_to-low (weight-Doubles p ps) n le)
        | Cut.high e sub full le total ↦ rw (
          e,
          sum_from_last-weight (n - 2 ^ length ps) ps,
          sub,
          full,
          sum_to-high (weight-Doubles p ps) (n - 2 ^ length ps) n le total,
          sum_to-weight_all ps,
          one-mul (s.one ⊖ p),
        )
        | Cut.over e sub full ↦ rw (e, sum_from_last-weight (n - 2 ^ length ps) ps, sub, full)
      ]

  -- `compute_truncated_lagrange_basis_sum` of a length and a point is the sum of that many values of
  -- the Lagrange basis at the point, lowest index first, and fails its assertion where the length is
  -- above two to the number of coordinates.
  pub compute_truncated_lagrange_basis_sum-weight :
      (n : ℕ) (point : List S)
      → compute_truncated_lagrange_basis_sum n point
        ≡ (if leb n (2 ^ length point) then ok (sum_to n (weight point)) else panic)
  unfolding compute_truncated_lagrange_basis_sum
  compute_truncated_lagrange_basis_sum-weight n point =
      sum_from_last-weight n (reverse point) ∙ rw (reverse-reverse point, length-reverse point)
