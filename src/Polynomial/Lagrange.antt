-- ===== src/Polynomial/Lagrange.antt =====
-- crates/proof-of-sql/src/base/polynomial/lagrange_basis_evaluation.rs. The recursion of the code is
-- on the last coordinate, `point[nu - 1]`, so the helpers take the coordinates last one first.
pub mod Doubling
pub mod Sum
pub mod InnerProduct
use mathlib.Core.List.{reverse}
use sxt_proof_of_sql.Shared.{
  ℕ, ◌-◌, ◌^◌, List, [], ◌∷◌, length, leb, ◌==◌, if◌then◌else◌, Result, ok, panic, ◌>>=◌,
}
use sxt_proof_of_sql.Scalar.{Scalar, ◌⊕◌, ◌⊖◌, ◌⊗◌}

unfoldable pub sub_part_length : ℕ → ℕ → ℕ
sub_part_length part_length half = if leb half part_length then part_length - half else part_length

module _ {S : Type 0} ⦃s : Scalar S⦄ where
  -- From the part of the first variables, the part with the last one.
  unfoldable pub with_last : ℕ → ℕ → S → S → S
  with_last part_length half p sub_part =
      if leb half part_length then s.one ⊖ p ⊕ sub_part ⊗ p else sub_part ⊗ (s.one ⊖ p)

  unfoldable pub sum_from_last : ℕ → List S → Result (Unit {0}) S
  unfolding sub_part_length with_last
  sum_from_last n [] = if leb n 1 then ok (if n == 1 then s.one else s.zero) else panic
  sum_from_last n (p ∷ ps) = sum_from_last (sub_part_length n (2 ^ length ps)) ps >>= λ sub_part.
      ok (with_last n (2 ^ length ps) p sub_part)

  unfoldable pub compute_truncated_lagrange_basis_sum : ℕ → List S → Result (Unit {0}) S
  unfolding sum_from_last
  compute_truncated_lagrange_basis_sum n point = sum_from_last n (reverse point)

  -- `(part, full)` with the last coordinates `p` and `q`.
  unfoldable pub both_with_last : ℕ → ℕ → S → S → S × S → S × S
  both_with_last part_length half p q sub =
      let first_half_term = (s.one ⊖ p) ⊗ (s.one ⊖ q) in
      let second_half_term = p ⊗ q in
      (
        if leb half part_length
            then sub.1 ⊗ first_half_term ⊕ sub.0 ⊗ second_half_term
            else sub.0 ⊗ first_half_term,
        sub.1 ⊗ (first_half_term ⊕ second_half_term),
      )

  -- Slices of two lengths fail the assertion at the top.
  unfoldable pub inner_product_from_last : ℕ → List S → List S → Result (Unit {0}) (S × S)
  unfolding sub_part_length both_with_last
  inner_product_from_last n [] [] =
      if leb n 1 then ok (if n == 1 then s.one else s.zero, s.one) else panic
  inner_product_from_last n [] (q ∷ qs) = panic
  inner_product_from_last n (p ∷ ps) [] = panic
  inner_product_from_last n (p ∷ ps) (q ∷ qs) =
      inner_product_from_last (sub_part_length n (2 ^ length ps)) ps qs >>= λ sub.
      ok (both_with_last n (2 ^ length ps) p q sub)

  unfoldable pub compute_truncated_lagrange_basis_inner_product_impl :
      ℕ → List S → List S → Result (Unit {0}) (S × S)
  unfolding inner_product_from_last
  compute_truncated_lagrange_basis_inner_product_impl n a b =
      inner_product_from_last n (reverse a) (reverse b)

  unfoldable pub compute_truncated_lagrange_basis_inner_product :
      ℕ → List S → List S → Result (Unit {0}) S
  unfolding compute_truncated_lagrange_basis_inner_product_impl
  compute_truncated_lagrange_basis_inner_product n a b =
      compute_truncated_lagrange_basis_inner_product_impl n a b >>= λ both. ok both.0
