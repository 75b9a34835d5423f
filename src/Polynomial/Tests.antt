-- ===== src/Polynomial/Tests.antt =====
-- Runs of the routines on polynomials in the field of five elements, and the theorems at them.
use sxt_proof_of_sql.Shared.{
  ℕ, zero, suc, ◌^◌, ◌≡◌, ◌≢◌, refl, arith, List, [], ◌∷◌, leb, if◌then◌else◌, tabulate, replicate,
  ok, panic,
}
use sxt_proof_of_sql.Scalar.{◌⊕◌, ◌⊗◌}
use sxt_proof_of_sql.Scalar.Sums.{sum_to}
use sxt_proof_of_sql.Scalar.Naturals.{of_nat, CharacteristicAbove}
use sxt_proof_of_sql.Scalar.Five.{Five, m0, m1, m2, m3, m4, five}
use sxt_proof_of_sql.Polynomial.Weights.{weight}
use sxt_proof_of_sql.Polynomial.EvaluationVector.{compute_evaluation_vector}
use sxt_proof_of_sql.Polynomial.EvaluationVector.Weighs.{compute_evaluation_vector-weight}
use sxt_proof_of_sql.Polynomial.Lagrange.{
  compute_truncated_lagrange_basis_sum, compute_truncated_lagrange_basis_inner_product,
}
use sxt_proof_of_sql.Polynomial.Lagrange.Sum.{compute_truncated_lagrange_basis_sum-weight}
use sxt_proof_of_sql.Polynomial.Lagrange.InnerProduct.{
  weight_product, compute_truncated_lagrange_basis_inner_product-weight,
}
use sxt_proof_of_sql.Polynomial.Coefficients.{horner, IsPolynomial}
use sxt_proof_of_sql.Polynomial.Interpolate.{interpolate_uni_poly}
use sxt_proof_of_sql.Polynomial.Interpolate.Correct.{samples, interpolate_uni_poly-samples}
use sxt_proof_of_sql.Polynomial.Composite.{
  Rc, CompositePolynomial, new, get_index, add_product, evaluate,
}
use sxt_proof_of_sql.Polynomial.Composite.AddProduct.{
  IsConsistent, product_of_factors, add_product-evaluate,
}

abbrev five_slots : List Five
five_slots = m0 ∷ m0 ∷ m0 ∷ m0 ∷ m0 ∷ []

abbrev three_coordinates : List Five
three_coordinates = m2 ∷ m3 ∷ m4 ∷ []

compute_evaluation_vector_runs :
    compute_evaluation_vector five_slots three_coordinates ≡ ok (m4 ∷ m2 ∷ m4 ∷ m2 ∷ m3 ∷ [])
unfolding compute_evaluation_vector
compute_evaluation_vector_runs = refl

compute_evaluation_vector-weight_example :
    compute_evaluation_vector five_slots three_coordinates
    ≡ (if leb 5 (2 ^ 3) then ok (tabulate 0 5 (weight three_coordinates)) else panic)
compute_evaluation_vector-weight_example =
    compute_evaluation_vector-weight five_slots three_coordinates

compute_truncated_lagrange_basis_sum_runs :
    compute_truncated_lagrange_basis_sum 5 three_coordinates ≡ ok m0
unfolding compute_truncated_lagrange_basis_sum
compute_truncated_lagrange_basis_sum_runs = refl

compute_truncated_lagrange_basis_sum-weight_example :
    compute_truncated_lagrange_basis_sum 5 three_coordinates
    ≡ (if leb 5 (2 ^ 3) then ok (sum_to 5 (weight three_coordinates)) else panic)
compute_truncated_lagrange_basis_sum-weight_example =
    compute_truncated_lagrange_basis_sum-weight 5 three_coordinates

compute_truncated_lagrange_basis_inner_product-weight_example :
    compute_truncated_lagrange_basis_inner_product 6 three_coordinates (m1 ∷ m3 ∷ m3 ∷ []) ≡ (
      if leb 6 (2 ^ 3)
      then ok (sum_to 6 (weight_product three_coordinates (m1 ∷ m3 ∷ m3 ∷ [])))
      else panic)
compute_truncated_lagrange_basis_inner_product-weight_example =
    compute_truncated_lagrange_basis_inner_product-weight 6 three_coordinates (m1 ∷ m3 ∷ m3 ∷ [])
      refl

above_two : CharacteristicAbove five 2
unfolding of_nat
above_two zero pos le e = absurd (omega arith)
above_two (suc zero) pos le e = cc
above_two (suc (suc zero)) pos le e = cc
above_two (suc (suc (suc k))) pos le e = absurd (omega arith)

one_nonzero : m1 ≢ m0
one_nonzero e = cc

-- 2 + 3 x + x ^ 2
abbrev quadratic : Five → Five
quadratic x = m2 ⊕ x ⊗ (m3 ⊕ x ⊗ (m1 ⊕ x ⊗ m0))

quadratic-IsPolynomial : IsPolynomial 3 quadratic
unfolding horner
quadratic-IsPolynomial = record {
  coefficients = m2 ∷ m3 ∷ m1 ∷ [];
  size = refl;
  values = λ x. refl;
}

interpolate_uni_poly_runs : interpolate_uni_poly (m2 ∷ m1 ∷ m2 ∷ []) m4 ≡ ok m0
unfolding interpolate_uni_poly
interpolate_uni_poly_runs = refl

interpolate_uni_poly-samples_example :
    interpolate_uni_poly (samples 3 quadratic) m4 ≡ ok (quadratic m4)
interpolate_uni_poly-samples_example =
    interpolate_uni_poly-samples one_nonzero 2 quadratic m4 quadratic-IsPolynomial above_two

abbrev heap : ℕ → List Five
heap zero = m1 ∷ m2 ∷ m3 ∷ m4 ∷ []
heap (suc a) = m0 ∷ m1 ∷ m1 ∷ m2 ∷ []

abbrev first : Rc Five
first = record { address = 0; entries = heap 0 }

abbrev second : Rc Five
second = record { address = 1; entries = heap 1 }

abbrev empty : CompositePolynomial Five
empty = record {
  max_multiplicands = 0;
  num_variables = 2;
  products = [];
  flattened_ml_extensions = [];
  raw_pointers_lookup_table = [];
}

new_runs : new Five 2 ≡ empty
unfolding new
new_runs = refl

empty-IsConsistent : IsConsistent heap empty
unfolding get_index
empty-IsConsistent a i e = cc

basis_at : compute_evaluation_vector (replicate 4 m0) (m2 ∷ m4 ∷ []) ≡ ok (m3 ∷ m4 ∷ m1 ∷ m3 ∷ [])
unfolding compute_evaluation_vector
basis_at = refl

evaluate-empty : evaluate empty (m2 ∷ m4 ∷ []) ≡ ok m0
unfolding evaluate compute_evaluation_vector
evaluate-empty = refl

-- The vector `second` is shared between two factors.
add_product-evaluate_example :
    (q : CompositePolynomial Five) × (add_product empty (second ∷ first ∷ second ∷ []) m3 ≡ ok q)
    × IsConsistent heap q
    × (evaluate q (m2 ∷ m4 ∷ [])
        ≡ ok (m0 ⊕ m3 ⊗ product_of_factors (m3 ∷ m4 ∷ m1 ∷ m3 ∷ []) (second ∷ first ∷ second ∷ [])))
    × (q.max_multiplicands ≡ 3)
add_product-evaluate_example =
    add_product-evaluate heap empty second (first ∷ second ∷ []) m3 (m2 ∷ m4 ∷ [])
      (m3 ∷ m4 ∷ m1 ∷ m3 ∷ []) m0 empty-IsConsistent (refl, (refl, (refl, tt))) basis_at
      evaluate-empty
