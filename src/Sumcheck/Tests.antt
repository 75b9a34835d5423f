-- ===== src/Sumcheck/Tests.antt =====
-- Runs of the sumcheck in the field of five elements, and the theorems at them.
use sxt_proof_of_sql.Shared.{
  zero, suc, ◌^◌, ◌≡◌, ◌≢◌, refl, ◌∙◌, arith, List, [], ◌∷◌, ◌++◌, length, drop, tabulate, ok, err,
}
use sxt_proof_of_sql.Scalar.Naturals.{of_nat, CharacteristicAbove}
use sxt_proof_of_sql.Scalar.Sums.{sum_to}
use sxt_proof_of_sql.Sumcheck.Values.{over_products, product_by}
use sxt_proof_of_sql.Scalar.Five.{Five, m0, m1, m2, m3, m4, plus, five}
use sxt_proof_of_sql.Polynomial.Composite.{CompositePolynomial, info, evaluate}
use sxt_proof_of_sql.Polynomial.Interpolate.{interpolate_uni_poly}
use sxt_proof_of_sql.Sumcheck.Prover.{prove_round, in_place_fix_variable}
use sxt_proof_of_sql.Sumcheck.Protocol.{
  TranscriptProtocol, ProofError, create, verify_without_evaluation,
}
use sxt_proof_of_sql.Sumcheck.Tables.{at, line, in_place_fix_variable-line}
use sxt_proof_of_sql.Sumcheck.Evaluation.{IsWellFormed, hypercube_sum}
use sxt_proof_of_sql.Sumcheck.Accepts.{create-verify_without_evaluation}
use sxt_proof_of_sql.Sumcheck.Rejects.{
  Returns, create-wrong_claim, verify_without_evaluation-Returns,
}

abbrev total_of : List Five → Five
total_of [] = m1
total_of (x ∷ xs) = plus x (total_of xs)

-- A transcript that is one scalar.
abbrev running : TranscriptProtocol Five
running = record {
  Transcript = Five;
  append_sumcheck = λ t most variables. plus t m1;
  append_round = λ t values. plus t (total_of values);
  challenge = λ t. (plus t m2, plus t m3);
}

abbrev two_products : CompositePolynomial Five
two_products = record {
  max_multiplicands = 2;
  num_variables = 2;
  products = (m2, 0 ∷ 1 ∷ []) ∷ (m1, 1 ∷ []) ∷ [];
  flattened_ml_extensions = (m1 ∷ m2 ∷ m3 ∷ m4 ∷ []) ∷ (m0 ∷ m1 ∷ m1 ∷ m2 ∷ []) ∷ [];
  raw_pointers_lookup_table = [];
}

two_products-IsWellFormed : IsWellFormed two_products
two_products-IsWellFormed = record {
  has_variables = omega arith;
  has_degree = omega arith;
  sizes = (refl, (refl, tt));
  in_range = ((omega arith, (omega arith, tt)), ((omega arith, tt), tt));
  of_degree = (omega arith, (omega arith, tt));
}

above_two : CharacteristicAbove five 2
unfolding of_nat
above_two zero pos le e = absurd (omega arith)
above_two (suc zero) pos le e = cc
above_two (suc (suc zero)) pos le e = cc
above_two (suc (suc (suc k))) pos le e = absurd (omega arith)

one_nonzero : m1 ≢ m0
one_nonzero e = cc

abbrev evaluations_of_two : List (List Five)
evaluations_of_two = (m2 ∷ m3 ∷ m2 ∷ []) ∷ (m0 ∷ m3 ∷ m4 ∷ []) ∷ []

create_runs :
    create running m0 (m0 ∷ m0 ∷ []) two_products ≡ ok (evaluations_of_two, m1 ∷ m2 ∷ [], m3)
unfolding create prove_round
create_runs = refl

verify_without_evaluation_runs :
    verify_without_evaluation running evaluations_of_two m0 (info two_products) m0
    ≡ (ok (record { evaluation_point = m1 ∷ m2 ∷ []; expected_evaluation = m4 }), m3)
unfolding verify_without_evaluation info interpolate_uni_poly
verify_without_evaluation_runs = refl

hypercube_sum_runs : hypercube_sum two_products ≡ m0
unfolding hypercube_sum sum_to over_products product_by
hypercube_sum_runs = refl

create-verify_without_evaluation_example :
    (evaluations : List (List Five)) × (point : List Five) × (value : Five) × (after : Five)
    × (create running m0 (m0 ∷ m0 ∷ []) two_products ≡ ok (evaluations, point, after))
    × (length point ≡ 2)
    × (evaluate two_products point ≡ ok value)
    × (verify_without_evaluation running evaluations m0
          (info two_products)
          (hypercube_sum two_products)
        ≡ (ok (record { evaluation_point = point; expected_evaluation = value }), after))
create-verify_without_evaluation_example =
    create-verify_without_evaluation one_nonzero running two_products (m0 ∷ m0 ∷ []) m0
      two_products-IsWellFormed above_two refl

create-wrong_claim_example :
    (evaluations : List (List Five)) × (point : List Five) × (after : Five) × (create running m0
        (m0 ∷ m0 ∷ [])
        two_products
      ≡ ok (evaluations, point, after))
    × (verify_without_evaluation running evaluations m0 (info two_products) m1
        ≡ (err ProofError.round_evaluation_sum, after))
create-wrong_claim_example =
    create-wrong_claim one_nonzero running two_products (m0 ∷ m0 ∷ []) m0 m1
      two_products-IsWellFormed above_two refl (λ e. one_nonzero (e ∙ hypercube_sum_runs))

verify_without_evaluation-Returns_example :
    Returns
      (verify_without_evaluation running
        ((m4 ∷ []) ∷ evaluations_of_two)
        m2
        (record { max_multiplicands = 2; num_variables = 3 })
        m3).0
verify_without_evaluation-Returns_example =
    verify_without_evaluation-Returns one_nonzero running ((m4 ∷ []) ∷ evaluations_of_two) m2
      (record { max_multiplicands = 2; num_variables = 3 }) m3 (omega arith) above_two

abbrev eight_entries : List Five
eight_entries = m0 ∷ m1 ∷ m3 ∷ m4 ∷ m2 ∷ m2 ∷ m0 ∷ m4 ∷ []

in_place_fix_variable_runs :
    in_place_fix_variable eight_entries m3 2 ≡ ok (m3 ∷ m1 ∷ m2 ∷ m2 ∷ m2 ∷ m2 ∷ m0 ∷ m4 ∷ [])
unfolding in_place_fix_variable
in_place_fix_variable_runs = refl

in_place_fix_variable-line_example :
    in_place_fix_variable eight_entries m3 2
    ≡ ok (tabulate 0 (2 ^ 2) (λ b. line (at eight_entries) b m3) ++ drop (2 ^ 2) eight_entries)
in_place_fix_variable-line_example =
    in_place_fix_variable-line eight_entries m3 2 (omega arith) (omega arith)
