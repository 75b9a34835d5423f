-- ===== src/Proof/Tests.antt =====
-- The parts of a proof in the field of five elements, and the theorems at them.
use sxt_proof_of_sql.Shared.{
  ℕ, zero, suc, ◌<◌, ◌≡◌, ◌↔◌, refl, arith, true, false, none, List, [], ◌∷◌, length, tabulate, ok,
}
use sxt_proof_of_sql.Scalar.Five.{Five, m0, m1, m2, m3, m4, five}
use sxt_proof_of_sql.Scalar.Sums.{sum_to}
use sxt_proof_of_sql.Polynomial.Weights.{weight}
use sxt_proof_of_sql.Polynomial.Lagrange.InnerProduct.{weight_product}
use sxt_proof_of_sql.Proof.Indexes.{Indexes, valid, evaluate_at_point}
use sxt_proof_of_sql.Proof.Indexes.Ascending.{IsValid, valid-IsValid}
use sxt_proof_of_sql.Proof.Indexes.Evaluation.{indicator, evaluate_at_point-indicator}
use sxt_proof_of_sql.Proof.MleEvaluations.{
  SumcheckRandomScalars, SumcheckMleEvaluations, compute_entrywise_multipliers, new_mle_evaluations,
  new_mle_evaluations-values,
}
use sxt_proof_of_sql.Proof.VerificationBuilder.{
  VerificationBuilder, consume_anchored_mle, produce_sumcheck_subpolynomial_evaluation,
  folded_pre_result_evaluation, inner_product_multipliers, pre_result_commitments,
  sumcheck_evaluation,
}
use sxt_proof_of_sql.Proof.VerificationBuilder.Steps.{Step, Run, produced_in, committed_in}
use sxt_proof_of_sql.Polynomial.Composite.{CompositePolynomial, inner_product}
use sxt_proof_of_sql.Polynomial.MultilinearExtension.{MultilinearExtension}
use sxt_proof_of_sql.Sumcheck.Tables.{at}
use sxt_proof_of_sql.Sumcheck.Evaluation.{hypercube_sum}
use sxt_proof_of_sql.Proof.CompositePolynomialBuilder.{
  SumcheckSubpolynomialType, SumcheckSubpolynomial,
}
use sxt_proof_of_sql.Proof.CompositePolynomialBuilder.Composes.{terms_row}
use sxt_proof_of_sql.Proof.ProofBuilder.{
  ProofBuilder, make_sumcheck_polynomial, fold_pre_result_mles, evaluate_pre_result_mles,
}
use sxt_proof_of_sql.Proof.ProofBuilder.Fold.{fold_pre_result_mles-inner_product}
use sxt_proof_of_sql.Proof.ProofBuilder.Sum.{
  combined_row, AreSubpolynomials, make_sumcheck_polynomial-sum,
}
use sxt_proof_of_sql.Proof.ProofBuilder.Zero.{make_sumcheck_polynomial-zero}

abbrev some_point : List Five
some_point = m2 ∷ m4 ∷ m3 ∷ []

valid-IsValid_example :
    (valid (Indexes.sparse (1 ∷ 4 ∷ 6 ∷ [])) 7 ≡ true) ↔ IsValid 7 (Indexes.sparse (1 ∷ 4 ∷ 6 ∷ []))
valid-IsValid_example = valid-IsValid (Indexes.sparse (1 ∷ 4 ∷ 6 ∷ [])) 7

valid_runs :
    (valid (Indexes.sparse (1 ∷ 4 ∷ 6 ∷ [])) 7 ≡ true)
    × (valid (Indexes.sparse (1 ∷ 4 ∷ 4 ∷ [])) 7 ≡ false)
    × (valid (Indexes.dense 2 2) 7 ≡ false)
unfolding valid
valid_runs = (refl, refl, refl)

range_valid : valid (Indexes.dense 1 4) 5 ≡ true
unfolding valid
range_valid = refl

evaluate_at_point-indicator_example :
    evaluate_at_point (Indexes.dense 1 4) some_point ≡ ok (indicator (Indexes.dense 1 4) some_point)
evaluate_at_point-indicator_example =
    evaluate_at_point-indicator (Indexes.dense 1 4) 5 some_point range_valid (omega arith)

abbrev some_random_scalars : SumcheckRandomScalars Five
some_random_scalars = record {
  entrywise_point = m3 ∷ m0 ∷ m2 ∷ [];
  subpolynomial_multipliers = m4 ∷ [];
  table_length = 5;
}

new_mle_evaluations-values_example :
    (compute_entrywise_multipliers some_random_scalars
      ≡ ok (tabulate 0 5 (weight (m3 ∷ m0 ∷ m2 ∷ []))))
    × (new_mle_evaluations 5 some_point some_random_scalars
          (m1 ∷ m4 ∷ [])
          (m2 ∷ [])
          (Indexes.dense 1 4)
        ≡ ok (record {
          table_length = 5;
          num_sumcheck_variables = 3;
          one_evaluation = sum_to 5 (weight some_point);
          result_indexes_evaluation = indicator (Indexes.dense 1 4) some_point;
          random_evaluation = sum_to 5 (weight_product some_point (m3 ∷ m0 ∷ m2 ∷ []));
          pre_result_evaluations = m1 ∷ m4 ∷ [];
          result_evaluations = m2 ∷ [];
        }))
new_mle_evaluations-values_example =
    new_mle_evaluations-values some_random_scalars some_point (m1 ∷ m4 ∷ []) (m2 ∷ [])
      (Indexes.dense 1 4) refl (omega arith) range_valid

abbrev some_mles : SumcheckMleEvaluations Five
some_mles = record {
  table_length = 5;
  num_sumcheck_variables = 3;
  one_evaluation = m1;
  result_indexes_evaluation = none;
  random_evaluation = m2;
  pre_result_evaluations = m4 ∷ [];
  result_evaluations = [];
}

-- The builder before and after its two steps; a commitment is a number, and so is a distribution.
abbrev before : VerificationBuilder ℕ Five ℕ
before = record {
  mle_evaluations = some_mles;
  generator_offset = 0;
  intermediate_commitments = [];
  subpolynomial_multipliers = m2 ∷ [];
  inner_product_multipliers = m3 ∷ [];
  sumcheck_evaluation = m0;
  bit_distributions = [];
  pre_result_commitments = [];
  folded_pre_result_evaluation = m0;
  consumed_result_mles = 0;
  consumed_pre_result_mles = 0;
  consumed_intermediate_mles = 0;
  produced_subpolynomials = 0;
  post_result_challenges = [];
}

abbrev between : VerificationBuilder ℕ Five ℕ
between = record before {
  pre_result_commitments = 7 ∷ [];
  folded_pre_result_evaluation = m2;
  consumed_pre_result_mles = 1;
}

abbrev after : VerificationBuilder ℕ Five ℕ
after = record between { sumcheck_evaluation = m3; produced_subpolynomials = 1 }

unfoldable two_steps : Run before after
unfolding consume_anchored_mle produce_sumcheck_subpolynomial_evaluation
two_steps =
    Run.next {u = between} (Run.next {u = before} Run.here (Step.anchored 7 m4 refl))
      (Step.subpolynomial m4 refl)

-- The values and the commitments of the run.
two_steps_values : (produced_in two_steps ≡ m4 ∷ []) × (committed_in two_steps ≡ 7 ∷ [])
unfolding two_steps
two_steps_values = (refl, refl)

-- Three columns with the constraint that the third is the product of the first two, and a column
-- that sums to zero.
abbrev some_slices : ℕ → List Five
some_slices zero = m1 ∷ m2 ∷ m3 ∷ []
some_slices (suc zero) = m2 ∷ m2 ∷ m1 ∷ []
some_slices (suc (suc zero)) = m2 ∷ m4 ∷ m3 ∷ []
some_slices (suc (suc (suc i))) = m1 ∷ m4 ∷ []

abbrev slice : ℕ → MultilinearExtension Five
slice i = record { id = i; values = some_slices i }

abbrev some_subpolynomials : List (SumcheckSubpolynomial Five)
some_subpolynomials =
    record {
      terms = (m1, slice 0 ∷ slice 1 ∷ []) ∷ (m4, slice 2 ∷ []) ∷ [];
      subpolynomial_type = SumcheckSubpolynomialType.identity;
    }
    ∷ record {
      terms = (m3, slice 3 ∷ []) ∷ [];
      subpolynomial_type = SumcheckSubpolynomialType.zero_sum;
    }
    ∷ []

abbrev some_builder : ProofBuilder Five ℕ ℕ
some_builder = record {
  table_length = 3;
  num_sumcheck_variables = 2;
  bit_distributions = [];
  commitment_descriptor = [];
  pre_result_mles = [];
  sumcheck_subpolynomials = some_subpolynomials;
  post_result_challenges = [];
}

abbrev more_random_scalars : SumcheckRandomScalars Five
more_random_scalars = record {
  entrywise_point = m3 ∷ m4 ∷ [];
  subpolynomial_multipliers = m2 ∷ m3 ∷ [];
  table_length = 3;
}

some_subpolynomials-AreSubpolynomials : AreSubpolynomials some_slices 3 some_subpolynomials
some_subpolynomials-AreSubpolynomials = (
  ((tt, ((refl, omega arith), ((refl, omega arith), tt))), ((tt, ((refl, omega arith), tt)), tt)),
  (((omega arith, ((refl, omega arith), tt)), tt), tt),
)

row_holds :
    (b : ℕ) → b < 3 → terms_row b ((m1, slice 0 ∷ slice 1 ∷ []) ∷ (m4, slice 2 ∷ []) ∷ []) ≡ m0
row_holds zero h = refl
row_holds (suc zero) h = refl
row_holds (suc (suc zero)) h = refl
row_holds (suc (suc (suc b))) h = absurd (omega arith)

sum_holds : sum_to 4 (λ b. terms_row b ((m3, slice 3 ∷ []) ∷ [])) ≡ m0
unfolding sum_to
sum_holds = refl

make_sumcheck_polynomial-sum_example :
    (p : CompositePolynomial Five) × (make_sumcheck_polynomial some_builder more_random_scalars
      ≡ ok p)
    × (hypercube_sum p
        ≡ sum_to 4 (λ b.
          combined_row
            (m2 ∷ m3 ∷ [])
            some_subpolynomials
            (at (tabulate 0 3 (weight (m3 ∷ m4 ∷ []))) b)
            b))
make_sumcheck_polynomial-sum_example =
    make_sumcheck_polynomial-sum some_builder more_random_scalars some_slices refl (omega arith)
      some_subpolynomials-AreSubpolynomials

make_sumcheck_polynomial-zero_example :
    (p : CompositePolynomial Five) × (make_sumcheck_polynomial some_builder more_random_scalars
      ≡ ok p)
    × (hypercube_sum p ≡ m0)
make_sumcheck_polynomial-zero_example =
    make_sumcheck_polynomial-zero some_builder more_random_scalars some_slices refl (omega arith)
      some_subpolynomials-AreSubpolynomials (row_holds, (sum_holds, tt))

abbrev builder_of_mles : ProofBuilder Five ℕ ℕ
builder_of_mles = record some_builder { pre_result_mles = slice 0 ∷ slice 3 ∷ [] }

fold_pre_result_mles-inner_product_example :
    (folded : List Five) × (fold_pre_result_mles builder_of_mles (m2 ∷ m3 ∷ []) ≡ ok folded)
    × (length folded ≡ 3)
    × (inner_product (m4 ∷ m1 ∷ m2 ∷ m3 ∷ []) folded
        ≡ inner_product
            (m2 ∷ m3 ∷ [])
            (evaluate_pre_result_mles builder_of_mles (m4 ∷ m1 ∷ m2 ∷ m3 ∷ [])))
fold_pre_result_mles-inner_product_example =
    fold_pre_result_mles-inner_product builder_of_mles (m2 ∷ m3 ∷ []) (m4 ∷ m1 ∷ m2 ∷ m3 ∷ []) refl
      (omega arith, (omega arith, tt))
