-- ===== src/Proof/MleEvaluations.antt =====
-- crates/proof-of-sql/src/sql/proof/sumcheck_mle_evaluations.rs and sumcheck_random_scalars.rs: the
-- values that a verifier computes at the point of the sumcheck.
use sxt_proof_of_sql.Shared.{
  ℕ, ◌^◌, ◌≤◌, ◌≡◌, refl, arith, true, Option, List, length, take, drop, replicate, tabulate,
  length-replicate, leb, ◌==◌, ==_iff, ◌&&◌, if◌then◌else◌, Result, ok, panic, ◌>>=◌,
}
use sxt_proof_of_sql.Scalar.{Scalar}
use sxt_proof_of_sql.Scalar.Sums.{sum_to}
use sxt_proof_of_sql.Polynomial.Weights.{weight}
use sxt_proof_of_sql.Polynomial.EvaluationVector.{compute_evaluation_vector}
use sxt_proof_of_sql.Polynomial.EvaluationVector.Weighs.{compute_evaluation_vector-weight}
use sxt_proof_of_sql.Polynomial.Lagrange.{
  compute_truncated_lagrange_basis_sum, compute_truncated_lagrange_basis_inner_product,
}
use sxt_proof_of_sql.Polynomial.Lagrange.Sum.{compute_truncated_lagrange_basis_sum-weight}
use sxt_proof_of_sql.Polynomial.Lagrange.InnerProduct.{
  weight_product, compute_truncated_lagrange_basis_inner_product-weight,
}
use sxt_proof_of_sql.Proof.Indexes.{Indexes, valid, evaluate_at_point}
use sxt_proof_of_sql.Proof.Indexes.Evaluation.{indicator, evaluate_at_point-indicator}

pub record SumcheckRandomScalars (S : Type 0) : Type 0 where
  pub entrywise_point : List S
  pub subpolynomial_multipliers : List S
  pub table_length : ℕ

pub record SumcheckMleEvaluations (S : Type 0) : Type 0 where
  pub table_length : ℕ
  pub num_sumcheck_variables : ℕ
  pub one_evaluation : S
  pub result_indexes_evaluation : Option S
  pub random_evaluation : S
  pub pre_result_evaluations : List S
  pub result_evaluations : List S

-- `split_at` panics where the slice is shorter.
unfoldable pub new_random_scalars :
    {S : Type 0} → List S → ℕ → ℕ → Result (Unit {0}) (SumcheckRandomScalars S)
new_random_scalars scalars table_length num_sumcheck_variables =
    if leb num_sumcheck_variables (length scalars)
    then ok (record {
      entrywise_point = take num_sumcheck_variables scalars;
      subpolynomial_multipliers = drop num_sumcheck_variables scalars;
      table_length = table_length;
    })
    else panic

module _ {S : Type 0} ⦃s : Scalar S⦄ where
  unfoldable pub compute_entrywise_multipliers :
      SumcheckRandomScalars S → Result (Unit {0}) (List S)
  compute_entrywise_multipliers scalars =
      compute_evaluation_vector (replicate scalars.table_length s.zero) scalars.entrywise_point

  unfoldable pub new_mle_evaluations :
      ℕ
      → List S
      → SumcheckRandomScalars S
      → List S
      → List S
      → Indexes
      → Result (Unit {0}) (SumcheckMleEvaluations S)
  new_mle_evaluations table_length evaluation_point scalars pre_result_evaluations
        result_evaluations result_indexes =
      if length evaluation_point == length scalars.entrywise_point
        && table_length == scalars.table_length
      then (compute_truncated_lagrange_basis_inner_product table_length evaluation_point
            scalars.entrywise_point
          >>= λ random_evaluation.
              compute_truncated_lagrange_basis_sum table_length evaluation_point
              >>= λ one_evaluation.
                  evaluate_at_point result_indexes evaluation_point >>= λ result_indexes_evaluation.
                  ok (record {
                    table_length = table_length;
                    num_sumcheck_variables = length evaluation_point;
                    one_evaluation = one_evaluation;
                    result_indexes_evaluation = result_indexes_evaluation;
                    random_evaluation = random_evaluation;
                    pre_result_evaluations = pre_result_evaluations;
                    result_evaluations = result_evaluations;
                  }))
      else panic

  -- The prover's entrywise multipliers are the values of the basis at the random point, and the
  -- verifier's random evaluation is the sum of their products with the basis at the point of the
  -- sumcheck: the value there of the extension of the multipliers. For a table that has no more
  -- rows than the variables allow, points of one length, and valid result indexes, `new` never
  -- panics, and its other values are those of the extension of the ones, and of the indexes.
  pub new_mle_evaluations-values :
      (scalars : SumcheckRandomScalars S) (point pre_result result : List S) (ix : Indexes)
      → length point ≡ length scalars.entrywise_point
      → scalars.table_length ≤ 2 ^ length point
      → valid ix scalars.table_length ≡ true
      → (compute_entrywise_multipliers scalars
          ≡ ok (tabulate 0 scalars.table_length (weight scalars.entrywise_point)))
        × (new_mle_evaluations scalars.table_length point scalars pre_result result ix
            ≡ ok (record {
              table_length = scalars.table_length;
              num_sumcheck_variables = length point;
              one_evaluation = sum_to scalars.table_length (weight point);
              result_indexes_evaluation = indicator ix point;
              random_evaluation =
                  sum_to scalars.table_length (weight_product point scalars.entrywise_point);
              pre_result_evaluations = pre_result;
              result_evaluations = result;
            }))
  unfolding compute_entrywise_multipliers new_mle_evaluations
  new_mle_evaluations-values scalars point pre_result result ix same fits valid_ix = (
    rw (
      compute_evaluation_vector-weight (replicate n s.zero) scalars.entrywise_point,
      length-replicate n s.zero,
      ← same,
      in_size n fits,
    ),
    rw (
      (==_iff (length point) (length scalars.entrywise_point)).1 same,
      (==_iff n n).1 refl,
      compute_truncated_lagrange_basis_inner_product-weight n point scalars.entrywise_point same,
      compute_truncated_lagrange_basis_sum-weight n point,
      in_size n fits,
      evaluate_at_point-indicator ix n point valid_ix fits,
    ),
  )
    where
      n : ℕ
      n = scalars.table_length

      in_size : (k : ℕ) → k ≤ 2 ^ length point → leb k (2 ^ length point) ≡ true
      in_size k h = ground arith
