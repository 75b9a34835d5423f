-- ===== src/Proof/ProofBuilder.antt =====
-- crates/proof-of-sql/src/sql/proof/proof_builder.rs. An operation gives the new state; `B` are the
-- bit distributions and `C` the committable columns, which are kept.
pub mod Sum
pub mod Zero
pub mod Fold
use sxt_proof_of_sql.Shared.{
  ℕ, Option, none, some, List, [], ◌∷◌, ◌++◌, length, replicate, ◌==◌, if◌then◌else◌, Result, ok,
  panic, ◌>>=◌, expect_some,
}
use sxt_proof_of_sql.Scalar.{Scalar}
use sxt_proof_of_sql.Polynomial.Composite.{CompositePolynomial}
use sxt_proof_of_sql.Polynomial.MultilinearExtension.{
  MultilinearExtension, mle_inner_product, mul_add,
}
use sxt_proof_of_sql.Proof.MleEvaluations.{SumcheckRandomScalars, compute_entrywise_multipliers}
use sxt_proof_of_sql.Proof.VerificationBuilder.{pop}
use sxt_proof_of_sql.Proof.CompositePolynomialBuilder.{
  CompositePolynomialBuilder, SumcheckSubpolynomialType, SumcheckSubpolynomial, builder_new,
  compose, make_composite_polynomial,
}

pub record ProofBuilder (S B C : Type 0) : Type 0 where
  pub table_length : ℕ
  pub num_sumcheck_variables : ℕ
  pub bit_distributions : List B
  pub commitment_descriptor : List C
  pub pre_result_mles : List (MultilinearExtension S)
  pub sumcheck_subpolynomials : List (SumcheckSubpolynomial S)
  pub post_result_challenges : List S

module _ {S B C : Type 0} where
  unfoldable pub proof_builder_new : ℕ → ℕ → List S → ProofBuilder S B C
  proof_builder_new table_length num_sumcheck_variables post_result_challenges = record {
    table_length = table_length;
    num_sumcheck_variables = num_sumcheck_variables;
    bit_distributions = [];
    commitment_descriptor = [];
    pre_result_mles = [];
    sumcheck_subpolynomials = [];
    post_result_challenges = post_result_challenges;
  }

  unfoldable pub produce_bit_distribution : ProofBuilder S B C → B → ProofBuilder S B C
  produce_bit_distribution v dist = record v {
    bit_distributions = v.bit_distributions ++ (dist ∷ []);
  }

  unfoldable pub produce_anchored_mle :
      ProofBuilder S B C → MultilinearExtension S → ProofBuilder S B C
  produce_anchored_mle v data' = record v { pre_result_mles = v.pre_result_mles ++ (data' ∷ []) }

  -- The data as an extension and as a committable column.
  unfoldable pub produce_intermediate_mle :
      ProofBuilder S B C → MultilinearExtension S → C → ProofBuilder S B C
  unfolding produce_anchored_mle
  produce_intermediate_mle v data' column =
      produce_anchored_mle
        (record v { commitment_descriptor = v.commitment_descriptor ++ (column ∷ []) }) data'

  unfoldable pub produce_sumcheck_subpolynomial :
      ProofBuilder S B C
      → SumcheckSubpolynomialType
      → List (S × List (MultilinearExtension S))
      → ProofBuilder S B C
  produce_sumcheck_subpolynomial v subpolynomial_type terms = record v {
    sumcheck_subpolynomials =
        v.sumcheck_subpolynomials
        ++ (record { terms = terms; subpolynomial_type = subpolynomial_type } ∷ []);
  }

  unfoldable pub pop_post_result_challenge :
      ProofBuilder S B C → Result (Unit {0}) (ProofBuilder S B C × S)
  pop_post_result_challenge v = expect_some (pop v.post_result_challenges) >>= λ popped.
      ok (record v { post_result_challenges = popped.1 }, popped.0)

module _ {S : Type 0} ⦃s : Scalar S⦄ where
  -- The loop over the multipliers and the subpolynomials; the longer list is cut.
  unfoldable pub compose_all :
      List S
      → List (SumcheckSubpolynomial S)
      → CompositePolynomialBuilder S
      → Result (Unit {0}) (CompositePolynomialBuilder S)
  unfolding compose
  compose_all [] subpolynomials v = ok v
  compose_all (multiplier ∷ multipliers) [] v = ok v
  compose_all (multiplier ∷ multipliers) (p ∷ subpolynomials) v =
      compose p v multiplier >>= λ composed. compose_all multipliers subpolynomials composed

  unfoldable pub evaluate_mles : List (MultilinearExtension S) → List S → List S
  unfolding mle_inner_product
  evaluate_mles [] evaluation_vec = []
  evaluate_mles (m ∷ mles) evaluation_vec =
      mle_inner_product m evaluation_vec ∷ evaluate_mles mles evaluation_vec

  unfoldable pub fold_mles :
      List S → List (MultilinearExtension S) → List S → Result (Unit {0}) (List S)
  unfolding mul_add
  fold_mles [] mles res = ok res
  fold_mles (multiplier ∷ multipliers) [] res = ok res
  fold_mles (multiplier ∷ multipliers) (m ∷ mles) res =
      mul_add m res multiplier >>= λ added. fold_mles multipliers mles added

module _ {S B C : Type 0} ⦃s : Scalar S⦄ where
  unfoldable pub make_sumcheck_polynomial :
      ProofBuilder S B C → SumcheckRandomScalars S → Result (Unit {0}) (CompositePolynomial S)
  unfolding compute_entrywise_multipliers compose_all make_composite_polynomial
  make_sumcheck_polynomial v scalars = compute_entrywise_multipliers scalars >>= λ fr.
      builder_new v.num_sumcheck_variables fr >>= λ builder.
      compose_all scalars.subpolynomial_multipliers v.sumcheck_subpolynomials builder
      >>= λ composed. make_composite_polynomial composed

  unfoldable pub evaluate_pre_result_mles : ProofBuilder S B C → List S → List S
  unfolding evaluate_mles
  evaluate_pre_result_mles v evaluation_vec = evaluate_mles v.pre_result_mles evaluation_vec

  unfoldable pub fold_pre_result_mles : ProofBuilder S B C → List S → Result (Unit {0}) (List S)
  unfolding fold_mles
  fold_pre_result_mles v multipliers =
      if length multipliers == length v.pre_result_mles
      then fold_mles multipliers v.pre_result_mles (replicate v.table_length s.zero)
      else panic
