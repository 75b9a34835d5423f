-- ===== src/Proof/VerificationBuilder.antt =====
-- crates/proof-of-sql/src/sql/proof/verification_builder.rs. An operation gives the new state with
-- its value, or a panic where an index or an assertion fails.
pub mod Steps
pub mod Folded
pub mod Complete
use sxt_proof_of_sql.Shared.{
  ℕ, ◌+◌, Option, none, some, Bool, true, false, ◌&&◌, List, [], ◌∷◌, ◌++◌, length, get_elem?, ◌==◌,
  if◌then◌else◌, Result, ok, panic, ◌>>=◌, expect_some,
}
use sxt_proof_of_sql.Scalar.{Scalar, ◌⊕◌, ◌⊗◌}
use sxt_proof_of_sql.Proof.MleEvaluations.{SumcheckMleEvaluations}

-- `C` are the commitments, `S` their scalars, and `B` the bit distributions, which are passed on.
pub record VerificationBuilder (C S B : Type 0) : Type 0 where
  pub mle_evaluations : SumcheckMleEvaluations S
  pub generator_offset : ℕ
  pub intermediate_commitments : List C
  pub subpolynomial_multipliers : List S
  pub inner_product_multipliers : List S
  pub sumcheck_evaluation : S
  pub bit_distributions : List B
  pub pre_result_commitments : List C
  pub folded_pre_result_evaluation : S
  pub consumed_result_mles : ℕ
  pub consumed_pre_result_mles : ℕ
  pub consumed_intermediate_mles : ℕ
  pub produced_subpolynomials : ℕ
  pub post_result_challenges : List S

unfoldable pub is_empty : {A : Type 0} → List A → Bool
is_empty [] = true
is_empty (x ∷ xs) = false

-- `Vec::pop`: the last entry, and those before it.
unfoldable pub pop_after : {A : Type 0} → A → Option (A × List A) → Option (A × List A)
pop_after x none = some (x, [])
pop_after x (some rest) = some (rest.0, x ∷ rest.1)

unfoldable pub pop : {A : Type 0} → List A → Option (A × List A)
unfolding pop_after
pop [] = none
pop (x ∷ xs) = pop_after x (pop xs)

-- `list[0]` and `list[1..]`
unfoldable pub first_and_rest : {A : Type 0} → List A → Option (A × List A)
first_and_rest [] = none
first_and_rest (x ∷ xs) = some (x, xs)

module _ {C S B : Type 0} ⦃s : Scalar S⦄ where
  unfoldable pub new_builder :
      ℕ
      → SumcheckMleEvaluations S
      → List B
      → List C
      → List S
      → List S
      → List S
      → Result (Unit {0}) (VerificationBuilder C S B)
  new_builder generator_offset mle_evaluations bit_distributions intermediate_commitments
        subpolynomial_multipliers inner_product_multipliers post_result_challenges =
      if length inner_product_multipliers == length mle_evaluations.pre_result_evaluations
      then ok (record {
        mle_evaluations = mle_evaluations;
        generator_offset = generator_offset;
        intermediate_commitments = intermediate_commitments;
        subpolynomial_multipliers = subpolynomial_multipliers;
        inner_product_multipliers = inner_product_multipliers;
        sumcheck_evaluation = s.zero;
        bit_distributions = bit_distributions;
        pre_result_commitments = [];
        folded_pre_result_evaluation = s.zero;
        consumed_result_mles = 0;
        consumed_pre_result_mles = 0;
        consumed_intermediate_mles = 0;
        produced_subpolynomials = 0;
        post_result_challenges = post_result_challenges;
      })
      else panic

  unfoldable pub consume_anchored_mle :
      VerificationBuilder C S B → C → Result (Unit {0}) (VerificationBuilder C S B × S)
  consume_anchored_mle v commitment =
      expect_some (get_elem? v.inner_product_multipliers v.consumed_pre_result_mles)
      >>= λ multiplier.
          expect_some
            (get_elem? v.mle_evaluations.pre_result_evaluations v.consumed_pre_result_mles)
          >>= λ res. ok (
            record v {
              pre_result_commitments = v.pre_result_commitments ++ (commitment ∷ []);
              consumed_pre_result_mles = v.consumed_pre_result_mles + 1;
              folded_pre_result_evaluation = v.folded_pre_result_evaluation ⊕ multiplier ⊗ res;
            },
            res,
          )

  unfoldable pub consume_bit_distribution :
      VerificationBuilder C S B → Result (Unit {0}) (VerificationBuilder C S B × B)
  unfolding first_and_rest
  consume_bit_distribution v = expect_some (first_and_rest v.bit_distributions) >>= λ split.
      ok (record v { bit_distributions = split.1 }, split.0)

  unfoldable pub consume_intermediate_mle :
      VerificationBuilder C S B → Result (Unit {0}) (VerificationBuilder C S B × S)
  consume_intermediate_mle v =
      expect_some (get_elem? v.intermediate_commitments v.consumed_intermediate_mles)
      >>= λ commitment.
          consume_anchored_mle
            (record v { consumed_intermediate_mles = v.consumed_intermediate_mles + 1 }) commitment

  unfoldable pub consume_result_mle :
      VerificationBuilder C S B → Result (Unit {0}) (VerificationBuilder C S B × S)
  consume_result_mle v =
      expect_some (get_elem? v.mle_evaluations.result_evaluations v.consumed_result_mles) >>= λ res.
      ok (record v { consumed_result_mles = v.consumed_result_mles + 1 }, res)

  unfoldable pub produce_sumcheck_subpolynomial_evaluation :
      VerificationBuilder C S B → S → Result (Unit {0}) (VerificationBuilder C S B)
  produce_sumcheck_subpolynomial_evaluation v eval =
      expect_some (get_elem? v.subpolynomial_multipliers v.produced_subpolynomials)
      >>= λ multiplier. ok (record v {
        sumcheck_evaluation = v.sumcheck_evaluation ⊕ multiplier ⊗ eval;
        produced_subpolynomials = v.produced_subpolynomials + 1;
      })

  unfoldable pub consume_post_result_challenge :
      VerificationBuilder C S B → Result (Unit {0}) (VerificationBuilder C S B × S)
  consume_post_result_challenge v = expect_some (pop v.post_result_challenges) >>= λ popped.
      ok (record v { post_result_challenges = popped.1 }, popped.0)

  unfoldable pub completed : VerificationBuilder C S B → Bool
  completed v =
      is_empty v.bit_distributions
      && v.produced_subpolynomials == length v.subpolynomial_multipliers
      && v.consumed_intermediate_mles == length v.intermediate_commitments
      && v.consumed_pre_result_mles == length v.mle_evaluations.pre_result_evaluations
      && v.consumed_result_mles == length v.mle_evaluations.result_evaluations
      && is_empty v.post_result_challenges

  unfoldable pub sumcheck_evaluation : VerificationBuilder C S B → Result (Unit {0}) S
  sumcheck_evaluation v = if completed v then ok v.sumcheck_evaluation else panic

  unfoldable pub pre_result_commitments : VerificationBuilder C S B → Result (Unit {0}) (List C)
  pre_result_commitments v = if completed v then ok v.pre_result_commitments else panic

  unfoldable pub inner_product_multipliers : VerificationBuilder C S B → Result (Unit {0}) (List S)
  inner_product_multipliers v = if completed v then ok v.inner_product_multipliers else panic

  unfoldable pub folded_pre_result_evaluation : VerificationBuilder C S B → Result (Unit {0}) S
  folded_pre_result_evaluation v = if completed v then ok v.folded_pre_result_evaluation else panic
