-- ===== src/Proof/VerificationBuilder/Steps.antt =====
-- Runs of the operations of crates/proof-of-sql/src/sql/proof/verification_builder.rs in any order,
-- and what they are given.
use sxt_proof_of_sql.Shared.{◌≡◌, Option, none, some, List, [], ◌∷◌, ◌++◌, get_elem?, ok}
use sxt_proof_of_sql.Scalar.{Scalar}
use sxt_proof_of_sql.Proof.VerificationBuilder.{
  VerificationBuilder, consume_anchored_mle, consume_bit_distribution, consume_intermediate_mle,
  consume_result_mle, produce_sumcheck_subpolynomial_evaluation, consume_post_result_challenge,
}

-- No entry or one.
abbrev pub list_of : {A : Type 0} → Option A → List A
list_of none = []
list_of (some a) = a ∷ []

module _ {C S B : Type 0} ⦃s : Scalar S⦄ where
  pub data Step (v w : VerificationBuilder C S B) : Type 0 where
    anchored : (c : C) (x : S) → consume_anchored_mle v c ≡ ok (w, x) → Step v w
    bits : (b : B) → consume_bit_distribution v ≡ ok (w, b) → Step v w
    intermediate : (x : S) → consume_intermediate_mle v ≡ ok (w, x) → Step v w
    result : (x : S) → consume_result_mle v ≡ ok (w, x) → Step v w
    subpolynomial : (x : S) → produce_sumcheck_subpolynomial_evaluation v x ≡ ok w → Step v w
    challenge : (x : S) → consume_post_result_challenge v ≡ ok (w, x) → Step v w

  -- Any number of steps.
  pub data Run (v : VerificationBuilder C S B) : VerificationBuilder C S B → Type 0 where
    here : Run v v
    next : {u w : VerificationBuilder C S B} → Run v u → Step u w → Run v w

  -- The value that a step gives to produce_sumcheck_subpolynomial_evaluation.
  abbrev pub produced_by : (v w : VerificationBuilder C S B) → Step v w → List S
  produced_by v w (Step.anchored c x h) = []
  produced_by v w (Step.bits b h) = []
  produced_by v w (Step.intermediate x h) = []
  produced_by v w (Step.result x h) = []
  produced_by v w (Step.subpolynomial x h) = x ∷ []
  produced_by v w (Step.challenge x h) = []

  -- The commitment that a step takes in: the one it is given, or the next intermediate one.
  abbrev pub committed_by : (v w : VerificationBuilder C S B) → Step v w → List C
  committed_by v w (Step.anchored c x h) = c ∷ []
  committed_by v w (Step.bits b h) = []
  committed_by v w (Step.intermediate x h) =
      list_of (get_elem? v.intermediate_commitments v.consumed_intermediate_mles)
  committed_by v w (Step.result x h) = []
  committed_by v w (Step.subpolynomial x h) = []
  committed_by v w (Step.challenge x h) = []

  -- The same for a run, the first step first.
  abbrev pub produced_in : {v w : VerificationBuilder C S B} → Run v w → List S
  produced_in here = []
  produced_in (next {u} {w} run step) = produced_in run ++ produced_by u w step

  abbrev pub committed_in : {v w : VerificationBuilder C S B} → Run v w → List C
  committed_in here = []
  committed_in (next {u} {w} run step) = committed_in run ++ committed_by u w step
