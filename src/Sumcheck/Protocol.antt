-- ===== src/Sumcheck/Protocol.antt =====
-- crates/proof-of-sql/src/proof_primitive/sumcheck/proof.rs and subclaim.rs. The transcript of the
-- crate `merlin` is a parameter; nothing is asked of it.
use sxt_proof_of_sql.Shared.{
  ℕ, ◌+◌, Option, none, some, List, [], ◌∷◌, length, get_elem?, take, if◌then◌else◌, ltb, ◌==◌,
  Result, ok, err, panic, ◌>>=◌, expect, expect_some,
}
use sxt_proof_of_sql.Scalar.{Scalar, ◌⊕◌}
use sxt_proof_of_sql.Polynomial.Composite.{CompositePolynomial, CompositePolynomialInfo}
use sxt_proof_of_sql.Polynomial.Interpolate.{interpolate_uni_poly}
use sxt_proof_of_sql.Sumcheck.Prover.{ProverState, create_state, prove_round}

pub record TranscriptProtocol (S : Type 0) : Type 1 where
  pub Transcript : Type 0
  -- `append_auto(MessageLabel::Sumcheck, (max_multiplicands, num_variables))`
  pub append_sumcheck : Transcript → ℕ → ℕ → Transcript
  -- `append_canonical_serialize(MessageLabel::SumcheckRoundEvaluation, …)`
  pub append_round : Transcript → List S → Transcript
  -- `challenge_scalar_single(MessageLabel::SumcheckChallenge)`
  pub challenge : Transcript → S × Transcript

-- The two messages of `ProofError::VerificationError` of subclaim.rs, and that of proof.rs.
pub data ProofError : Type 0 where
  invalid_number_of_evaluations round_evaluation_length round_evaluation_sum : ProofError

pub record Subclaim (S : Type 0) : Type 0 where
  pub evaluation_point : List S
  pub expected_evaluation : S

module _ {S : Type 0} ⦃s : Scalar S⦄ where
  unfoldable pub check_round : ℕ → S → S → List S → Result ProofError S
  check_round max_multiplicands expected_sum challenge round_evaluation =
      if length round_evaluation == max_multiplicands + 1
      then (expect_some (get_elem? round_evaluation 0) >>= λ at_zero.
          expect_some (get_elem? round_evaluation 1) >>= λ at_one.
          if s.is_equal expected_sum (at_zero ⊕ at_one)
          then expect (interpolate_uni_poly round_evaluation challenge)
          else err ProofError.round_evaluation_sum)
      else err ProofError.round_evaluation_length

  -- The loop over the rounds; the two vectors have one length.
  unfoldable pub check_rounds : ℕ → S → List S → List (List S) → Result ProofError S
  unfolding check_round
  check_rounds max_multiplicands expected_sum [] evaluations = ok expected_sum
  check_rounds max_multiplicands expected_sum (r ∷ point) [] = panic
  check_rounds max_multiplicands expected_sum (r ∷ point) (e ∷ evaluations) =
      check_round max_multiplicands expected_sum r e >>= λ next.
      check_rounds max_multiplicands next point evaluations

  unfoldable pub create_subclaim : List S → List (List S) → ℕ → S → Result ProofError (Subclaim S)
  unfolding check_rounds
  create_subclaim evaluation_point evaluations max_multiplicands claimed_sum =
      if ltb 0 max_multiplicands
      then (if length evaluation_point == length evaluations
          then (check_rounds max_multiplicands claimed_sum evaluation_point evaluations
              >>= λ expected_evaluation. ok (record {
                evaluation_point = evaluation_point;
                expected_evaluation = expected_evaluation;
              }))
          else panic)
      else panic

  module _ (t : TranscriptProtocol S) where
    -- The rounds of `create`, one for each scalar of the evaluation point: the evaluations, the
    -- scalars and the transcript.
    unfoldable pub create_rounds :
        List S
        → Option S
        → ProverState S
        → t.Transcript
        → Result (Unit {0}) (List (List S) × List S × t.Transcript)
    create_rounds [] r state transcript = ok ([], [], transcript)
    create_rounds (scalar ∷ scalars) r state transcript = prove_round state r >>= λ proved.
        let (challenge, next) = t.challenge (t.append_round transcript proved.1) in
        create_rounds scalars (some challenge) proved.0 next >>= λ rest.
        ok (proved.1 ∷ rest.0, challenge ∷ rest.1, rest.2)

    -- The proof is its vectors of evaluations; the evaluation point is written to.
    unfoldable pub create :
        t.Transcript
        → List S
        → CompositePolynomial S
        → Result (Unit {0}) (List (List S) × List S × t.Transcript)
    unfolding create_rounds create_state
    create transcript evaluation_point p =
        if length evaluation_point == p.num_variables
        then (create_state p >>= λ state.
            create_rounds (take p.num_variables evaluation_point) none state
              (t.append_sumcheck transcript p.max_multiplicands p.num_variables))
        else panic

    -- The challenges, and the transcript after them.
    unfoldable pub draw_challenges : t.Transcript → List (List S) → List S × t.Transcript
    draw_challenges transcript [] = ([], transcript)
    draw_challenges transcript (e ∷ evaluations) =
        let (challenge, next) = t.challenge (t.append_round transcript e) in
        let rest = draw_challenges next evaluations in (challenge ∷ rest.0, rest.1)

    unfoldable pub verify_without_evaluation :
        List (List S)
        → t.Transcript
        → CompositePolynomialInfo
        → S
        → Result ProofError (Subclaim S) × t.Transcript
    unfolding draw_challenges create_subclaim
    verify_without_evaluation evaluations transcript info claimed_sum =
        let started = t.append_sumcheck transcript info.max_multiplicands info.num_variables in
        if length evaluations == info.num_variables
        then (let drawn = draw_challenges started evaluations in
            (create_subclaim drawn.0 evaluations info.max_multiplicands claimed_sum, drawn.1))
        else (err ProofError.invalid_number_of_evaluations, started)
