-- ===== src/Sumcheck/Accepts.antt =====
-- The verifier of crates/proof-of-sql/src/proof_primitive/sumcheck/proof.rs on the proof that
-- `create` makes.
use sxt_proof_of_sql.Shared.{
  ℕ, zero, suc, ◌^◌, ◌<◌, ◌≡◌, ◌≢◌, refl, sym, subst, ap, ◌∙◌, arith, none, List, [], ◌∷◌, length,
  take, All-map, ok, lt→ltb, ==_iff,
}
use sxt_proof_of_sql.Scalar.{Scalar}
use sxt_proof_of_sql.Scalar.Naturals.{CharacteristicAbove}
use sxt_proof_of_sql.Polynomial.Composite.{CompositePolynomial, info, evaluate}
use sxt_proof_of_sql.Sumcheck.Prover.{ProverState, create_state, receive}
use sxt_proof_of_sql.Sumcheck.Protocol.{
  TranscriptProtocol, check_rounds, create_rounds, draw_challenges, create_subclaim, create,
  verify_without_evaluation,
}
use sxt_proof_of_sql.Sumcheck.Fixing.{IsReady}
use sxt_proof_of_sql.Sumcheck.Values.{sum_of_values, value_at}
use sxt_proof_of_sql.Sumcheck.Complete.{sum_at, Accepted, rounds-Accepted}
use sxt_proof_of_sql.Sumcheck.Evaluation.{
  IsWellFormed, hypercube_sum, hypercube_sum-sum_of_values, evaluate-value_at,
}

take-all : {A : Type 0} (n : ℕ) (xs : List A) → length xs ≡ n → take n xs ≡ xs
take-all zero [] e = refl
take-all zero (x ∷ xs) e = absurd (omega arith)
take-all (suc n) [] e = absurd (omega arith)
take-all (suc n) (x ∷ xs) e = ap (λ l. x ∷ l) (take-all n xs (omega arith))

module _ {S : Type 0} ⦃s : Scalar S⦄ where
  unfoldable pub first_state : CompositePolynomial S → ProverState S
  first_state p = record {
    randomness = [];
    list_of_products = p.products;
    flattened_ml_extensions = p.flattened_ml_extensions;
    num_vars = p.num_variables;
    max_multiplicands = p.max_multiplicands;
    round = 0;
  }

  create_state-first :
      (p : CompositePolynomial S) → 0 < p.num_variables → create_state p ≡ ok (first_state p)
  unfolding create_state first_state
  create_state-first p pos = ground arith

  first_state-IsReady :
      (p : CompositePolynomial S) → IsWellFormed p → IsReady p.num_variables (first_state p)
  unfolding first_state
  first_state-IsReady p w = record {
    rounds = omega arith;
    drawn = refl;
    long = All-map (λ t e. omega (arith, e)) p.flattened_ml_extensions w.sizes;
    in_range = w.in_range;
    of_degree = w.of_degree;
  }

  receive-first : (p : CompositePolynomial S) → receive (first_state p) none ≡ ok (first_state p)
  unfolding receive first_state
  receive-first p = refl

  module _ (one_nonzero : s.one ≢ s.zero) (t : TranscriptProtocol S) where
    pub first_rounds-Accepted :
        (p : CompositePolynomial S) (slots : List S) (transcript : t.Transcript)
        → IsWellFormed p
        → CharacteristicAbove s p.max_multiplicands
        → length slots ≡ p.num_variables
        → Accepted one_nonzero t slots none
            (first_state p)
            transcript
            p.max_multiplicands
            (hypercube_sum p)
            (value_at p.flattened_ml_extensions p.products)
    unfolding sum_at first_state
    first_rounds-Accepted p [] transcript w c e = absurd (omega (arith, w.has_variables))
    first_rounds-Accepted p (x ∷ slots) transcript w c e =
        rounds-Accepted one_nonzero t x slots none (first_state p) (first_state p) transcript
          (hypercube_sum p) w.has_degree c (receive-first p)
          (subst (λ n. IsReady n (first_state p)) (sym e) (first_state-IsReady p w))
          (ap (λ n. sum_of_values p.flattened_ml_extensions (2 ^ n) p.products) e
            ∙ hypercube_sum-sum_of_values p)

    pub create-rounds :
        (p : CompositePolynomial S) (slots : List S) (transcript : t.Transcript)
        → 0 < p.num_variables
        → length slots ≡ p.num_variables
        → create t transcript slots p
          ≡ create_rounds t slots none
              (first_state p)
              (t.append_sumcheck transcript p.max_multiplicands p.num_variables)
    unfolding create
    create-rounds p slots transcript pos e = rw (
      (==_iff (length slots) p.num_variables).1 e,
      create_state-first p pos,
      take-all p.num_variables slots e,
    )

    verify-rounds :
        (p : CompositePolynomial S) (evaluations : List (List S)) (point : List S)
        (claimed final : S) (transcript after : t.Transcript)
        → 0 < p.max_multiplicands
        → length evaluations ≡ p.num_variables
        → length point ≡ length evaluations
        → draw_challenges t
            (t.append_sumcheck transcript p.max_multiplicands p.num_variables)
            evaluations
          ≡ (point, after)
        → check_rounds p.max_multiplicands claimed point evaluations ≡ ok final
        → verify_without_evaluation t evaluations transcript (info p) claimed
          ≡ (ok (record { evaluation_point = point; expected_evaluation = final }), after)
    unfolding verify_without_evaluation create_subclaim info
    verify-rounds p evaluations point claimed final transcript after pos count size drawn checked =
        rw (
          (==_iff (length evaluations) p.num_variables).1 count,
          drawn,
          lt→ltb 0 p.max_multiplicands pos,
          (==_iff (length point) (length evaluations)).1 size,
          checked,
        )

    -- Completeness of the sumcheck: for a polynomial whose tables have an entry for each row, whose
    -- products name tables that there are and have no more factors than the degree, with a variable
    -- and a degree above zero, in a field of a characteristic above the degree, and for an
    -- evaluation point with a place for each variable, `SumcheckProof::create` gives a proof and a
    -- point, and `verify_without_evaluation` accepts the proof for the sum over all rows: its
    -- subclaim is the same point with the value of the polynomial there, as
    -- `CompositePolynomial::evaluate` computes it. Both leave the same transcript.
    pub create-verify_without_evaluation :
        (p : CompositePolynomial S) (slots : List S) (transcript : t.Transcript)
        → IsWellFormed p
        → CharacteristicAbove s p.max_multiplicands
        → length slots ≡ p.num_variables
        → (evaluations : List (List S)) × (point : List S) × (value : S) × (after : t.Transcript)
          × (create t transcript slots p ≡ ok (evaluations, point, after))
          × (length point ≡ p.num_variables)
          × (evaluate p point ≡ ok value)
          × (verify_without_evaluation t evaluations transcript (info p) (hypercube_sum p)
              ≡ (ok (record { evaluation_point = point; expected_evaluation = value }), after))
    create-verify_without_evaluation p slots transcript w c e =
        let (evaluations, point, after, created, size, count, drawn, checked) =
          first_rounds-Accepted p slots
            (t.append_sumcheck transcript p.max_multiplicands p.num_variables) w c e in
        (
          evaluations,
          point,
          value_at p.flattened_ml_extensions p.products point,
          after,
          create-rounds p slots transcript w.has_variables e ∙ created,
          size ∙ e,
          evaluate-value_at p point w (size ∙ e),
          verify-rounds p evaluations point (hypercube_sum p) _ transcript after w.has_degree
              (count ∙ e) (size ∙ sym count) drawn checked,
        )
