-- ===== src/Sumcheck/Rejects.antt =====
-- The verifier of crates/proof-of-sql/src/proof_primitive/sumcheck/proof.rs on other proofs and
-- claims.
use sxt_proof_of_sql.Shared.{
  ℕ, suc, ◌+◌, ◌<◌, ◌≡◌, ◌≢◌, ◌⊎◌, inl, inr, refl, sym, ap, ap₂, ◌∙◌, arith, true, Bool-cases,
  Option, none, some, List, [], ◌∷◌, length, get_elem?, tabulate, Result, ok, err, >>=-eq-ok,
  lt→ltb, ◌==◌, ==_iff,
}
use sxt_proof_of_sql.Scalar.{Scalar, ◌⊕◌}
use sxt_proof_of_sql.Scalar.Naturals.{CharacteristicAbove}
use sxt_proof_of_sql.Polynomial.Composite.{CompositePolynomial, CompositePolynomialInfo, info}
use sxt_proof_of_sql.Polynomial.Interpolate.{interpolate_uni_poly}
use sxt_proof_of_sql.Polynomial.Interpolate.Correct.{interpolate_uni_poly-tabulate}
use sxt_proof_of_sql.Sumcheck.Protocol.{
  TranscriptProtocol, ProofError, check_round, check_rounds, draw_challenges, create_subclaim,
  create, verify_without_evaluation,
}
use sxt_proof_of_sql.Sumcheck.Tables.{at, get_elem?-at}
use sxt_proof_of_sql.Sumcheck.Evaluation.{IsWellFormed, hypercube_sum}
use sxt_proof_of_sql.Sumcheck.Accepts.{create-rounds, first_rounds-Accepted}

-- `ok` or `err`, no panic.
abbrev pub Returns : {E A : Type 0} → Result E A → Type 0
Returns {E} {A} r = ((x : A) × (r ≡ ok x)) ⊎ ((e : E) × (r ≡ err e))

module _ {S : Type 0} ⦃s : Scalar S⦄ where
  tabulate-at :
      (i : ℕ) (xs : List S) (f : ℕ → S)
      → ((k : ℕ) → k < length xs → f (i + k) ≡ at xs k)
      → tabulate i (length xs) f ≡ xs
  tabulate-at i [] f h = refl
  tabulate-at i (x ∷ xs) f h =
      ap₂ (λ y l. y ∷ l) (ap f {x = i} {y = i + 0} (omega arith) ∙ h 0 (omega arith))
        (tabulate-at (suc i) xs f
          λ k lt. ap f {x = suc i + k} {y = i + suc k} (omega arith) ∙ h (suc k) (omega arith))

  module _ (one_nonzero : s.one ≢ s.zero) where
    interpolate_uni_poly-total :
        (d : ℕ) (e : List S) (x : S)
        → length e ≡ suc d
        → CharacteristicAbove s d
        → (y : S) × (interpolate_uni_poly e x ≡ ok y)
    interpolate_uni_poly-total d e x size c =
        let same : tabulate 0 (suc d) (at e) ≡ e =
          ap (λ n. tabulate 0 n (at e)) (sym size)
          ∙ tabulate-at 0 e (at e) (λ k lt. ap (at e) {x = 0 + k} {y = k} (omega arith)) in
        elim (interpolate_uni_poly-tabulate one_nonzero d (at e) x c) [
          | inl (j, _, known) ↦ (_, ap (λ l. interpolate_uni_poly l x) (sym same) ∙ known)
          | inr (_, value) ↦ (_, ap (λ l. interpolate_uni_poly l x) (sym same) ∙ value)
        ]

    check_round-Returns :
        (d : ℕ) (claimed r : S) (e : List S)
        → 0 < d
        → CharacteristicAbove s d
        → Returns (check_round d claimed r e)
    unfolding check_round
    check_round-Returns d claimed r e pos c = elim (Bool-cases (length e == d + 1)) [
      | inr other ↦ inr (ProofError.round_evaluation_length, rw other)
      | inl same ↦
          let size : length e ≡ suc d = omega (arith, (==_iff (length e) (d + 1)).0 same) in
          let (y, value) = interpolate_uni_poly-total d e r size c in
          elim (Bool-cases (s.is_equal claimed (at e 0 ⊕ at e 1))) [
            | inl holds ↦ inl (
              y,
              rw (
                same,
                get_elem?-at e 0 (omega arith),
                get_elem?-at e 1 (omega arith),
                holds,
                value,
              ),
            )
            | inr fails ↦ inr (
              ProofError.round_evaluation_sum,
              rw (same, get_elem?-at e 0 (omega arith), get_elem?-at e 1 (omega arith), fails),
            )
          ]
    ]

    check_rounds-Returns :
        (d : ℕ) (claimed : S) (point : List S) (evaluations : List (List S))
        → 0 < d
        → CharacteristicAbove s d
        → length point ≡ length evaluations
        → Returns (check_rounds d claimed point evaluations)
    unfolding check_rounds
    check_rounds-Returns d claimed [] evaluations pos c h = inl (claimed, refl)
    check_rounds-Returns d claimed (r ∷ point) [] pos c h = absurd (omega arith)
    check_rounds-Returns d claimed (r ∷ point) (e ∷ evaluations) pos c h =
        elim (check_round-Returns d claimed r e pos c) [
          | inr (problem, found) ↦ inr (problem, rw found)
          | inl (next, found) ↦
              elim (check_rounds-Returns d next point evaluations pos c (omega arith)) [
                | inl (y, rest) ↦ inl (y, rw (found, rest))
                | inr (problem, rest) ↦ inr (problem, rw (found, rest))
              ]
        ]

    module _ (t : TranscriptProtocol S) where
      length-draw_challenges :
          (transcript : t.Transcript) (evaluations : List (List S))
          → length (draw_challenges t transcript evaluations).0 ≡ length evaluations
      unfolding draw_challenges
      length-draw_challenges transcript [] = refl
      length-draw_challenges transcript (e ∷ evaluations) =
          ap suc (length-draw_challenges (t.challenge (t.append_round transcript e)).1 evaluations)

      -- Whatever evaluations a proof holds, and for every claim and transcript,
      -- `verify_without_evaluation` returns a subclaim or an error and never panics, where the degree
      -- is above zero and below the characteristic of the field.
      pub verify_without_evaluation-Returns :
          (evaluations : List (List S)) (transcript : t.Transcript) (i : CompositePolynomialInfo)
          (claimed : S)
          → 0 < i.max_multiplicands
          → CharacteristicAbove s i.max_multiplicands
          → Returns (verify_without_evaluation t evaluations transcript i claimed).0
      unfolding verify_without_evaluation create_subclaim
      verify_without_evaluation-Returns evaluations transcript i claimed pos c =
          elim (Bool-cases (length evaluations == i.num_variables)) [
            | inr other ↦ inr (ProofError.invalid_number_of_evaluations, rw other)
            | inl same ↦
                let started = t.append_sumcheck transcript i.max_multiplicands i.num_variables in
                let size = length-draw_challenges started evaluations in
                elim (check_rounds-Returns i.max_multiplicands claimed
                  (draw_challenges t started evaluations).0 evaluations pos c size) [
                    | inl (y, rest) ↦ inl (
                      record {
                        evaluation_point = (draw_challenges t started evaluations).0;
                        expected_evaluation = y;
                      },
                      rw (
                        same,
                        lt→ltb 0 i.max_multiplicands pos,
                        (==_iff _ (length evaluations)).1 size,
                        rest,
                      ),
                    )
                    | inr (problem, rest) ↦ inr (
                      problem,
                      rw (
                        same,
                        lt→ltb 0 i.max_multiplicands pos,
                        (==_iff _ (length evaluations)).1 size,
                        rest,
                      ),
                    )
                  ]
          ]

  -- A round that one claim passes rejects every other claim.
  check_round-other :
      (d : ℕ) (claimed other r : S) (e : List S) (y : S)
      → other ≢ claimed
      → check_round d claimed r e ≡ ok y
      → check_round d other r e ≡ err ProofError.round_evaluation_sum
  unfolding check_round
  check_round-other d claimed other r e y differs h = elim (Bool-cases (length e == d + 1)) [
    | inr long ↦ absurd (cc (rw long at h))
    | inl same ↦ values same (get_elem? e 0) (get_elem? e 1) refl refl
  ]
    where
      values :
          (length e == d + 1) ≡ true
          → (first second : Option S) → get_elem? e 0 ≡ first
          → get_elem? e 1 ≡ second
          → check_round d other r e ≡ err ProofError.round_evaluation_sum
      values same none second e0 e1 = absurd (cc (rw (same, e0) at h))
      values same (some a) none e0 e1 = absurd (cc (rw (same, e0, e1) at h))
      values same (some a) (some b) e0 e1 = elim (Bool-cases (s.is_equal claimed (a ⊕ b))) [
        | inr fails ↦ absurd (cc (rw (same, e0, e1, fails) at h))
        | inl holds ↦ elim (Bool-cases (s.is_equal other (a ⊕ b))) [
          | inl too ↦ absurd (
              differs (
                (s.is_equal_iff other (a ⊕ b)).0 too
                ∙ sym ((s.is_equal_iff claimed (a ⊕ b)).0 holds)))
          | inr fails ↦ rw (same, e0, e1, fails)
        ]
      ]

  check_rounds-other :
      (d : ℕ) (claimed other : S) (point : List S) (evaluations : List (List S)) (y : S)
      → 0 < length evaluations
      → length point ≡ length evaluations
      → other ≢ claimed
      → check_rounds d claimed point evaluations ≡ ok y
      → check_rounds d other point evaluations ≡ err ProofError.round_evaluation_sum
  unfolding check_rounds
  check_rounds-other d claimed other point [] y pos size differs h = absurd (omega arith)
  check_rounds-other d claimed other [] (e ∷ evaluations) y pos size differs h =
      absurd (omega arith)
  check_rounds-other d claimed other (r ∷ point) (e ∷ evaluations) y pos size differs h =
      let (next, first, _) = >>=-eq-ok (check_round d claimed r e) _ h in
      rw (check_round-other d claimed other r e next differs first)

  module _ (one_nonzero : s.one ≢ s.zero) (t : TranscriptProtocol S) where
    -- For a polynomial, a field and an evaluation point as in the completeness of the sumcheck, the
    -- proof that `SumcheckProof::create` gives is rejected for every claim but the sum over all
    -- rows, with the error of a round whose values do not add up to it.
    pub create-wrong_claim :
        (p : CompositePolynomial S) (slots : List S) (transcript : t.Transcript) (claimed : S)
        → IsWellFormed p
        → CharacteristicAbove s p.max_multiplicands
        → length slots ≡ p.num_variables
        → claimed ≢ hypercube_sum p
        → (evaluations : List (List S)) × (point : List S) × (after : t.Transcript) × (create t
              transcript slots p
            ≡ ok (evaluations, point, after))
          × (verify_without_evaluation t evaluations transcript (info p) claimed
              ≡ (err ProofError.round_evaluation_sum, after))
    unfolding verify_without_evaluation create_subclaim info
    create-wrong_claim p slots transcript claimed w c e differs =
        let (evaluations, point, after, created, size, count, drawn, checked) =
          first_rounds-Accepted one_nonzero t p slots
            (t.append_sumcheck transcript p.max_multiplicands p.num_variables) w c e in
        (
          evaluations,
          point,
          after,
          create-rounds one_nonzero t p slots transcript w.has_variables e ∙ created,
          rw (
            (==_iff (length evaluations) p.num_variables).1 (count ∙ e),
            drawn,
            lt→ltb 0 p.max_multiplicands w.has_degree,
            (==_iff (length point) (length evaluations)).1 (size ∙ sym count),
            check_rounds-other p.max_multiplicands (hypercube_sum p) claimed point evaluations _
                (omega (arith, count, e, w.has_variables)) (size ∙ sym count) differs checked,
          ),
        )
