-- ===== src/Sumcheck/Complete.antt =====
-- Completeness of crates/proof-of-sql/src/proof_primitive/sumcheck: the verifier accepts what the
-- prover makes of a true claim, with the value of the polynomial at the point of the challenges.
use sxt_proof_of_sql.Shared.{
  ℕ, suc, ◌+◌, ◌-◌, ◌^◌, ◌<◌, ◌≡◌, ◌≢◌, refl, sym, ap, ◌∙◌, arith, false, Option, some, List, [],
  ◌∷◌, length, get_elem?, get_elem?-tabulate_first, length-tabulate, ok, pow_double, ltb, ==_iff,
}
use sxt_proof_of_sql.Scalar.{Scalar, ◌⊕◌}
use sxt_proof_of_sql.Scalar.Ring.{zero-add}
use sxt_proof_of_sql.Scalar.Naturals.{of_nat, CharacteristicAbove}
use sxt_proof_of_sql.Polynomial.Coefficients.{IsPolynomial}
use sxt_proof_of_sql.Polynomial.Interpolate.{interpolate_uni_poly}
use sxt_proof_of_sql.Polynomial.Interpolate.Correct.{samples, interpolate_uni_poly-samples}
use sxt_proof_of_sql.Sumcheck.Prover.{ProverState, receive, respond, prove_round}
use sxt_proof_of_sql.Sumcheck.Protocol.{
  TranscriptProtocol, check_round, check_rounds, create_rounds, draw_challenges,
}
use sxt_proof_of_sql.Sumcheck.Round.{
  round_polynomial, sum_products-samples, round_polynomial-IsPolynomial,
}
use sxt_proof_of_sql.Sumcheck.Values.{
  sum_of_values, value_at, round_polynomial-ends, round_polynomial-fixed, round_polynomial-last,
  value_at-fixed,
}
use sxt_proof_of_sql.Sumcheck.Fixing.{IsReady, next_round, receive-IsReady}

module _ {S : Type 0} ⦃s : Scalar S⦄ where
  unfoldable pub sum_at : ProverState S → ℕ → S
  sum_at state k = sum_of_values state.flattened_ml_extensions (2 ^ k) state.list_of_products

  polynomial_of : ProverState S → ℕ → S → S
  polynomial_of state k =
      round_polynomial state.flattened_ml_extensions (2 ^ k) state.list_of_products

  respond-IsReady :
      (k : ℕ) (state : ProverState S)
      → IsReady (suc k) state
      → respond state
        ≡ ok (next_round state, samples (suc state.max_multiplicands) (polynomial_of state k))
  unfolding respond next_round polynomial_of
  respond-IsReady k state h = rw (
    in_time (state.round) state.num_vars k h.rounds,
    rows (state.round) state.num_vars k h.rounds,
    sum_products-samples state.flattened_ml_extensions state.max_multiplicands (2 ^ suc k) (2 ^ k)
        state.list_of_products (omega (arith, pow_double k)) h.long h.in_range,
  )
    where
      in_time : (r n k : ℕ) → r + suc k ≡ n → ltb n (r + 1) ≡ false
      in_time r n k e = ground arith

      rows : (r n k : ℕ) → r + suc k ≡ n → n - (r + 1) ≡ k
      rows r n k e = omega arith

  check_round-ok :
      (d : ℕ) (expected r : S) (e : List S) (a b y : S)
      → length e ≡ d + 1
      → get_elem? e 0 ≡ some a
      → get_elem? e 1 ≡ some b
      → a ⊕ b ≡ expected
      → interpolate_uni_poly e r ≡ ok y
      → check_round d expected r e ≡ ok y
  unfolding check_round
  check_round-ok d expected r e a b y size at_zero at_one sum value = rw (
    (==_iff (length e) (d + 1)).1 size,
    at_zero,
    at_one,
    (s.is_equal_iff expected (a ⊕ b)).1 (sym sum),
    value,
  )

  check_rounds-step :
      (d : ℕ) (claimed r : S) (point e : List S) (evaluations : List (List S)) (next final : S)
      → check_round d claimed r e ≡ ok next
      → check_rounds d next point evaluations ≡ ok final
      → check_rounds d claimed (r ∷ point) (e ∷ evaluations) ≡ ok final
  unfolding check_rounds
  check_rounds-step d claimed r point e evaluations next final first rest = rw first rest

  module _ (t : TranscriptProtocol S) where
    -- The challenge after a round, and the transcript.
    drawn_after : t.Transcript → List S → S × t.Transcript
    drawn_after transcript e = t.challenge (t.append_round transcript e)

    create_rounds-step :
        (x : S) (scalars : List S) (r : Option S) (before state state' : ProverState S)
        (transcript : t.Transcript) (e : List S) (evaluations : List (List S)) (point : List S)
        (after : t.Transcript)
        → receive before r ≡ ok state
        → respond state ≡ ok (state', e)
        → create_rounds t scalars
            (some (drawn_after transcript e).0)
            state'
            (drawn_after transcript e).1
          ≡ ok (evaluations, point, after)
        → create_rounds t (x ∷ scalars) r before transcript
          ≡ ok (e ∷ evaluations, (drawn_after transcript e).0 ∷ point, after)
    unfolding create_rounds prove_round drawn_after
    create_rounds-step x scalars r before state state' transcript e evaluations point after received
          sent rest =
        rw (received, sent, rest)

    draw_challenges-step :
        (transcript : t.Transcript) (e : List S) (evaluations : List (List S)) (point : List S)
        (after : t.Transcript)
        → draw_challenges t (drawn_after transcript e).1 evaluations ≡ (point, after)
        → draw_challenges t transcript (e ∷ evaluations)
          ≡ ((drawn_after transcript e).0 ∷ point, after)
    unfolding draw_challenges drawn_after
    draw_challenges-step transcript e evaluations point after rest = rw rest

  module _ (one_nonzero : s.one ≢ s.zero) where
    check_round-samples :
        (d : ℕ) (f : S → S) (expected r : S)
        → 0 < d
        → CharacteristicAbove s d
        → IsPolynomial (suc d) f
        → f s.zero ⊕ f s.one ≡ expected
        → check_round d expected r (samples (suc d) f) ≡ ok (f r)
    unfolding of_nat
    check_round-samples d f expected r pos c p e =
        check_round-ok d expected r (samples (suc d) f) (f s.zero) (f s.one) (f r)
          (omega (arith, length-tabulate 0 (suc d) (λ i. f (of_nat i)))) refl
          (get_elem?-tabulate_first (suc d) 1 (λ i. f (of_nat i)) (omega arith)
            ∙ ap (λ x. some (f x)) (zero-add s.one))
          e (interpolate_uni_poly-samples one_nonzero d f r p c)

    first_check :
        (state : ProverState S) (k : ℕ) (r claimed : S)
        → 0 < state.max_multiplicands
        → CharacteristicAbove s state.max_multiplicands
        → IsReady (suc k) state
        → sum_at state (suc k) ≡ claimed
        → check_round state.max_multiplicands claimed r
            (samples (suc state.max_multiplicands) (polynomial_of state k))
          ≡ ok (polynomial_of state k r)
    unfolding sum_at polynomial_of
    first_check state k r claimed pos c h sum =
        check_round-samples state.max_multiplicands (polynomial_of state k) claimed r pos c
          (round_polynomial-IsPolynomial state.flattened_ml_extensions state.max_multiplicands
            (2 ^ k) state.list_of_products h.of_degree)
          (round_polynomial-ends state.flattened_ml_extensions (2 ^ k) (2 ^ suc k)
              state.list_of_products (omega (arith, pow_double k))
            ∙ sum)

    module _ (t : TranscriptProtocol S) where
      -- What a run of the rounds gives, and that the verifier accepts it.
      abbrev pub Accepted :
          List S → Option S → ProverState S → t.Transcript → ℕ → S → (List S → S) → Type 0
      Accepted scalars r state transcript max_multiplicands claimed value =
          (evaluations : List (List S)) × (point : List S) × (after : t.Transcript) × (create_rounds
              t scalars r state transcript
            ≡ ok (evaluations, point, after))
          × (length point ≡ length scalars)
          × (length evaluations ≡ length scalars)
          × (draw_challenges t transcript evaluations ≡ (point, after))
          × (check_rounds max_multiplicands claimed point evaluations ≡ ok (value point))

      pub rounds-Accepted :
          (scalar : S) (scalars : List S) (r : Option S) (before state : ProverState S)
          (transcript : t.Transcript) (claimed : S)
          → 0 < state.max_multiplicands
          → CharacteristicAbove s state.max_multiplicands
          → receive before r ≡ ok state
          → IsReady (suc (length scalars)) state
          → sum_at state (suc (length scalars)) ≡ claimed
          → Accepted
              (scalar ∷ scalars)
              r
              before
              transcript
              state.max_multiplicands
              claimed
              (value_at state.flattened_ml_extensions state.list_of_products)
      unfolding sum_at polynomial_of
      rounds-Accepted scalar [] r before state transcript claimed pos c received h sum =
          let f = polynomial_of state 0 in
          let values = samples (suc state.max_multiplicands) f in
          let drawn = drawn_after t transcript values in
          (
            values ∷ [],
            drawn.0 ∷ [],
            drawn.1,
            create_rounds-step t scalar [] r before state (next_round state) transcript values [] []
                drawn.1 received (respond-IsReady 0 state h) (unfold create_rounds in refl),
            refl,
            refl,
            draw_challenges-step t transcript values [] [] drawn.1 (unfold draw_challenges in refl),
            check_rounds-step state.max_multiplicands claimed drawn.0 [] values [] (f drawn.0) _
                (first_check state 0 drawn.0 claimed pos c h sum)
                (unfold check_rounds in
                  ap ok (
                    round_polynomial-last state.flattened_ml_extensions state.list_of_products
                      drawn.0)),
          )
      rounds-Accepted scalar (next ∷ scalars) r before state transcript claimed pos c received h
            sum =
          let k = length scalars in
          let f = polynomial_of state (suc k) in
          let values = samples (suc state.max_multiplicands) f in
          let drawn = drawn_after t transcript values in
          let (state', received', h', fixed, same_products, same_degree) =
            receive-IsReady k state drawn.0 h in
          let (evaluations, point, after, created, size, count, redrawn, checked) =
            rounds-Accepted next scalars (some drawn.0) (next_round state) state' drawn.1
              (f drawn.0) (rw same_degree pos) (rw same_degree c) received' h'
              (ap (sum_of_values state'.flattened_ml_extensions (2 ^ suc k)) same_products
                ∙ sym (
                    round_polynomial-fixed state.flattened_ml_extensions
                      state'.flattened_ml_extensions (2 ^ suc k) state.list_of_products drawn.0
                      fixed h.in_range)) in
          (
            values ∷ evaluations,
            drawn.0 ∷ point,
            after,
            create_rounds-step t scalar (next ∷ scalars) r before state (next_round state)
                transcript values evaluations point after received (respond-IsReady (suc k) state h)
                created,
            ap suc size,
            ap suc count,
            draw_challenges-step t transcript values evaluations point after redrawn,
            check_rounds-step state.max_multiplicands claimed drawn.0 point values evaluations
                (f drawn.0) _ (first_check state (suc k) drawn.0 claimed pos c h sum)
                (ap (λ m. check_rounds m (f drawn.0) point evaluations) (sym same_degree)
                  ∙ checked
                  ∙ ap ok (
                      ap (λ ps. value_at state'.flattened_ml_extensions ps point) same_products
                      ∙ value_at-fixed state.flattened_ml_extensions state'.flattened_ml_extensions
                          state.list_of_products drawn.0 point (rw size fixed) h.in_range)),
          )
