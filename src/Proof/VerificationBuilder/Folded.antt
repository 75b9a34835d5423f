-- ===== src/Proof/VerificationBuilder/Folded.antt =====
-- What runs of the operations of crates/proof-of-sql/src/sql/proof/verification_builder.rs keep.
use sxt_proof_of_sql.Shared.{
  ℕ, zero, suc, ◌+◌, ◌<◌, ◌≡◌, refl, sym, subst, ap, ◌∙◌, arith, Option, none, some, List, [], ◌∷◌,
  ◌++◌, length, length-append, get_elem?, Result, ok, >>=-eq-ok, expect_some,
}
use sxt_proof_of_sql.Scalar.{Scalar, ◌⊕◌, ◌⊗◌}
use sxt_proof_of_sql.Scalar.Sums.{sum_to, sum_to_congr}
use sxt_proof_of_sql.Sumcheck.Tables.{at}
use sxt_proof_of_sql.Proof.VerificationBuilder.{
  VerificationBuilder, consume_anchored_mle, consume_bit_distribution, consume_intermediate_mle,
  consume_result_mle, produce_sumcheck_subpolynomial_evaluation, consume_post_result_challenge,
  first_and_rest, pop,
}
use mathlib.Core.List.{append-nil}
use sxt_proof_of_sql.Proof.VerificationBuilder.Steps.{
  list_of, Step, Run, produced_by, committed_by, produced_in, committed_in,
}

module _ {A : Type 0} where
  pub ok-injective : {a b : A} → ◌≡◌ {A = Result (Unit {0}) A} (ok a) (ok b) → a ≡ b
  ok-injective h = cc

  expect_some-eq-ok : (m : Option A) {a : A} → expect_some {E = Unit {0}} m ≡ ok a → m ≡ some a
  expect_some-eq-ok none h = cc
  expect_some-eq-ok (some b) h = cc

module _ {S : Type 0} ⦃s : Scalar S⦄ where
  get_elem?-inv :
      (xs : List S) (i : ℕ) (a : S) → get_elem? xs i ≡ some a → (i < length xs) × (at xs i ≡ a)
  get_elem?-inv [] i a h = cc
  get_elem?-inv (x ∷ xs) zero a h = (omega arith, cc)
  get_elem?-inv (x ∷ xs) (suc i) a h = let (lt, e) = get_elem?-inv xs i a h in (omega arith, e)

  -- The multipliers times the values, of the first `n`.
  abbrev pub folded_to : ℕ → List S → List S → S
  folded_to n multipliers values = sum_to n λ i. at multipliers i ⊗ at values i

  at-append_first : (xs ys : List S) (i : ℕ) → i < length xs → at (xs ++ ys) i ≡ at xs i
  at-append_first [] ys i h = absurd (omega arith)
  at-append_first (x ∷ xs) ys zero h = refl
  at-append_first (x ∷ xs) ys (suc i) h = at-append_first xs ys i (omega arith)

  at-append_last : (xs : List S) (a : S) (n : ℕ) → length xs ≡ n → at (xs ++ (a ∷ [])) n ≡ a
  at-append_last [] a zero e = refl
  at-append_last [] a (suc n) e = absurd (omega arith)
  at-append_last (x ∷ xs) a zero e = absurd (omega arith)
  at-append_last (x ∷ xs) a (suc n) e = at-append_last xs a n (omega arith)

  folded_to-next :
      (n : ℕ) (multipliers values : List S) (m a total : S)
      → at multipliers n ≡ m
      → at values n ≡ a
      → total ≡ folded_to n multipliers values
      → total ⊕ m ⊗ a ≡ folded_to (n + 1) multipliers values
  unfolding sum_to
  folded_to-next n multipliers values m a total hm ha e =
      rw (e, ← hm, ← ha)
        (ap (λ k. folded_to k multipliers values) {x = suc n} {y = n + 1} (omega arith))

module _ {C S B : Type 0} ⦃s : Scalar S⦄ where
  -- What the builder was made with, and what it has added up of the values and the commitments.
  pub record IsFolded (multipliers evaluations subpolynomial_multipliers produced : List S)
      (committed : List C) (v : VerificationBuilder C S B) : Type 0 where
    pub multipliers_kept : v.inner_product_multipliers ≡ multipliers
    pub evaluations_kept : v.mle_evaluations.pre_result_evaluations ≡ evaluations
    pub subpolynomials_kept : v.subpolynomial_multipliers ≡ subpolynomial_multipliers
    pub commitments_kept : v.pre_result_commitments ≡ committed
    pub commitments : length committed ≡ v.consumed_pre_result_mles
    pub folded :
        v.folded_pre_result_evaluation
        ≡ folded_to v.consumed_pre_result_mles multipliers evaluations
    pub produced_count : length produced ≡ v.produced_subpolynomials
    pub summed :
        v.sumcheck_evaluation
        ≡ folded_to v.produced_subpolynomials subpolynomial_multipliers produced

  module _ {multipliers evaluations subpolynomials produced : List S} {committed : List C} where
    anchored-IsFolded :
        (v w : VerificationBuilder C S B) (c : C) (x : S)
        → consume_anchored_mle v c ≡ ok (w, x)
        → IsFolded multipliers evaluations subpolynomials produced committed v
        → IsFolded multipliers evaluations subpolynomials produced (committed ++ (c ∷ [])) w
    unfolding consume_anchored_mle
    anchored-IsFolded v w c x h f =
        let (m, found, then) =
          >>=-eq-ok (expect_some (get_elem? v.inner_product_multipliers v.consumed_pre_result_mles))
            _ h in
        let (a, value, last) =
          >>=-eq-ok
            (expect_some
              (get_elem? v.mle_evaluations.pre_result_evaluations v.consumed_pre_result_mles))
            _ then in
        let (_, hm) =
          get_elem?-inv v.inner_product_multipliers v.consumed_pre_result_mles m
            (expect_some-eq-ok _ found) in
        let (_, ha) =
          get_elem?-inv v.mle_evaluations.pre_result_evaluations v.consumed_pre_result_mles a
            (expect_some-eq-ok _ value) in
        subst (IsFolded multipliers evaluations subpolynomials produced (committed ++ (c ∷ [])))
          (λ i. (ok-injective last i).0)
          (record {
            multipliers_kept = f.multipliers_kept;
            evaluations_kept = f.evaluations_kept;
            subpolynomials_kept = f.subpolynomials_kept;
            commitments_kept = ap (λ l. l ++ (c ∷ [])) f.commitments_kept;
            commitments = omega (arith, f.commitments, length-append committed (c ∷ []));
            folded =
                folded_to-next v.consumed_pre_result_mles multipliers evaluations m a _
                  (ap (λ l. at l v.consumed_pre_result_mles) (sym f.multipliers_kept) ∙ hm)
                  (ap (λ l. at l v.consumed_pre_result_mles) (sym f.evaluations_kept) ∙ ha)
                  f.folded;
            produced_count = f.produced_count;
            summed = f.summed;
          })

    -- The other fields do not matter.
    other_fields-IsFolded :
        (v : VerificationBuilder C S B) (bs : List B) (results intermediates : ℕ)
        (challenges : List S)
        → IsFolded multipliers evaluations subpolynomials produced committed v
        → IsFolded multipliers evaluations subpolynomials produced committed (record v {
          bit_distributions = bs;
          consumed_result_mles = results;
          consumed_intermediate_mles = intermediates;
          post_result_challenges = challenges;
        })
    other_fields-IsFolded v bs results intermediates challenges f = record {
      multipliers_kept = f.multipliers_kept;
      evaluations_kept = f.evaluations_kept;
      subpolynomials_kept = f.subpolynomials_kept;
      commitments_kept = f.commitments_kept;
      commitments = f.commitments;
      folded = f.folded;
      produced_count = f.produced_count;
      summed = f.summed;
    }

    -- A step that changes only those gives and takes nothing.
    same-IsFolded :
        (v w : VerificationBuilder C S B) (bs : List B) (results intermediates : ℕ)
        (challenges : List S)
        → record v {
          bit_distributions = bs;
          consumed_result_mles = results;
          consumed_intermediate_mles = intermediates;
          post_result_challenges = challenges;
        }
          ≡ w
        → IsFolded multipliers evaluations subpolynomials produced committed v
        → IsFolded multipliers evaluations subpolynomials (produced ++ []) (committed ++ []) w
    same-IsFolded v w bs results intermediates challenges e f =
        rw (append-nil produced, append-nil committed)
          (subst (IsFolded multipliers evaluations subpolynomials produced committed) e
            (other_fields-IsFolded v bs results intermediates challenges f))

    subpolynomial-IsFolded :
        (v w : VerificationBuilder C S B) (x : S)
        → produce_sumcheck_subpolynomial_evaluation v x ≡ ok w
        → IsFolded multipliers evaluations subpolynomials produced committed v
        → IsFolded multipliers evaluations subpolynomials (produced ++ (x ∷ [])) committed w
    unfolding produce_sumcheck_subpolynomial_evaluation
    subpolynomial-IsFolded v w x h f =
        let n = v.produced_subpolynomials in
        let (m, found, last) =
          >>=-eq-ok (expect_some (get_elem? v.subpolynomial_multipliers n)) _ h in
        let (_, hm) = get_elem?-inv v.subpolynomial_multipliers n m (expect_some-eq-ok _ found) in
        subst (IsFolded multipliers evaluations subpolynomials (produced ++ (x ∷ [])) committed)
          (ok-injective last)
          (record {
            multipliers_kept = f.multipliers_kept;
            evaluations_kept = f.evaluations_kept;
            subpolynomials_kept = f.subpolynomials_kept;
            commitments_kept = f.commitments_kept;
            commitments = f.commitments;
            folded = f.folded;
            produced_count = omega (arith, f.produced_count, length-append produced (x ∷ []));
            summed =
                folded_to-next n subpolynomials (produced ++ (x ∷ [])) m x _
                  (ap (λ l. at l n) (sym f.subpolynomials_kept) ∙ hm)
                  (at-append_last produced x n f.produced_count)
                  (f.summed
                    ∙ sum_to_congr n λ i lt.
                      ap (λ y. at subpolynomials i ⊗ y)
                        (sym
                          (at-append_first produced (x ∷ []) i (omega (arith, f.produced_count)))));
          })

    intermediate-IsFolded :
        (v w : VerificationBuilder C S B) (x : S)
        → consume_intermediate_mle v ≡ ok (w, x)
        → IsFolded multipliers evaluations subpolynomials produced committed v
        → IsFolded multipliers evaluations subpolynomials produced
            (committed
              ++ list_of (get_elem? v.intermediate_commitments v.consumed_intermediate_mles))
            w
    unfolding consume_intermediate_mle
    intermediate-IsFolded v w x h f =
        let (c, found, last) =
          >>=-eq-ok
            (expect_some (get_elem? v.intermediate_commitments v.consumed_intermediate_mles)) _ h in
        rw (expect_some-eq-ok _ found) (
          anchored-IsFolded _ w c x last (
            other_fields-IsFolded v v.bit_distributions v.consumed_result_mles
              (v.consumed_intermediate_mles + 1) v.post_result_challenges f))

    pub Step-IsFolded :
        (v w : VerificationBuilder C S B)
        → (step : Step v w) → IsFolded multipliers evaluations subpolynomials produced committed v
        → IsFolded multipliers evaluations subpolynomials
            (produced ++ produced_by v w step)
            (committed ++ committed_by v w step)
            w
    unfolding consume_bit_distribution consume_result_mle consume_post_result_challenge
    Step-IsFolded v w (Step.anchored c x h) f =
        rw (append-nil produced) (anchored-IsFolded v w c x h f)
    Step-IsFolded v w (Step.bits b h) f =
        let (split, _, last) = >>=-eq-ok (expect_some (first_and_rest v.bit_distributions)) _ h in
        same-IsFolded v w split.1 v.consumed_result_mles v.consumed_intermediate_mles
          v.post_result_challenges (λ i. (ok-injective last i).0) f
    Step-IsFolded v w (Step.intermediate x h) f =
        rw (append-nil produced) (intermediate-IsFolded v w x h f)
    Step-IsFolded v w (Step.result x h) f =
        let (res, _, last) =
          >>=-eq-ok
            (expect_some (get_elem? v.mle_evaluations.result_evaluations v.consumed_result_mles)) _
            h in
        same-IsFolded v w v.bit_distributions (v.consumed_result_mles + 1)
          v.consumed_intermediate_mles v.post_result_challenges (λ i. (ok-injective last i).0) f
    Step-IsFolded v w (Step.subpolynomial x h) f =
        rw (append-nil committed) (subpolynomial-IsFolded v w x h f)
    Step-IsFolded v w (Step.challenge x h) f =
        let (popped, _, last) = >>=-eq-ok (expect_some (pop v.post_result_challenges)) _ h in
        same-IsFolded v w v.bit_distributions v.consumed_result_mles v.consumed_intermediate_mles
          popped.1 (λ i. (ok-injective last i).0) f

  pub Run-IsFolded :
      {multipliers evaluations subpolynomials : List S} {v w : VerificationBuilder C S B}
      (run : Run v w)
      → IsFolded multipliers evaluations subpolynomials [] [] v
      → IsFolded multipliers evaluations subpolynomials (produced_in run) (committed_in run) w
  Run-IsFolded Run.here f = f
  Run-IsFolded (Run.next run step) f = Step-IsFolded _ _ step (Run-IsFolded run f)
