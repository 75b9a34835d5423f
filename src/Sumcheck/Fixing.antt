-- ===== src/Sumcheck/Fixing.antt =====
-- A message of the verifier in crates/proof-of-sql/src/proof_primitive/sumcheck/prover_round.rs: it
-- fixes a variable of every table.
use sxt_proof_of_sql.Shared.{
  ℕ, zero, suc, ◌+◌, ◌-◌, ◌^◌, ◌≤◌, ◌<◌, ◌≡◌, refl, sym, subst, false, ap, ◌∙◌, arith, some, List,
  [], ◌∷◌, ◌++◌, length, length-append, length-map, map, get_elem?, tabulate, length-tabulate, drop,
  All, ok, traverse, pow_double, ◌==◌,
}
use sxt_proof_of_sql.Scalar.{Scalar}
use sxt_proof_of_sql.Sumcheck.Prover.{ProverState, in_place_fix_variable, receive}
use sxt_proof_of_sql.Sumcheck.Tables.{
  at, line, at-tabulate_append, in_place_fix_variable-line, get_elem?-append_right,
}
use sxt_proof_of_sql.Sumcheck.Round.{AreLong, AreInRange, AreOfDegree}
use sxt_proof_of_sql.Sumcheck.Values.{AreFixed}

length-drop :
    {A : Type 0} (n : ℕ) (xs : List A) → n ≤ length xs → n + length (drop n xs) ≡ length xs
length-drop zero xs h = omega arith
length-drop (suc n) [] h = absurd (omega arith)
length-drop (suc n) (x ∷ xs) h = omega (arith, length-drop n xs (omega arith))

module _ {S : Type 0} ⦃s : Scalar S⦄ where
  fixed : S → ℕ → List S → List S
  fixed r rows table = tabulate 0 rows (λ b. line (at table) b r) ++ drop rows table

  length-fixed :
      (r : S) (rows : ℕ) (table : List S)
      → rows ≤ length table
      → length (fixed r rows table) ≡ length table
  unfolding fixed
  length-fixed r rows table h =
      length-append (tabulate 0 rows (λ b. line (at table) b r)) (drop rows table)
      ∙ ap (λ k. k + length (drop rows table)) (length-tabulate 0 rows _)
      ∙ length-drop rows table h

  traverse-fixed :
      (r : S) (n : ℕ) (tables : List (List S))
      → 0 < n
      → AreLong (2 ^ suc n) tables
      → traverse (λ t. in_place_fix_variable t r n) tables ≡ ok (map (fixed r (2 ^ n)) tables)
  unfolding fixed
  traverse-fixed r n [] pos long = refl
  traverse-fixed r n (t ∷ tables) pos (enough, long) =
      rw (in_place_fix_variable-line t r n pos enough, traverse-fixed r n tables pos long)

  AreLong-fixed :
      (r : S) (n : ℕ) (tables : List (List S))
      → AreLong (2 ^ suc n) tables
      → AreLong (2 ^ n) (map (fixed r (2 ^ n)) tables)
  AreLong-fixed r n [] long = tt
  AreLong-fixed r n (t ∷ tables) (enough, long) = (
    omega (arith, pow_double n, length-fixed r (2 ^ n) t (omega (arith, pow_double n))),
    AreLong-fixed r n tables long,
  )

  AreFixed-map :
      (r : S) (rows : ℕ) (tables : List (List S))
      → AreFixed r rows tables (map (fixed r rows) tables)
  unfolding fixed
  AreFixed-map r rows [] i b h lt = absurd (omega arith)
  AreFixed-map r rows (t ∷ tables) zero b h lt =
      at-tabulate_append 0 rows b (λ b. line (at t) b r) (drop rows t) lt
      ∙ ap (λ k. line (at t) k r) {x = 0 + b} {y = b} (omega arith)
  AreFixed-map r rows (t ∷ tables) (suc i) b h lt = AreFixed-map r rows tables i b (omega arith) lt

  -- The state between two rounds, with `k` variables left.
  pub record IsReady (k : ℕ) (state : ProverState S) : Type 0 where
    pub rounds : state.round + k ≡ state.num_vars
    pub drawn : length state.randomness ≡ state.round
    pub long : AreLong (2 ^ k) state.flattened_ml_extensions
    pub in_range : AreInRange state.flattened_ml_extensions state.list_of_products
    pub of_degree : AreOfDegree state.max_multiplicands state.list_of_products

  unfoldable pub next_round : ProverState S → ProverState S
  next_round state = record state { round = state.round + 1 }

  fixed_state : ProverState S → S → ℕ → ProverState S
  fixed_state state r rows = record state {
    randomness = state.randomness ++ (r ∷ []);
    flattened_ml_extensions = map (fixed r rows) state.flattened_ml_extensions;
    round = state.round + 1;
  }

  AreInRange-map :
      (f : List S → List S) (tables : List (List S)) (products : List (S × List ℕ))
      → AreInRange tables products
      → AreInRange (map f tables) products
  AreInRange-map f tables products h =
      subst (λ n. All (λ (p : S × List ℕ). All (λ i. i < n) p.1) products)
        (sym (length-map tables f)) h

  -- After a round with two or more variables left, the next message is received.
  pub receive-IsReady :
      (k : ℕ) (state : ProverState S) (r : S)
      → IsReady (suc (suc k)) state
      → (state' : ProverState S) × (receive (next_round state) (some r) ≡ ok state')
        × IsReady (suc k) state'
        × AreFixed r (2 ^ suc k) state.flattened_ml_extensions state'.flattened_ml_extensions
        × (state'.list_of_products ≡ state.list_of_products)
        × (state'.max_multiplicands ≡ state.max_multiplicands)
  unfolding receive next_round fixed_state
  receive-IsReady k state r h = (
    fixed_state state r (2 ^ suc k),
    rw (not_first (state.round), last_drawn, left)
        (rw (traverse-fixed r (suc k) state.flattened_ml_extensions (omega arith) h.long)),
    ready,
    AreFixed-map r (2 ^ suc k) state.flattened_ml_extensions,
    refl,
    refl,
  )
    where
      not_first : (n : ℕ) → (n + 1 == 0) ≡ false
      not_first n = ground arith

      last_drawn : get_elem? (state.randomness ++ (r ∷ [])) (state.round + 1 - 1) ≡ some r
      last_drawn =
          get_elem?-append_right state.randomness (r ∷ []) state.round 0 (state.round + 1 - 1)
            h.drawn (omega arith)

      left : state.num_vars - (state.round + 1) ≡ suc k
      left = omega (arith, h.rounds)

      ready : IsReady (suc k) (fixed_state state r (2 ^ suc k))
      ready = record {
        rounds = omega (arith, h.rounds);
        drawn = omega (arith, h.drawn, length-append state.randomness (r ∷ []));
        long = AreLong-fixed r (suc k) state.flattened_ml_extensions h.long;
        in_range = AreInRange-map _ _ _ h.in_range;
        of_degree = h.of_degree;
      }
