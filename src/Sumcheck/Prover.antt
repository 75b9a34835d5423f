-- ===== src/Sumcheck/Prover.antt =====
-- crates/proof-of-sql/src/proof_primitive/sumcheck/prover_state.rs and prover_round.rs. A parallel
-- map is a map, a parallel reduction a sum in the order of the index.
use sxt_proof_of_sql.Shared.{
  ℕ, zero, suc, ◌+◌, ◌-◌, ◌*◌, ◌^◌, Option, none, some, List, [], ◌∷◌, ◌++◌, get_elem?, set_elem?,
  replicate, if◌then◌else◌, ltb, ◌==◌, Result, ok, panic, ◌>>=◌, expect_some, traverse,
}
use sxt_proof_of_sql.Scalar.{Scalar, ◌⊕◌, ◌⊖◌, ◌⊗◌}
use sxt_proof_of_sql.Polynomial.Composite.{CompositePolynomial}

pub record ProverState (S : Type 0) : Type 0 where
  pub randomness : List S
  pub list_of_products : List (S × List ℕ)
  pub flattened_ml_extensions : List (List S)
  pub num_vars : ℕ
  pub max_multiplicands : ℕ
  pub round : ℕ

unfoldable pub create_state :
    {S : Type 0} → CompositePolynomial S → Result (Unit {0}) (ProverState S)
create_state p =
    if p.num_variables == 0
    then panic
    else ok (record {
      randomness = [];
      list_of_products = p.products;
      flattened_ml_extensions = p.flattened_ml_extensions;
      num_vars = p.num_variables;
      max_multiplicands = p.max_multiplicands;
      round = 0;
    })

module _ {S : Type 0} ⦃s : Scalar S⦄ where
  -- The loop of in_place_fix_variable with `rows` rounds left; each round reads two entries and
  -- writes one, in place.
  unfoldable pub fix_rows : ℕ → ℕ → S → List S → Result (Unit {0}) (List S)
  fix_rows zero b r multiplicand = ok multiplicand
  fix_rows (suc rows) b r multiplicand = expect_some (get_elem? multiplicand (b * 2)) >>= λ left.
      expect_some (get_elem? multiplicand (b * 2 + 1)) >>= λ right.
      expect_some (set_elem? multiplicand b (left ⊕ r ⊗ (right ⊖ left))) >>= λ written.
      fix_rows rows (suc b) r written

  unfoldable pub in_place_fix_variable : List S → S → ℕ → Result (Unit {0}) (List S)
  unfolding fix_rows
  in_place_fix_variable multiplicand r num_vars =
      if ltb 0 num_vars then fix_rows (2 ^ num_vars) 0 r multiplicand else panic

  unfoldable pub vec_elementwise_add : List S → List S → List S
  vec_elementwise_add [] ys = []
  vec_elementwise_add (x ∷ xs) [] = []
  vec_elementwise_add (x ∷ xs) (y ∷ ys) = x ⊕ y ∷ vec_elementwise_add xs ys

  -- `products[t] *= start + t * step`, with `start` moved on for all but the last entry.
  unfoldable pub multiply_samples : ℕ → S → S → List S → List S
  multiply_samples degree start step [] = []
  multiply_samples zero start step (p ∷ products) = p ⊗ start ∷ products
  multiply_samples (suc degree) start step (p ∷ products) =
      p ⊗ start ∷ multiply_samples degree (start ⊕ step) step products

  -- The loop over the factors of a product, at row `b`.
  unfoldable pub multiply_row : List (List S) → ℕ → ℕ → List S → List ℕ → Result (Unit {0}) (List S)
  unfolding multiply_samples
  multiply_row tables degree b products [] = ok products
  multiply_row tables degree b products (i ∷ indices) =
      expect_some (get_elem? tables i) >>= λ table.
      expect_some (get_elem? table (b * 2)) >>= λ start.
      expect_some (get_elem? table (b * 2 + 1)) >>= λ next.
      multiply_row tables degree b (multiply_samples degree start (next ⊖ start) products) indices

  unfoldable pub sum_rows : List (List S) → ℕ → S → List ℕ → ℕ → Result (Unit {0}) (List S)
  unfolding multiply_row vec_elementwise_add
  sum_rows tables degree coefficient indices zero = ok (replicate (suc degree) s.zero)
  sum_rows tables degree coefficient indices (suc b) =
      sum_rows tables degree coefficient indices b >>= λ total.
      multiply_row tables degree b (replicate (suc degree) coefficient) indices >>= λ row.
      ok (vec_elementwise_add total row)

  unfoldable pub sum_products :
      List (List S) → ℕ → ℕ → List (S × List ℕ) → Result (Unit {0}) (List S)
  unfolding sum_rows
  sum_products tables degree round_length [] = ok (replicate (suc degree) s.zero)
  sum_products tables degree round_length (p ∷ products) =
      sum_rows tables degree p.0 p.1 round_length >>= λ row.
      sum_products tables degree round_length products >>= λ rest. ok (vec_elementwise_add row rest)

  -- The first half of prove_round: the verifier's message fixes a variable of each table.
  unfoldable pub receive : ProverState S → Option S → Result (Unit {0}) (ProverState S)
  unfolding in_place_fix_variable
  receive state none = if ltb 0 state.round then panic else ok state
  receive state (some r) =
      if state.round == 0
      then panic
      else (let randomness = state.randomness ++ (r ∷ []) in
          expect_some (get_elem? randomness (state.round - 1)) >>= λ r_as_field.
          traverse (λ t. in_place_fix_variable t r_as_field (state.num_vars - state.round))
            state.flattened_ml_extensions
          >>= λ tables.
              ok (record state { randomness = randomness; flattened_ml_extensions = tables }))

  -- The second half: the values at 0, …, degree of the polynomial of the round.
  unfoldable pub respond : ProverState S → Result (Unit {0}) (ProverState S × List S)
  unfolding sum_products
  respond state =
      let round = state.round + 1 in
      if ltb state.num_vars round
      then panic
      else (sum_products state.flattened_ml_extensions state.max_multiplicands
            (2 ^ (state.num_vars - round)) state.list_of_products
          >>= λ result. ok (record state { round = round }, result))

  unfoldable pub prove_round : ProverState S → Option S → Result (Unit {0}) (ProverState S × List S)
  unfolding receive respond
  prove_round state r_maybe = receive state r_maybe >>= respond
