-- ===== src/Polynomial/Interpolate.antt =====
-- crates/proof-of-sql/src/base/polynomial/interpolate.rs.
pub mod Formula
pub mod Correct
use sxt_proof_of_sql.Shared.{
  ℕ, zero, suc, ◌-◌, ◌%◌, ◌==◌, Option, none, some, ◌⊎◌, inl, inr, List, [], ◌∷◌, length, get_elem?,
  if◌then◌else◌, Result, ok, panic, ◌>>=◌, expect_some,
}
use sxt_proof_of_sql.Scalar.{Scalar, ◌⊕◌, ◌⊖◌, ◌⊗◌}

-- `sum`, `product` and `x_minus_i` of the second loop.
pub record Progress (S : Type 0) : Type 0 where
  pub sum : S
  pub product : S
  pub x_minus_i : S

module _ {S : Type 0} ⦃s : Scalar S⦄ where
  unfoldable pub push_factorial : S → S ⊎ List S → S ⊎ List S
  push_factorial factorial (inl eval) = inl eval
  push_factorial factorial (inr factorials) = inr (factorial ∷ factorials)

  -- The first loop: the value that is known where `x` is `i`, or the vector of factorials.
  unfoldable pub scan : S → S → S → List S → S ⊎ List S
  unfolding push_factorial
  scan x i factorial [] = inr []
  scan x i factorial (eval ∷ evals) =
      let rest = scan x (i ⊕ s.one) (factorial ⊗ (i ⊕ s.one)) evals in
      if s.is_equal i x then inl eval else push_factorial factorial rest

  -- The three factors are read by index, and the inverse is unwrapped.
  unfoldable pub new_term : List S → List S → ℕ → ℕ → S → Result (Unit {0}) S
  new_term polynomial factorials degree i x_minus_i =
      expect_some (get_elem? polynomial i) >>= λ eval.
      expect_some (get_elem? factorials i) >>= λ below.
      expect_some (get_elem? factorials (degree - i)) >>= λ above.
      expect_some (s.inv (below ⊗ above ⊗ x_minus_i)) >>= λ inverse. ok (eval ⊗ inverse)

  unfoldable pub add_term : ℕ → Progress S → S → Progress S
  add_term sign acc term = record {
    sum = if sign % 2 == 0 then acc.sum ⊕ term else acc.sum ⊖ term;
    product = acc.product ⊗ acc.x_minus_i;
    x_minus_i = acc.x_minus_i ⊖ s.one;
  }

  -- The second loop, with the number of rounds that are left and `i`.
  unfoldable pub add_terms :
      ℕ → ℕ → List S → List S → ℕ → Progress S → Result (Unit {0}) (Progress S)
  unfolding new_term add_term
  add_terms zero i polynomial factorials degree acc = ok acc
  add_terms (suc rounds) i polynomial factorials degree acc =
      new_term polynomial factorials degree i acc.x_minus_i >>= λ term.
      add_terms rounds (suc i) polynomial factorials degree (add_term (degree - i) acc term)

  unfoldable pub from_scan : List S → ℕ → S → S ⊎ List S → Result (Unit {0}) S
  unfolding add_terms
  from_scan polynomial degree x (inl eval) = ok eval
  from_scan polynomial degree x (inr factorials) =
      add_terms (suc degree) 0 polynomial factorials degree
        (record { sum = s.zero; product = s.one; x_minus_i = x })
      >>= λ acc. ok (acc.sum ⊗ acc.product)

  unfoldable pub interpolate_uni_poly : List S → S → Result (Unit {0}) S
  unfolding scan from_scan
  interpolate_uni_poly [] x = ok s.zero
  interpolate_uni_poly (e ∷ es) x = from_scan (e ∷ es) (length es) x (scan x s.zero s.one (e ∷ es))
