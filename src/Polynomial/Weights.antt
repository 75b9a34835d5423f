-- ===== src/Polynomial/Weights.antt =====
-- The Lagrange basis at a point, as its documentation in
-- crates/proof-of-sql/src/base/polynomial/lagrange_basis_evaluation.rs describes it.
use sxt_proof_of_sql.Shared.{
  ℕ, ◌+◌, ◌/◌, ◌%◌, ◌^◌, ◌<◌, ◌≡◌, sym, ap, ap₂, ◌∙◌, arith, List, [], ◌∷◌, ◌++◌, length,
  pow_double, if◌then◌else◌, ◌==◌,
}
use sxt_proof_of_sql.Scalar.{Scalar, ◌⊖◌, ◌⊗◌}
use sxt_proof_of_sql.Scalar.Ring.{ring_laws}

module _ {S : Type 0} ⦃s : Scalar S⦄ where
  -- The factor of a coordinate for a bit of the index.
  abbrev pub factor : S → ℕ → S
  factor p i = if i % 2 == 1 then p else s.one ⊖ p

  -- Bit `j` of the index `i` chooses `p_j` or `1 - p_j`.
  unfoldable pub weight : List S → ℕ → S
  weight [] i = s.one
  weight (p ∷ ps) i = factor p i ⊗ weight ps (i / 2)

  pub weight-append_low :
      (ps : List S) (p : S) (i : ℕ)
      → i < 2 ^ length ps
      → weight (ps ++ (p ∷ [])) i ≡ weight ps i ⊗ (s.one ⊖ p)
  unfolding weight
  weight-append_low [] p i h = rw (the_zero i h) (simp ring_laws)
    where
      the_zero : (i : ℕ) → i < 1 → i ≡ 0
      the_zero i h = omega arith
  weight-append_low (q ∷ ps) p i h =
      ap (λ x. factor q i ⊗ x)
        (weight-append_low ps p (i / 2) (omega (arith, pow_double (length ps))))
      ∙ sym (s.mul_assoc _ _ _)

  pub weight-append_high :
      (ps : List S) (p : S) (i j : ℕ)
      → i < 2 ^ length ps
      → 2 ^ length ps + i ≡ j
      → weight (ps ++ (p ∷ [])) j ≡ weight ps i ⊗ p
  unfolding weight
  weight-append_high [] p i j h e = rw (the_one j (omega arith)) (simp ring_laws)
    where
      the_one : (j : ℕ) → j ≡ 1 → j ≡ 1
      the_one j h = h
  weight-append_high (q ∷ ps) p i j h e =
      ap₂ (λ b x. (if b == 1 then q else s.one ⊖ q) ⊗ x) {x = j % 2} {y = i % 2}
        (omega (arith, pow_double (length ps)))
        (weight-append_high ps p (i / 2) (j / 2) (omega (arith, pow_double (length ps)))
          (omega (arith, pow_double (length ps))))
      ∙ sym (s.mul_assoc _ _ _)
