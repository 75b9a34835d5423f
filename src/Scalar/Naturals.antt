-- ===== src/Scalar/Naturals.antt =====
-- The numbers as scalars: `S::one()` added up.
use sxt_proof_of_sql.Shared.{ℕ, zero, suc, ◌+◌, ◌<◌, ◌≤◌, ◌≡◌, ◌≢◌, sym, ap, ◌∙◌, arith}
use sxt_proof_of_sql.Scalar.{Scalar, ◌⊕◌, ◌⊗◌}
use sxt_proof_of_sql.Scalar.Ring.{mul_nonzero}

module _ {S : Type 0} ⦃s : Scalar S⦄ where
  unfoldable pub of_nat : ℕ → S
  of_nat zero = s.zero
  of_nat (suc n) = of_nat n ⊕ s.one

  -- n!
  unfoldable pub factorial : ℕ → S
  factorial zero = s.one
  factorial (suc n) = factorial n ⊗ of_nat (suc n)

  pub of_nat-add : (m k n : ℕ) → m + k ≡ n → of_nat n ≡ of_nat m ⊕ of_nat k
  unfolding of_nat
  of_nat-add m zero n e = ap of_nat {x = n} {y = m} (omega arith) ∙ sym (s.add-zero _)
  of_nat-add m (suc k) zero e = absurd (omega arith)
  of_nat-add m (suc k) (suc n) e =
      ap (λ x. x ⊕ s.one) (of_nat-add m k n (omega arith)) ∙ s.add_assoc _ _ _

-- The numbers from 1 to `n` are not zero: the characteristic of the field is above `n`.
abbrev pub CharacteristicAbove : {S : Type 0} → Scalar S → ℕ → Type 0
CharacteristicAbove s n = (k : ℕ) → 0 < k → k ≤ n → of_nat ⦃s = s⦄ k ≢ s.zero

module _ {S : Type 0} ⦃s : Scalar S⦄ where
  pub CharacteristicAbove-pred : (n : ℕ) → CharacteristicAbove s (suc n) → CharacteristicAbove s n
  CharacteristicAbove-pred n h k pos le = h k pos (omega arith)

  pub factorial_nonzero : (n : ℕ) → s.one ≢ s.zero → CharacteristicAbove s n → factorial n ≢ s.zero
  unfolding factorial
  factorial_nonzero zero one h = one
  factorial_nonzero (suc n) one h =
      mul_nonzero (factorial n) (of_nat (suc n))
        (factorial_nonzero n one (CharacteristicAbove-pred n h))
        (h (suc n) (omega arith) (omega arith))
