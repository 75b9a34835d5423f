-- ===== src/Scalar/Sums.antt =====
-- Finite sums of scalars, for what the loops and the parallel sums of the code add up to.
use sxt_proof_of_sql.Shared.{ℕ, zero, suc, ◌+◌, ◌*◌, ◌<◌, ◌≡◌, refl, sym, ap, ap₂, ◌∙◌, arith}
use sxt_proof_of_sql.Scalar.{Scalar, ◌⊕◌, ◌⊗◌}
use sxt_proof_of_sql.Scalar.Ring.{ring_laws, mul-zero}

module _ {S : Type 0} ⦃s : Scalar S⦄ where
  -- f 0 + … + f (n - 1)
  unfoldable pub sum_to : ℕ → (ℕ → S) → S
  sum_to zero f = s.zero
  sum_to (suc n) f = sum_to n f ⊕ f n

  pub sum_to_congr : (n : ℕ) {f g : ℕ → S} → ((i : ℕ) → i < n → f i ≡ g i) → sum_to n f ≡ sum_to n g
  unfolding sum_to
  sum_to_congr zero h = refl
  sum_to_congr (suc n) h = ap₂ ◌⊕◌ (sum_to_congr n λ i lt. h i (omega arith)) (h n (omega arith))

  pub sum_to-first : (n : ℕ) (f : ℕ → S) → sum_to (suc n) f ≡ f 0 ⊕ sum_to n (λ i. f (suc i))
  unfolding sum_to
  sum_to-first zero f = s.add_comm s.zero (f 0)
  sum_to-first (suc n) f = ap (λ x. x ⊕ f (suc n)) (sum_to-first n f) ∙ s.add_assoc _ _ _

  pub sum_to-split :
      (m k n : ℕ) (f : ℕ → S) → m + k ≡ n → sum_to n f ≡ sum_to m f ⊕ sum_to k (λ i. f (m + i))
  unfolding sum_to
  sum_to-split m zero n f e =
      ap (λ x. sum_to x f) {x = n} {y = m} (omega arith) ∙ sym (s.add-zero _)
  sum_to-split m (suc k) zero f e = absurd (omega arith)
  sum_to-split m (suc k) (suc n) f e =
      ap₂ (λ x i. x ⊕ f i) {u = n} {v = m + k} (sum_to-split m k n f (omega arith)) (omega arith)
      ∙ s.add_assoc _ _ _

  pub sum_to-add : (n : ℕ) (f g : ℕ → S) → sum_to n (λ i. f i ⊕ g i) ≡ sum_to n f ⊕ sum_to n g
  unfolding sum_to
  sum_to-add zero f g = sym (s.add-zero s.zero)
  sum_to-add (suc n) f g = rw (sum_to-add n f g) (simp ring_laws)

  pub mul-sum_to : (n : ℕ) (a : S) (f : ℕ → S) → a ⊗ sum_to n f ≡ sum_to n (λ i. a ⊗ f i)
  unfolding sum_to
  mul-sum_to zero a f = mul-zero a
  mul-sum_to (suc n) a f = rw (s.mul-add a, mul-sum_to n a f)

  pub sum_to-mul : (n : ℕ) (a : S) (f : ℕ → S) → sum_to n f ⊗ a ≡ sum_to n (λ i. f i ⊗ a)
  sum_to-mul n a f = s.mul_comm _ a ∙ mul-sum_to n a f ∙ sum_to_congr n λ i _. s.mul_comm a (f i)

  pub sum_to-zero : (n : ℕ) → ◌≡◌ {A = S} (sum_to n (λ _. s.zero)) s.zero
  unfolding sum_to
  sum_to-zero zero = refl
  sum_to-zero (suc n) = rw (sum_to-zero n) (s.add-zero s.zero)

  -- The terms in pairs.
  pub sum_to-pairs :
      (n m : ℕ) (f : ℕ → S) → n * 2 ≡ m → sum_to m f ≡ sum_to n (λ i. f (i * 2) ⊕ f (i * 2 + 1))
  unfolding sum_to
  sum_to-pairs zero m f e = ap (λ x. sum_to x f) {x = m} {y = 0} (omega arith)
  sum_to-pairs (suc n) (suc (suc m)) f e =
      ap₂ (λ x i. x ⊕ f i ⊕ f (suc i)) {u = m} {v = n * 2} (sum_to-pairs n m f (omega arith))
        (omega arith)
      ∙ s.add_assoc _ _ _
      ∙ ap (λ i. sum_to n (λ i. f (i * 2) ⊕ f (i * 2 + 1)) ⊕ (f (n * 2) ⊕ f i)) {x = suc (n * 2)}
          {y = n * 2 + 1} (omega arith)
  sum_to-pairs (suc n) (suc zero) f e = absurd (omega arith)
  sum_to-pairs (suc n) zero f e = absurd (omega arith)
