-- ===== src/Polynomial/Coefficients.antt =====
-- Polynomials in one variable by their coefficients, lowest first, for what the samples of a round
-- of the sumcheck stand for.
use sxt_proof_of_sql.Shared.{
  ℕ, zero, suc, ◌≡◌, refl, sym, ap, ◌∙◌, arith, List, [], ◌∷◌, length, replicate, length-replicate,
}
use sxt_proof_of_sql.Scalar.{Scalar, ◌⊕◌, ◌⊗◌}
use sxt_proof_of_sql.Scalar.Ring.{ring_laws}

module _ {S : Type 0} ⦃s : Scalar S⦄ where
  unfoldable pub horner : List S → S → S
  horner [] x = s.zero
  horner (a ∷ cs) x = a ⊕ x ⊗ horner cs x

  -- `f` is a polynomial with `n` coefficients.
  pub record IsPolynomial (n : ℕ) (f : S → S) : Type 0 where
    pub coefficients : List S
    pub size : length coefficients ≡ n
    pub values : (x : S) → f x ≡ horner coefficients x

  plus : List S → List S → List S
  plus [] ds = ds
  plus (a ∷ cs) [] = a ∷ cs
  plus (a ∷ cs) (b ∷ ds) = a ⊕ b ∷ plus cs ds

  -- (a + b x) times the polynomial, plus the carry
  times : S → S → S → List S → List S
  times a b carry [] = carry ∷ []
  times a b carry (c ∷ cs) = a ⊗ c ⊕ carry ∷ times a b (b ⊗ c) cs

  shift : List S → List S
  shift [] = []
  shift (a ∷ cs) = plus (a ∷ []) (times s.one s.one s.zero (shift cs))

  horner-plus : (cs ds : List S) (x : S) → horner (plus cs ds) x ≡ horner cs x ⊕ horner ds x
  unfolding horner plus
  horner-plus [] ds x = simp ring_laws
  horner-plus (a ∷ cs) [] x = simp ring_laws
  horner-plus (a ∷ cs) (b ∷ ds) x = rw (horner-plus cs ds x) (simp ring_laws)

  length-plus : (cs ds : List S) (n : ℕ) → length cs ≡ n → length ds ≡ n → length (plus cs ds) ≡ n
  unfolding plus
  length-plus [] ds n e d = d
  length-plus (a ∷ cs) [] n e d = e
  length-plus (a ∷ cs) (b ∷ ds) zero e d = absurd (omega arith)
  length-plus (a ∷ cs) (b ∷ ds) (suc n) e d =
      ap suc (length-plus cs ds n (omega arith) (omega arith))

  horner-times :
      (a b carry : S) (cs : List S) (x : S)
      → horner (times a b carry cs) x ≡ (a ⊕ b ⊗ x) ⊗ horner cs x ⊕ carry
  unfolding horner times
  horner-times a b carry [] x = simp ring_laws
  horner-times a b carry (c ∷ cs) x = rw (horner-times a b (b ⊗ c) cs x) (simp ring_laws)

  length-times : (a b carry : S) (cs : List S) → length (times a b carry cs) ≡ suc (length cs)
  unfolding times
  length-times a b carry [] = refl
  length-times a b carry (c ∷ cs) = ap suc (length-times a b (b ⊗ c) cs)

  length-plus_longer :
      (a : S) (ds : List S) → length (plus (a ∷ []) (times s.one s.one s.zero ds)) ≡ suc (length ds)
  unfolding plus times
  length-plus_longer a [] = refl
  length-plus_longer a (b ∷ ds) = ap suc (length-times s.one s.one (s.one ⊗ b) ds)

  horner-zeros : (n : ℕ) (x : S) → horner (replicate n s.zero) x ≡ s.zero
  unfolding horner
  horner-zeros zero x = refl
  horner-zeros (suc n) x = rw (horner-zeros n x) (simp ring_laws)

  length-shift : (cs : List S) → length (shift cs) ≡ length cs
  unfolding shift
  length-shift [] = refl
  length-shift (a ∷ cs) = length-plus_longer a (shift cs) ∙ ap suc (length-shift cs)

  horner-shift : (cs : List S) (x : S) → horner (shift cs) x ≡ horner cs (x ⊕ s.one)
  unfolding shift horner
  horner-shift [] x = refl
  horner-shift (a ∷ cs) x =
      horner-plus (a ∷ []) (times s.one s.one s.zero (shift cs)) x
      ∙ rw (horner-times s.one s.one s.zero (shift cs) x, horner-shift cs x) (simp ring_laws)

  pub IsPolynomial-const : (n : ℕ) (a : S) → IsPolynomial (suc n) (λ x. a)
  unfolding horner
  IsPolynomial-const n a = record {
    coefficients = a ∷ replicate n s.zero;
    size = ap suc (length-replicate n s.zero);
    values = λ x. rw (horner-zeros n x) (simp ring_laws);
  }

  pub IsPolynomial-add :
      (n : ℕ) (f g : S → S) → IsPolynomial n f → IsPolynomial n g → IsPolynomial n (λ x. f x ⊕ g x)
  IsPolynomial-add n f g p q = record {
    coefficients = plus p.coefficients q.coefficients;
    size = length-plus p.coefficients q.coefficients n p.size q.size;
    values = λ x. rw (p.values x, q.values x) (sym (horner-plus p.coefficients q.coefficients x));
  }

  -- A linear factor adds a coefficient.
  pub IsPolynomial-mul :
      (n : ℕ) (f : S → S) (a b : S)
      → IsPolynomial n f
      → IsPolynomial (suc n) (λ x. f x ⊗ (a ⊕ x ⊗ b))
  IsPolynomial-mul n f a b p = record {
    coefficients = times a b s.zero p.coefficients;
    size = length-times a b s.zero p.coefficients ∙ ap suc p.size;
    values = λ x. rw (p.values x, horner-times a b s.zero p.coefficients x) (simp ring_laws);
  }

  pub IsPolynomial-shift :
      (cs : List S)
      → (ds : List S) × (length ds ≡ length cs) × ((x : S) → horner ds x ≡ horner cs (x ⊕ s.one))
  IsPolynomial-shift cs = (shift cs, length-shift cs, horner-shift cs)
