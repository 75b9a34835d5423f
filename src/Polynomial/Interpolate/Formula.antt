-- ===== src/Polynomial/Interpolate/Formula.antt =====
-- The formula in the documentation of crates/proof-of-sql/src/base/polynomial/interpolate.rs: it
-- gives the values of a polynomial.
use sxt_proof_of_sql.Shared.{
  ℕ, zero, suc, ◌+◌, ◌-◌, ◌≤◌, ◌<◌, ◌≡◌, ◌≢◌, refl, sym, ap, ap₂, ◌∙◌, arith, List, [], ◌∷◌, length,
}
use mathlib.Core.Path.{fun_ext}
use sxt_proof_of_sql.Scalar.{Scalar, ◌⊕◌, ◌⊖◌, ◌⊗◌}
use sxt_proof_of_sql.Scalar.Ring.{
  ring_laws, difference_laws, minus_one, one-mul, sub-zero, sub_self, sub_unique, zero-mul,
  mul_nonzero, sub_nonzero, mul_left_comm, add-mul, mul-one, add-sub,
}
use sxt_proof_of_sql.Scalar.Inverse.{recip, mul-recip, mul-recip-mul}
use sxt_proof_of_sql.Scalar.Sums.{sum_to, sum_to_congr, sum_to-first, sum_to-add, mul-sum_to}
use sxt_proof_of_sql.Scalar.Naturals.{
  of_nat, factorial, of_nat-add, CharacteristicAbove, CharacteristicAbove-pred, factorial_nonzero,
}
use sxt_proof_of_sql.Polynomial.Coefficients.{horner, IsPolynomial-shift}

module _ {S : Type 0} ⦃s : Scalar S⦄ where
  -- (-1)^n
  unfoldable pub sign : ℕ → S
  sign zero = s.one
  sign (suc n) = minus_one ⊗ sign n

  unfoldable pub denominator : ℕ → S → ℕ → S
  denominator d x i = factorial i ⊗ factorial (d - i) ⊗ (x ⊖ of_nat i)

  -- (-1)^(d-i) * (f(i) / (i! * (d-i)! * (x-i)))
  unfoldable pub formula_term : ℕ → S → (ℕ → S) → ℕ → S
  formula_term d x f i = sign (d - i) ⊗ (f i ⊗ recip (denominator d x i))

  -- x (x - 1) … (x - (n - 1))
  unfoldable pub falling : ℕ → S → S
  falling zero x = s.one
  falling (suc n) x = falling n x ⊗ (x ⊖ of_nat n)

  unfoldable pub formula : ℕ → S → (ℕ → S) → S
  formula d x f = sum_to (suc d) (formula_term d x f) ⊗ falling (suc d) x

  -- `x` is none of the points 0, …, d.
  abbrev pub IsApart : ℕ → S → Type 0
  IsApart d x = (i : ℕ) → i ≤ d → x ≢ of_nat i

  sub_one_sub : (x : S) (i : ℕ) → x ⊖ of_nat (suc i) ≡ x ⊖ s.one ⊖ of_nat i
  unfolding of_nat
  sub_one_sub x i = simp difference_laws

  IsApart-sub_one : (d : ℕ) (x : S) → IsApart (suc d) x → IsApart d (x ⊖ s.one)
  unfolding of_nat
  IsApart-sub_one d x h i le e =
      h (suc i) (omega arith) (sym (s.sub-add x s.one) ∙ ap (λ y. y ⊕ s.one) e)

  falling-first : (n : ℕ) (x : S) → falling (suc n) x ≡ x ⊗ falling n (x ⊖ s.one)
  unfolding falling of_nat
  falling-first zero x = rw (sub-zero x) (simp ring_laws)
  falling-first (suc n) x = rw (falling-first n x, sub_one_sub x n) (s.mul_assoc _ _ _)

  module _ (one_nonzero : s.one ≢ s.zero) where
    pub denominator_nonzero :
        (d : ℕ) (x : S) (i : ℕ)
        → CharacteristicAbove s d
        → IsApart d x
        → i ≤ d
        → denominator d x i ≢ s.zero
    unfolding denominator
    denominator_nonzero d x i c apart le =
        mul_nonzero (factorial i ⊗ factorial (d - i)) (x ⊖ of_nat i)
          (mul_nonzero (factorial i) (factorial (d - i))
            (factorial_nonzero i one_nonzero λ k pos most. c k pos (omega arith))
            (factorial_nonzero (d - i) one_nonzero λ k pos most. c k pos (omega arith)))
          (sub_nonzero x (of_nat i) (apart i le))

    -- A factor of a point cancels the last factor of its factorial.
    cancel_factor :
        (k : ℕ) (a b rest : S)
        → b ≡ rest ⊗ of_nat k
        → of_nat k ≢ s.zero
        → rest ≢ s.zero
        → of_nat k ⊗ a ⊗ recip b ≡ a ⊗ recip rest
    cancel_factor k a b rest e hk hrest =
        ap (λ y. of_nat k ⊗ a ⊗ recip y) e
        ∙ s.mul_assoc _ _ _
        ∙ mul_left_comm _ _ _
        ∙ ap (λ y. a ⊗ y) (mul-recip-mul (of_nat k) rest hk hrest)

    move_last : (a b n y : S) → a ⊗ (b ⊗ n) ⊗ y ≡ a ⊗ b ⊗ y ⊗ n
    move_last a b n y = simp ring_laws

    denominator-first :
        (d : ℕ) (x : S) (i : ℕ)
        → denominator (suc d) x (suc i) ≡ denominator d (x ⊖ s.one) i ⊗ of_nat (suc i)
    unfolding denominator factorial
    denominator-first d x i =
        ap₂ (λ k y. factorial i ⊗ of_nat (suc i) ⊗ factorial k ⊗ y) {x = suc d - suc i} {y = d - i}
          (omega arith) (sub_one_sub x i)
        ∙ simp ring_laws

    denominator-last :
        (d : ℕ) (x : S) (i k : ℕ)
        → suc d - i ≡ suc k
        → k ≡ d - i
        → denominator (suc d) x i ≡ denominator d x i ⊗ of_nat (suc k)
    unfolding denominator factorial
    denominator-last d x i k e k_eq =
        rw (e, ← k_eq) (move_last (factorial i) (factorial k) (of_nat (suc k)) (x ⊖ of_nat i))

    module _ (d : ℕ) (x : S) (g : ℕ → S) (c : CharacteristicAbove s (suc d)) where
      term-first :
          (i : ℕ)
          → IsApart (suc d) x
          → i < suc d
          → formula_term (suc d) x (λ i. of_nat i ⊗ g i) (suc i)
            ≡ formula_term d (x ⊖ s.one) (λ i. g (suc i)) i
      unfolding formula_term
      term-first i apart lt =
          ap₂ (λ k y. sign k ⊗ y) {x = suc d - suc i} {y = d - i} (omega arith)
            (cancel_factor (suc i) (g (suc i)) _ (denominator d (x ⊖ s.one) i)
              (denominator-first d x i) (c (suc i) (omega arith) (omega arith))
              (denominator_nonzero d (x ⊖ s.one) i (CharacteristicAbove-pred d c)
                (IsApart-sub_one d x apart) (omega arith)))

      zero-term : (f : ℕ → S) (i : ℕ) → f i ≡ s.zero → formula_term (suc d) x f i ≡ s.zero
      unfolding formula_term
      zero-term f i e = rw e (simp ring_laws)

      -- A factor `y` in the values takes off the point 0.
      formula-first :
          IsApart (suc d) x
          → formula (suc d) x (λ i. of_nat i ⊗ g i) ≡ x ⊗ formula d (x ⊖ s.one) (λ i. g (suc i))
      unfolding formula of_nat
      formula-first apart =
          ap₂ (λ y z. y ⊗ z)
            (sum_to-first (suc d) (formula_term (suc d) x (λ i. of_nat i ⊗ g i))
              ∙ ap₂ (λ y z. y ⊕ z) (zero-term (λ i. of_nat i ⊗ g i) 0 (zero-mul (g 0)))
                  (sum_to_congr (suc d) λ i. term-first i apart))
            (falling-first (suc d) x)
          ∙ simp ring_laws

      last_factor :
          (i k : ℕ) → i + suc k ≡ suc d → ◌≡◌ {A = S} (of_nat (suc d) ⊖ of_nat i) (of_nat (suc k))
      last_factor i k e =
          sub_unique (of_nat (suc d)) (of_nat i) (of_nat (suc k))
            (s.add_comm _ _ ∙ sym (of_nat-add i (suc k) (suc d) e))

      term-last :
          (i : ℕ)
          → IsApart (suc d) x
          → i < suc d
          → formula_term (suc d) x (λ i. (of_nat (suc d) ⊖ of_nat i) ⊗ g i) i
            ≡ minus_one ⊗ formula_term d x g i
      unfolding formula_term sign
      term-last i apart lt =
          ap₂ (λ k y. sign k ⊗ y) {x = suc d - i} {y = suc (d - i)} (omega arith)
            (ap (λ y. y ⊗ g i ⊗ recip (denominator (suc d) x i))
                (last_factor i (d - i) (omega arith))
              ∙ cancel_factor (suc (d - i)) (g i) _ (denominator d x i)
                  (denominator-last d x i (d - i) (omega arith) refl)
                  (c (suc (d - i)) (omega arith) (omega arith))
                  (denominator_nonzero d x i (CharacteristicAbove-pred d c)
                    (λ j le. apart j (omega arith)) (omega arith)))
          ∙ s.mul_assoc _ _ _

      -- A factor `d + 1 - y` in the values takes off the point d + 1.
      formula-last :
          IsApart (suc d) x
          → formula (suc d) x (λ i. (of_nat (suc d) ⊖ of_nat i) ⊗ g i)
            ≡ (of_nat (suc d) ⊖ x) ⊗ formula d x g
      unfolding formula sum_to falling
      formula-last apart =
          ap₂ (λ y z. (y ⊕ z) ⊗ (falling (suc d) x ⊗ (x ⊖ of_nat (suc d))))
            (sum_to_congr (suc d) (λ i. term-last i apart) ∙ sym (mul-sum_to (suc d) minus_one _))
            (zero-term (λ i. (of_nat (suc d) ⊖ of_nat i) ⊗ g i) (suc d)
              (rw (sub_self (of_nat (suc d))) (zero-mul (g (suc d)))))
          ∙ turn (sum_to (suc d) (formula_term d x g)) (falling (suc d) x) x (of_nat (suc d))
        where
          turn :
              (total f x n : S)
              → (minus_one ⊗ total ⊕ s.zero) ⊗ (f ⊗ (x ⊖ n)) ≡ (n ⊖ x) ⊗ (total ⊗ f)
          turn total f x n = simp difference_laws

    formula-add :
        (d : ℕ) (x : S) (f g : ℕ → S) → formula d x (λ i. f i ⊕ g i) ≡ formula d x f ⊕ formula d x g
    unfolding formula formula_term
    formula-add d x f g =
        ap (λ y. y ⊗ falling (suc d) x)
          (sum_to_congr (suc d) (λ i _. distribute (sign (d - i)) (f i) (g i) _)
            ∙ sum_to-add (suc d) (formula_term d x f) (formula_term d x g))
        ∙ add-mul _ _ _
      where
        distribute : (a b c e : S) → a ⊗ ((b ⊕ c) ⊗ e) ≡ a ⊗ (b ⊗ e) ⊕ a ⊗ (c ⊗ e)
        distribute a b c e = simp ring_laws

    formula-zero : (x : S) (f : ℕ → S) → IsApart 0 x → formula 0 x f ≡ f 0
    unfolding formula formula_term sum_to falling sign denominator factorial of_nat
    formula-zero x f apart =
        rw (sub-zero x, mul-one s.one, one-mul x)
          (around (f 0) x (recip x) (mul-recip x (apart 0 (omega arith))))
      where
        around : (f x r : S) → x ⊗ r ≡ s.one → (s.zero ⊕ s.one ⊗ (f ⊗ r)) ⊗ x ≡ f
        around f x r e = simp ring_laws (ap (λ y. f ⊗ y) e ∙ s.mul-one f)

    -- The formula on one value at all points.
    formula-const :
        (d : ℕ) (x a : S) → CharacteristicAbove s d → IsApart d x → formula d x (λ _. a) ≡ a
    formula-const zero x a c apart = formula-zero x (λ _. a) apart
    formula-const (suc d) x a c apart =
        ap (formula (suc d) x) (fun_ext λ i. sym (parts (of_nat i)))
        ∙ formula-add (suc d) x (λ i. of_nat i ⊗ b) (λ i. (n ⊖ of_nat i) ⊗ b)
        ∙ ap₂ (λ y z. y ⊕ z)
            (formula-first d x (λ _. b) c apart
              ∙ ap (λ y. x ⊗ y)
                  (formula-const d (x ⊖ s.one) b (CharacteristicAbove-pred d c)
                    (IsApart-sub_one d x apart)))
            (formula-last d x (λ _. b) c apart
              ∙ ap (λ y. (n ⊖ x) ⊗ y)
                  (formula-const d x b (CharacteristicAbove-pred d c)
                    λ i le. apart i (omega arith)))
        ∙ parts x
      where
        n : S
        n = of_nat (suc d)

        b : S
        b = recip n ⊗ a

        parts : (y : S) → y ⊗ b ⊕ (n ⊖ y) ⊗ b ≡ a
        parts y =
            sym (add-mul y (n ⊖ y) b)
            ∙ ap (λ z. z ⊗ b) (add-sub y n)
            ∙ sym (s.mul_assoc n (recip n) a)
            ∙ ap (λ z. z ⊗ a) (mul-recip n (c (suc d) (omega arith) (omega arith)))
            ∙ one-mul a

    -- The formula on the values of a polynomial of degree `d`.
    pub formula-horner :
        (d : ℕ) (x : S) (cs : List S)
        → length cs ≡ suc d
        → CharacteristicAbove s d
        → IsApart d x
        → formula d x (λ i. horner cs (of_nat i)) ≡ horner cs x
    unfolding horner of_nat
    formula-horner d x [] e c apart = absurd (omega arith)
    formula-horner zero x (a ∷ b ∷ cs) e c apart = absurd (omega arith)
    formula-horner zero x (a ∷ []) e c apart = formula-zero x _ apart ∙ simp ring_laws
    formula-horner (suc d) x (a ∷ cs) e c apart =
        let (ds, size, shifted) = IsPolynomial-shift cs in
        let rest : formula d (x ⊖ s.one) (λ i. horner cs (of_nat (suc i))) ≡ horner cs x =
          ap (formula d (x ⊖ s.one)) (fun_ext λ i. sym (shifted (of_nat i)))
          ∙ formula-horner d (x ⊖ s.one) ds (omega arith) (CharacteristicAbove-pred d c)
              (IsApart-sub_one d x apart)
          ∙ shifted (x ⊖ s.one)
          ∙ ap (horner cs) (s.sub-add x s.one) in
        formula-add (suc d) x (λ _. a) (λ i. of_nat i ⊗ horner cs (of_nat i))
        ∙ ap₂ (λ y z. y ⊕ z) (formula-const (suc d) x a c apart)
            (formula-first d x (λ i. horner cs (of_nat i)) c apart ∙ ap (λ y. x ⊗ y) rest)
