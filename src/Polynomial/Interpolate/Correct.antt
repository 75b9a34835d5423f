-- ===== src/Polynomial/Interpolate/Correct.antt =====
-- `interpolate_uni_poly` of crates/proof-of-sql/src/base/polynomial/interpolate.rs on the samples of
-- a polynomial.
use sxt_proof_of_sql.Shared.{
  ℕ, zero, suc, ◌+◌, ◌-◌, ◌%◌, ◌≤◌, ◌<◌, ◌≡◌, ◌≢◌, ◌⊎◌, inl, inr, refl, sym, ap, ap₂, ◌∙◌, arith,
  Bool-cases, ◌==◌, if◌then◌else◌, List, tabulate, length-tabulate, get_elem?-tabulate_first, ok,
  ◌>>=◌,
}
use mathlib.Core.Path.{fun_ext}
use sxt_proof_of_sql.Scalar.{Scalar, ◌⊕◌, ◌⊖◌, ◌⊗◌}
use sxt_proof_of_sql.Scalar.Ring.{ring_laws, difference_laws, sub-zero}
use sxt_proof_of_sql.Scalar.Inverse.{recip, inv-recip}
use sxt_proof_of_sql.Scalar.Sums.{sum_to}
use sxt_proof_of_sql.Scalar.Naturals.{of_nat, factorial, CharacteristicAbove}
use sxt_proof_of_sql.Polynomial.Coefficients.{IsPolynomial}
use sxt_proof_of_sql.Polynomial.Interpolate.{
  Progress, push_factorial, scan, new_term, add_term, add_terms, from_scan, interpolate_uni_poly,
}
use sxt_proof_of_sql.Polynomial.Interpolate.Formula.{
  sign, denominator, formula_term, falling, formula, IsApart, denominator_nonzero, formula-horner,
}

lt_or_eq : (i j : ℕ) → i ≤ j → (i < j) ⊎ (i ≡ j)
lt_or_eq i j h = elim (Bool-cases (i == j)) [
  | inl e ↦ inr (ground arith)
  | inr e ↦ inl (ground arith)
]

module _ {S : Type 0} ⦃s : Scalar S⦄ where
  -- The values of `f` at 0, …, n - 1.
  abbrev pub samples : ℕ → (S → S) → List S
  samples n f = tabulate 0 n (λ i. f (of_nat i))

  -- Either `x` is one of the points, or the first loop gives the factorials.
  scan-tabulate :
      (n i : ℕ) (g : ℕ → S) (x : S)
      → ((j : ℕ) × (of_nat j ≡ x) × (scan x (of_nat i) (factorial i) (tabulate i n g) ≡ inl (g j)))
        ⊎ ((scan x (of_nat i) (factorial i) (tabulate i n g) ≡ inr (tabulate i n factorial))
            × ((j : ℕ) → i ≤ j → j < i + n → x ≢ of_nat j))
  unfolding scan push_factorial of_nat factorial
  scan-tabulate zero i g x = inr (refl, λ j lo hi. absurd (omega arith))
  scan-tabulate (suc n) i g x = elim (Bool-cases (s.is_equal (of_nat i) x)) [
    | inl same ↦ inl (i, (s.is_equal_iff (of_nat i) x).0 same, rw same)
    | inr other ↦ elim (scan-tabulate n (suc i) g x) [
      | inl (j, e, found) ↦ inl (j, e, rw (other, found))
      | inr (none_found, apart) ↦ inr (
        rw (other, none_found),
        λ j lo hi e. elim (lt_or_eq i j lo) [
          | inl later ↦ apart j (omega arith) (omega arith) e
          | inr here ↦
              absurd (cc (other, (s.is_equal_iff (of_nat i) x).1 (sym (e ∙ ap of_nat (sym here)))))
        ],
      )
    ]
  ]

  sign-parity : (m : ℕ) (a t : S) → (if m % 2 == 0 then a ⊕ t else a ⊖ t) ≡ a ⊕ sign m ⊗ t
  unfolding sign
  sign-parity zero a t = simp ring_laws
  sign-parity (suc zero) a t = simp difference_laws
  sign-parity (suc (suc m)) a t =
      ap (λ k. if k == 0 then a ⊕ t else a ⊖ t) {x = suc (suc m) % 2} {y = m % 2} (omega arith)
      ∙ sign-parity m a t
      ∙ simp difference_laws

  known :
      (g : ℕ → S) (d : ℕ) (x : S) (j : ℕ)
      → from_scan (tabulate 0 (suc d) g) d x (inl (g j)) ≡ ok (g j)
  unfolding from_scan
  known g d x j = refl

  module _ (one_nonzero : s.one ≢ s.zero) where
    module _ (d : ℕ) (x : S) (g : ℕ → S) (c : CharacteristicAbove s d) (apart : IsApart d x) where
      -- The second loop before round `i`.
      progress_at : ℕ → Progress S
      progress_at i = record {
        sum = sum_to i (formula_term d x g);
        product = falling i x;
        x_minus_i = x ⊖ of_nat i;
      }

      new_term-lem :
          (i : ℕ)
          → i ≤ d
          → new_term (tabulate 0 (suc d) g) (tabulate 0 (suc d) factorial) d i (x ⊖ of_nat i)
            ≡ ok (g i ⊗ recip (denominator d x i))
      unfolding new_term denominator
      new_term-lem i le = rw (
        get_elem?-tabulate_first (suc d) i g (omega arith),
        get_elem?-tabulate_first (suc d) i factorial (omega arith),
        get_elem?-tabulate_first (suc d) (d - i) factorial (omega arith),
        inv-recip (factorial i ⊗ factorial (d - i) ⊗ (x ⊖ of_nat i))
            (denominator_nonzero one_nonzero d x i c apart le),
      )

      add_term-lem :
          (i : ℕ)
          → add_term (d - i) (progress_at i) (g i ⊗ recip (denominator d x i)) ≡ progress_at (suc i)
      unfolding add_term progress_at sum_to falling of_nat formula_term
      add_term-lem i =
          ap₂ (λ a b. record { sum = a; product = falling i x ⊗ (x ⊖ of_nat i); x_minus_i = b })
            (sign-parity (d - i) _ _) (simp difference_laws)

      add_terms-lem :
          (rounds i : ℕ)
          → i + rounds ≡ suc d
          → add_terms rounds i
              (tabulate 0 (suc d) g)
              (tabulate 0 (suc d) factorial)
              d
              (progress_at i)
            ≡ ok (progress_at (suc d))
      unfolding add_terms progress_at of_nat factorial
      add_terms-lem zero i e = ap (λ k. ok (progress_at k)) {x = i} {y = suc d} (omega arith)
      add_terms-lem (suc rounds) i e =
          rw (new_term-lem i (omega arith), add_term-lem i)
            (add_terms-lem rounds (suc i) (omega arith))

      last_progress :
          add_terms
            (suc d)
            0
            (tabulate 0 (suc d) g)
            (tabulate 0 (suc d) factorial)
            d
            (record { sum = s.zero; product = s.one; x_minus_i = x })
          ≡ ok (progress_at (suc d))
      unfolding progress_at sum_to falling of_nat
      last_progress =
          ap
            (λ y.
              add_terms (suc d) 0 (tabulate 0 (suc d) g) (tabulate 0 (suc d) factorial) d
                (record { sum = s.zero; product = s.one; x_minus_i = y }))
            (sym (sub-zero x))
          ∙ add_terms-lem (suc d) 0 (omega arith)

      from_scan-formula :
          from_scan (tabulate 0 (suc d) g) d x (inr (tabulate 0 (suc d) factorial))
          ≡ ok (formula d x g)
      unfolding from_scan formula progress_at
      from_scan-formula = ap (λ r. r >>= λ acc. ok (acc.sum ⊗ acc.product)) last_progress

    -- The values of the code on any samples `g 0`, …, `g d`.
    pub interpolate_uni_poly-tabulate :
        (d : ℕ) (g : ℕ → S) (x : S)
        → CharacteristicAbove s d
        → ((j : ℕ) × (of_nat j ≡ x) × (interpolate_uni_poly (tabulate 0 (suc d) g) x ≡ ok (g j)))
          ⊎ (IsApart d x × (interpolate_uni_poly (tabulate 0 (suc d) g) x ≡ ok (formula d x g)))
    unfolding interpolate_uni_poly of_nat factorial
    interpolate_uni_poly-tabulate d g x c =
        let started =
          ap
            (λ k.
              from_scan (tabulate 0 (suc d) g) k x
                (scan x (of_nat 0) (factorial 0) (tabulate 0 (suc d) g)))
            (length-tabulate 1 d g) in
        elim (scan-tabulate (suc d) 0 g x) [
          | inl (j, e, found) ↦
              inl (j, e, started ∙ ap (from_scan (tabulate 0 (suc d) g) d x) found ∙ known g d x j)
          | inr (found, apart) ↦
              let far : IsApart d x = λ i le. apart i (omega arith) (omega arith) in
              inr (
                far,
                started
                    ∙ ap (from_scan (tabulate 0 (suc d) g) d x) found
                    ∙ from_scan-formula d x g c far,
              )
        ]

    -- `interpolate_uni_poly` of the values at 0, …, d of a polynomial of degree at most `d` is its
    -- value at `x`, in a field of a characteristic above `d`.
    pub interpolate_uni_poly-samples :
        (d : ℕ) (f : S → S) (x : S)
        → IsPolynomial (suc d) f
        → CharacteristicAbove s d
        → interpolate_uni_poly (samples (suc d) f) x ≡ ok (f x)
    interpolate_uni_poly-samples d f x p c =
        elim (interpolate_uni_poly-tabulate d (λ i. f (of_nat i)) x c) [
          | inl (j, e, known) ↦ known ∙ ap (λ y. ok (f y)) e
          | inr (far, value) ↦
              value
              ∙ ap (λ g. ok (formula d x g)) (fun_ext λ i. p.values (of_nat i))
              ∙ ap ok
                  (formula-horner one_nonzero d x p.coefficients p.size c far ∙ sym (p.values x))
        ]
