-- ===== src/Sumcheck/Round.antt =====
-- The values that a round of crates/proof-of-sql/src/proof_primitive/sumcheck/prover_round.rs sends:
-- they are samples of a polynomial of the degree of the proof.
use sxt_proof_of_sql.Shared.{
  ℕ, zero, suc, ◌+◌, ◌-◌, ◌*◌, ◌≤◌, ◌<◌, ◌≡◌, refl, sym, ap, subst, ◌∙◌, arith, some, List, [], ◌∷◌,
  length, get_elem?, tabulate, replicate, All, ok,
}
use sxt_proof_of_sql.Scalar.{Scalar, ◌⊕◌, ◌⊖◌, ◌⊗◌}
use sxt_proof_of_sql.Scalar.Ring.{ring_laws}
use sxt_proof_of_sql.Scalar.Sums.{sum_to}
use sxt_proof_of_sql.Scalar.Naturals.{of_nat}
use sxt_proof_of_sql.Polynomial.Coefficients.{
  IsPolynomial, IsPolynomial-const, IsPolynomial-add, IsPolynomial-mul,
}
use sxt_proof_of_sql.Polynomial.Interpolate.Correct.{samples}
use sxt_proof_of_sql.Sumcheck.Prover.{
  vec_elementwise_add, multiply_samples, multiply_row, sum_rows, sum_products,
}
use sxt_proof_of_sql.Sumcheck.Tables.{at, get_elem?-at, line}

module _ {S : Type 0} ⦃s : Scalar S⦄ where
  -- The table of an index.
  abbrev pub table_at : List (List S) → ℕ → ℕ → S
  table_at [] i = at []
  table_at (t ∷ tables) zero = at t
  table_at (t ∷ tables) (suc i) = table_at tables i

  -- The product of the lines of the factors through rows 2 b and 2 b + 1, at `t`.
  abbrev pub product_of_lines : List (List S) → ℕ → S → List ℕ → S → S
  product_of_lines tables b acc [] t = acc
  product_of_lines tables b acc (i ∷ indices) t =
      product_of_lines tables b (acc ⊗ line (table_at tables i) b t) indices t

  -- What a round sends: the sum over the products and the rows.
  abbrev pub round_polynomial : List (List S) → ℕ → List (S × List ℕ) → S → S
  round_polynomial tables rows [] t = s.zero
  round_polynomial tables rows (p ∷ products) t =
      sum_to rows (λ b. product_of_lines tables b p.0 p.1 t)
      ⊕ round_polynomial tables rows products t

  abbrev pub AreLong : ℕ → List (List S) → Type 0
  AreLong rows = All λ t. rows ≤ length t

  find_table :
      (tables : List (List S)) (rows i : ℕ)
      → AreLong rows tables
      → i < length tables
      → (t : List S) × (get_elem? tables i ≡ some t)
        × (rows ≤ length t)
        × (table_at tables i ≡ at t)
  find_table [] rows i long lt = absurd (omega arith)
  find_table (t ∷ tables) rows zero long lt = (t, refl, long.0, refl)
  find_table (t ∷ tables) rows (suc i) long lt = find_table tables rows i long.1 (omega arith)

  from_zero : (start step : S) → start ≡ start ⊕ of_nat 0 ⊗ step
  unfolding of_nat
  from_zero start step = simp ring_laws

  multiply_samples-line :
      (k i : ℕ) (f : S → S) (start step : S)
      → multiply_samples k (start ⊕ of_nat i ⊗ step) step (tabulate i (suc k) (λ j. f (of_nat j)))
        ≡ tabulate i (suc k) (λ j. f (of_nat j) ⊗ (start ⊕ of_nat j ⊗ step))
  unfolding multiply_samples of_nat
  multiply_samples-line zero i f start step = refl
  multiply_samples-line (suc k) i f start step =
      ap (λ l. f (of_nat i) ⊗ (start ⊕ of_nat i ⊗ step) ∷ l)
        (ap (λ x. multiply_samples k x step (tabulate (suc i) (suc k) (λ j. f (of_nat j))))
            (simp ring_laws)
          ∙ multiply_samples-line k (suc i) f start step)

  multiply_row-samples :
      (tables : List (List S)) (d b n : ℕ) (indices : List ℕ) (f : S → S)
      → suc b * 2 ≤ n
      → AreLong n tables
      → All (λ i. i < length tables) indices
      → multiply_row tables d b (samples (suc d) f) indices
        ≡ ok (samples (suc d) (λ t. product_of_lines tables b (f t) indices t))
  unfolding multiply_row
  multiply_row-samples tables d b n [] f h long has = refl
  multiply_row-samples tables d b n (i ∷ indices) f h long (lt, has) =
      let (t, found, size, e) = find_table tables n i long lt in
      rw (found, get_elem?-at t (b * 2) (omega arith), get_elem?-at t (b * 2 + 1) (omega arith))
        (ap (λ l. multiply_row tables d b l indices)
            (first_line (at t (b * 2)) (at t (b * 2 + 1) ⊖ at t (b * 2)))
          ∙ multiply_row-samples tables d b n indices (λ x. f x ⊗ line (at t) b x) h long has
          ∙ ap
              (λ u.
                ok (samples (suc d) (λ x. product_of_lines tables b (f x ⊗ line u b x) indices x)))
              (sym e))
    where
      first_line :
          (start step : S)
          → multiply_samples d start step (samples (suc d) f)
            ≡ samples (suc d) (λ x. f x ⊗ (start ⊕ x ⊗ step))
      first_line start step =
          ap (λ x. multiply_samples d x step (samples (suc d) f)) {y = start ⊕ of_nat 0 ⊗ step}
            (from_zero start step)
          ∙ multiply_samples-line d 0 f start step

  replicate-tabulate : (n i : ℕ) (a : S) → replicate n a ≡ tabulate i n (λ _. a)
  replicate-tabulate zero i a = refl
  replicate-tabulate (suc n) i a = ap (λ l. a ∷ l) (replicate-tabulate n (suc i) a)

  vec_elementwise_add-tabulate :
      (n i : ℕ) (f g : ℕ → S)
      → vec_elementwise_add (tabulate i n f) (tabulate i n g) ≡ tabulate i n (λ j. f j ⊕ g j)
  unfolding vec_elementwise_add
  vec_elementwise_add-tabulate zero i f g = refl
  vec_elementwise_add-tabulate (suc n) i f g =
      ap (λ l. f i ⊕ g i ∷ l) (vec_elementwise_add-tabulate n (suc i) f g)

  vec_elementwise_add-samples :
      (n : ℕ) (f g : S → S)
      → vec_elementwise_add (samples n f) (samples n g) ≡ samples n (λ t. f t ⊕ g t)
  vec_elementwise_add-samples n f g =
      vec_elementwise_add-tabulate n 0 (λ j. f (of_nat j)) (λ j. g (of_nat j))

  sum_rows-samples :
      (tables : List (List S)) (d n rows : ℕ) (c : S) (indices : List ℕ)
      → rows * 2 ≤ n
      → AreLong n tables
      → All (λ i. i < length tables) indices
      → sum_rows tables d c indices rows
        ≡ ok (samples (suc d) (λ t. sum_to rows (λ b. product_of_lines tables b c indices t)))
  unfolding sum_rows sum_to
  sum_rows-samples tables d n zero c indices h long has =
      ap ok (replicate-tabulate (suc d) 0 s.zero)
  sum_rows-samples tables d n (suc b) c indices h long has =
      rw
        (
          sum_rows-samples tables d n b c indices (omega arith) long has,
          replicate-tabulate (suc d) 0 c,
          multiply_row-samples tables d b n indices (λ _. c) h long has,
        )
        (ap ok (
          vec_elementwise_add-samples (suc d)
            (λ t. sum_to b (λ b. product_of_lines tables b c indices t))
            (product_of_lines tables b c indices)))

  abbrev pub AreInRange : List (List S) → List (S × List ℕ) → Type 0
  AreInRange tables = All λ p. All (λ i. i < length tables) p.1

  pub sum_products-samples :
      (tables : List (List S)) (d n rows : ℕ) (products : List (S × List ℕ))
      → rows * 2 ≤ n
      → AreLong n tables
      → AreInRange tables products
      → sum_products tables d rows products
        ≡ ok (samples (suc d) (round_polynomial tables rows products))
  unfolding sum_products
  sum_products-samples tables d n rows [] h long has = ap ok (replicate-tabulate (suc d) 0 s.zero)
  sum_products-samples tables d n rows (p ∷ products) h long (has, rest) =
      rw
        (
          sum_rows-samples tables d n rows p.0 p.1 h long has,
          sum_products-samples tables d n rows products h long rest,
        )
        (ap ok (
          vec_elementwise_add-samples (suc d)
            (λ t. sum_to rows (λ b. product_of_lines tables b p.0 p.1 t))
            (round_polynomial tables rows products)))

  product_of_lines-IsPolynomial :
      (tables : List (List S)) (b n m : ℕ) (f : S → S) (indices : List ℕ)
      → n + length indices ≡ m
      → IsPolynomial n f
      → IsPolynomial m (λ t. product_of_lines tables b (f t) indices t)
  product_of_lines-IsPolynomial tables b n m f [] e p =
      subst (λ k. IsPolynomial k f) {x = n} {y = m} (omega arith) p
  product_of_lines-IsPolynomial tables b n m f (i ∷ indices) e p =
      product_of_lines-IsPolynomial tables b (suc n) m _ indices (omega arith)
        (IsPolynomial-mul n f _ _ p)

  sum_to-IsPolynomial :
      (n rows : ℕ) (f : ℕ → S → S)
      → ((b : ℕ) → IsPolynomial (suc n) (f b))
      → IsPolynomial (suc n) (λ t. sum_to rows (λ b. f b t))
  unfolding sum_to
  sum_to-IsPolynomial n zero f h = IsPolynomial-const n s.zero
  sum_to-IsPolynomial n (suc rows) f h =
      IsPolynomial-add (suc n) _ (f rows) (sum_to-IsPolynomial n rows f h) (h rows)

  -- No product has more factors than the degree.
  abbrev pub AreOfDegree : ℕ → List (S × List ℕ) → Type 0
  AreOfDegree d = All λ p. length p.1 ≤ d

  pub round_polynomial-IsPolynomial :
      (tables : List (List S)) (d rows : ℕ) (products : List (S × List ℕ))
      → AreOfDegree d products
      → IsPolynomial (suc d) (round_polynomial tables rows products)
  round_polynomial-IsPolynomial tables d rows [] h = IsPolynomial-const d s.zero
  round_polynomial-IsPolynomial tables d rows (p ∷ products) (h, rest) =
      IsPolynomial-add (suc d) _ (round_polynomial tables rows products)
        (sum_to-IsPolynomial d rows (λ b. product_of_lines tables b p.0 p.1)
          λ b.
            product_of_lines-IsPolynomial tables b (suc (d - length p.1)) (suc d) (λ _. p.0) p.1
              (omega arith) (IsPolynomial-const (d - length p.1) p.0))
        (round_polynomial-IsPolynomial tables d rows products rest)
