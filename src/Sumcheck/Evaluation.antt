-- ===== src/Sumcheck/Evaluation.antt =====
-- `CompositePolynomial::evaluate` of crates/proof-of-sql/src/base/polynomial/composite_polynomial.rs,
-- and the sum over all rows.
use sxt_proof_of_sql.Shared.{
  ℕ, zero, suc, ◌+◌, ◌*◌, ◌/◌, ◌%◌, ◌^◌, ◌<◌, ◌≡◌, refl, sym, ap, ap₂, ◌∙◌, arith, List, [], ◌∷◌,
  length, get_elem?, some, tabulate, replicate, length-replicate, All, ok, pow_double, leb,
  if◌then◌else◌, ◌==◌, true,
}
use sxt_proof_of_sql.Scalar.{Scalar, ◌⊕◌, ◌⊖◌, ◌⊗◌}
use sxt_proof_of_sql.Scalar.Ring.{ring_laws, difference_laws}
use sxt_proof_of_sql.Scalar.Sums.{
  sum_to, sum_to_congr, sum_to-first, sum_to-add, sum_to-pairs, sum_to-zero,
}
use sxt_proof_of_sql.Polynomial.Weights.{weight}
use sxt_proof_of_sql.Polynomial.EvaluationVector.Weighs.{compute_evaluation_vector-weight}
use sxt_proof_of_sql.Polynomial.Composite.{
  CompositePolynomial, inner_product, product_of_evaluations, sum_of_products, evaluate,
}
use sxt_proof_of_sql.Sumcheck.Tables.{at, line}
use sxt_proof_of_sql.Sumcheck.Round.{table_at, AreInRange, AreOfDegree}
use sxt_proof_of_sql.Sumcheck.Values.{
  product_by, over_products, sum_of_values, multilinear, value_at,
}

leb_refl : (n : ℕ) → leb n n ≡ true
leb_refl n = ground arith

module _ {S : Type 0} ⦃s : Scalar S⦄ where
  -- A polynomial as `add_product` makes it, with tables of `2 ^ num_variables` entries.
  pub record IsWellFormed (p : CompositePolynomial S) : Type 0 where
    pub has_variables : 0 < p.num_variables
    pub has_degree : 0 < p.max_multiplicands
    pub sizes : All (λ t. length t ≡ 2 ^ p.num_variables) p.flattened_ml_extensions
    pub in_range : AreInRange p.flattened_ml_extensions p.products
    pub of_degree : AreOfDegree p.max_multiplicands p.products

  -- The claim: the sum over all rows of the sum of the products of the entries in the row.
  unfoldable pub hypercube_sum : CompositePolynomial S → S
  hypercube_sum p = sum_to (2 ^ p.num_variables) λ b.
      over_products
        (λ c indices. product_by (λ i. table_at p.flattened_ml_extensions i b) c indices) p.products

  sum_to-over_products :
      (n : ℕ) (f : ℕ → S → List ℕ → S) (products : List (S × List ℕ))
      → sum_to n (λ b. over_products (f b) products)
        ≡ over_products (λ c indices. sum_to n (λ b. f b c indices)) products
  unfolding over_products
  sum_to-over_products n f [] = sum_to-zero n
  sum_to-over_products n f (p ∷ products) =
      sum_to-add n (λ b. f b p.0 p.1) (λ b. over_products (f b) products)
      ∙ ap (λ x. sum_to n (λ b. f b p.0 p.1) ⊕ x) (sum_to-over_products n f products)

  pub hypercube_sum-sum_of_values :
      (p : CompositePolynomial S)
      → sum_of_values p.flattened_ml_extensions (2 ^ p.num_variables) p.products ≡ hypercube_sum p
  unfolding hypercube_sum sum_of_values
  hypercube_sum-sum_of_values p = sym (
      sum_to-over_products (2 ^ p.num_variables)
        (λ b. product_by (λ i. table_at p.flattened_ml_extensions i b)) p.products)

  even_weight :
      (r : S) (point : List S) (b : ℕ) → weight (r ∷ point) (b * 2) ≡ (s.one ⊖ r) ⊗ weight point b
  unfolding weight
  even_weight r point b =
      ap₂ (λ i j. (if i == 1 then r else s.one ⊖ r) ⊗ weight point j) {x = b * 2 % 2} {y = 0}
        {u = b * 2 / 2} {v = b} (omega arith) (omega arith)

  odd_weight :
      (r : S) (point : List S) (b : ℕ) → weight (r ∷ point) (b * 2 + 1) ≡ r ⊗ weight point b
  unfolding weight
  odd_weight r point b =
      ap₂ (λ i j. (if i == 1 then r else s.one ⊖ r) ⊗ weight point j) {x = (b * 2 + 1) % 2} {y = 1}
        {u = (b * 2 + 1) / 2} {v = b} (omega arith) (omega arith)

  -- A table at a point is the sum of its entries by the Lagrange basis.
  pub multilinear-weight :
      (point : List S) (f : ℕ → S)
      → multilinear point f ≡ sum_to (2 ^ length point) (λ i. weight point i ⊗ f i)
  unfolding multilinear sum_to
  multilinear-weight [] f = unfold weight in simp ring_laws
  multilinear-weight (r ∷ point) f =
      multilinear-weight point (λ b. line f b r)
      ∙ sum_to_congr (2 ^ length point) (λ b _.
        spread (weight point b) (f (b * 2)) (f (b * 2 + 1))
        ∙ sym (
            ap₂ (λ x y. x ⊗ f (b * 2) ⊕ y ⊗ f (b * 2 + 1)) (even_weight r point b)
              (odd_weight r point b)))
      ∙ sym (
          sum_to-pairs (2 ^ length point) (2 ^ suc (length point)) (λ i. weight (r ∷ point) i ⊗ f i)
            (omega (arith, pow_double (length point))))
    where
      spread : (w a c : S) → w ⊗ (a ⊕ r ⊗ (c ⊖ a)) ≡ (s.one ⊖ r) ⊗ w ⊗ a ⊕ r ⊗ w ⊗ c
      spread w a c = simp difference_laws

  inner_product-tabulate :
      (i n : ℕ) (w : ℕ → S) (table : List S)
      → length table ≡ n
      → inner_product (tabulate i n w) table ≡ sum_to n (λ j. w (i + j) ⊗ at table j)
  unfolding inner_product sum_to
  inner_product-tabulate i zero w [] e = refl
  inner_product-tabulate i zero w (x ∷ table) e = absurd (omega arith)
  inner_product-tabulate i (suc n) w [] e = absurd (omega arith)
  inner_product-tabulate i (suc n) w (x ∷ table) e =
      ap₂ (λ j y. w j ⊗ x ⊕ y) {x = i} {y = i + 0} (omega arith)
        (inner_product-tabulate (suc i) n w table (omega arith)
          ∙ sum_to_congr n
              (λ j _. ap (λ k. w k ⊗ at table j) {x = suc i + j} {y = i + suc j} (omega arith)))
      ∙ sym (sum_to-first n (λ j. w (i + j) ⊗ at (x ∷ table) j))

  product_by-mul :
      (f : ℕ → S) (c d : S) (indices : List ℕ)
      → product_by f (c ⊗ d) indices ≡ c ⊗ product_by f d indices
  unfolding product_by
  product_by-mul f c d [] = refl
  product_by-mul f c d (i ∷ indices) =
      ap (λ x. product_by f x indices) (s.mul_assoc c d (f i))
      ∙ product_by-mul f c (d ⊗ f i) indices

  first_factor :
      (f : ℕ → S) (i : ℕ) (indices : List ℕ)
      → f i ⊗ product_by f s.one indices ≡ product_by f s.one (i ∷ indices)
  unfolding product_by
  first_factor f i indices =
      sym (product_by-mul f (f i) s.one indices)
      ∙ ap (λ x. product_by f x indices) (s.mul_comm (f i) s.one)

  coefficient :
      (f : ℕ → S) (c : S) (indices : List ℕ)
      → c ⊗ product_by f s.one indices ≡ product_by f c indices
  coefficient f c indices =
      sym (product_by-mul f c s.one indices) ∙ ap (λ x. product_by f x indices) (s.mul-one c)

  sized_table :
      (tables : List (List S)) (n i : ℕ)
      → All (λ t. length t ≡ n) tables
      → i < length tables
      → (t : List S) × (get_elem? tables i ≡ some t) × (length t ≡ n) × (table_at tables i ≡ at t)
  sized_table [] n i sizes lt = absurd (omega arith)
  sized_table (t ∷ tables) n zero sizes lt = (t, refl, sizes.0, refl)
  sized_table (t ∷ tables) n (suc i) sizes lt = sized_table tables n i sizes.1 (omega arith)

  product_of_evaluations-product_by :
      (tables : List (List S)) (point : List S) (indices : List ℕ)
      → All (λ t. length t ≡ 2 ^ length point) tables
      → All (λ i. i < length tables) indices
      → product_of_evaluations (tabulate 0 (2 ^ length point) (weight point)) tables indices
        ≡ ok (product_by (λ i. multilinear point (table_at tables i)) s.one indices)
  unfolding product_of_evaluations
  product_of_evaluations-product_by tables point [] sizes has = unfold product_by in refl
  product_of_evaluations-product_by tables point (i ∷ indices) sizes (lt, has) =
      let (t, found, size, e) = sized_table tables (2 ^ length point) i sizes lt in
      rw (found, product_of_evaluations-product_by tables point indices sizes has)
        (ap ok (
          ap (λ x. x ⊗ product_by (λ i. multilinear point (table_at tables i)) s.one indices)
            (extension t size ∙ ap (multilinear point) (sym e))
          ∙ first_factor (λ i. multilinear point (table_at tables i)) i indices))
    where
      extension :
          (t : List S)
          → length t ≡ 2 ^ length point
          → inner_product (tabulate 0 (2 ^ length point) (weight point)) t
            ≡ multilinear point (at t)
      extension t size =
          inner_product-tabulate 0 (2 ^ length point) (weight point) t size
          ∙ sum_to_congr (2 ^ length point)
              (λ j _. ap (λ k. weight point k ⊗ at t j) {x = 0 + j} {y = j} (omega arith))
          ∙ sym (multilinear-weight point (at t))

  sum_of_products-value_at :
      (tables : List (List S)) (point : List S) (products : List (S × List ℕ))
      → All (λ t. length t ≡ 2 ^ length point) tables
      → AreInRange tables products
      → sum_of_products (tabulate 0 (2 ^ length point) (weight point)) tables products
        ≡ ok (value_at tables products point)
  unfolding sum_of_products value_at over_products
  sum_of_products-value_at tables point [] sizes has = refl
  sum_of_products-value_at tables point (p ∷ products) sizes (in_range, has) =
      rw
        (
          product_of_evaluations-product_by tables point p.1 sizes in_range,
          sum_of_products-value_at tables point products sizes has,
        )
        (ap (λ x. ok (x ⊕ value_at tables products point))
          (coefficient (λ i. multilinear point (table_at tables i)) p.0 p.1))

  -- The code's evaluation, at a point with a coordinate for each variable.
  pub evaluate-value_at :
      (p : CompositePolynomial S) (point : List S)
      → IsWellFormed p
      → length point ≡ p.num_variables
      → evaluate p point ≡ ok (value_at p.flattened_ml_extensions p.products point)
  unfolding evaluate
  evaluate-value_at p point w e =
      rw
        (
          compute_evaluation_vector-weight (replicate (2 ^ p.num_variables) s.zero) point,
          length-replicate (2 ^ p.num_variables) s.zero,
          ← e,
          leb_refl (2 ^ length point),
        )
        (sum_of_products-value_at p.flattened_ml_extensions point p.products (rw (← e) at w.sizes)
          w.in_range)
