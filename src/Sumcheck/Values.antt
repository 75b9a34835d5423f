-- ===== src/Sumcheck/Values.antt =====
-- What the sumcheck of crates/proof-of-sql/src/proof_primitive/sumcheck is about: the sum of the
-- products over all rows, and their value at a point.
use sxt_proof_of_sql.Shared.{
  ℕ, ◌+◌, ◌*◌, ◌^◌, ◌<◌, ◌≡◌, refl, sym, ap, ap₂, ◌∙◌, arith, List, [], ◌∷◌, length, All,
  pow_double,
}
use mathlib.Core.Path.{fun_ext}
use sxt_proof_of_sql.Scalar.{Scalar, ◌⊕◌, ◌⊖◌, ◌⊗◌}
use sxt_proof_of_sql.Scalar.Ring.{ring_laws, zero-add, add-zero, one-mul, zero-mul, add-sub}
use sxt_proof_of_sql.Scalar.Sums.{sum_to, sum_to_congr, sum_to-add, sum_to-pairs}
use sxt_proof_of_sql.Sumcheck.Tables.{line}
use sxt_proof_of_sql.Sumcheck.Round.{table_at, product_of_lines, round_polynomial, AreInRange}

module _ {S : Type 0} ⦃s : Scalar S⦄ where
  -- A coefficient times the factors of the indices.
  unfoldable pub product_by : (ℕ → S) → S → List ℕ → S
  product_by value acc [] = acc
  product_by value acc (i ∷ indices) = product_by value (acc ⊗ value i) indices

  -- The sum over the products, of what each gives.
  unfoldable pub over_products : (S → List ℕ → S) → List (S × List ℕ) → S
  over_products f [] = s.zero
  over_products f (p ∷ products) = f p.0 p.1 ⊕ over_products f products

  -- The sum of the products over the first rows.
  unfoldable pub sum_of_values : List (List S) → ℕ → List (S × List ℕ) → S
  sum_of_values tables rows =
      over_products λ c indices. sum_to rows λ b. product_by (λ i. table_at tables i b) c indices

  -- A table as a function of a point, one variable after the other, the lowest bit first.
  unfoldable pub multilinear : List S → (ℕ → S) → S
  multilinear [] table = table 0
  multilinear (r ∷ point) table = multilinear point (λ b. line table b r)

  unfoldable pub value_at : List (List S) → List (S × List ℕ) → List S → S
  value_at tables products point =
      over_products (λ c indices. product_by (λ i. multilinear point (table_at tables i)) c indices)
        products

  pub multilinear_congr :
      (point : List S) (f g : ℕ → S)
      → ((b : ℕ) → b < 2 ^ length point → f b ≡ g b)
      → multilinear point f ≡ multilinear point g
  unfolding multilinear
  multilinear_congr [] f g h = h 0 (omega arith)
  multilinear_congr (r ∷ point) f g h =
      multilinear_congr point (λ b. line f b r) (λ b. line g b r)
        λ b lt.
          ap₂ (λ x y. x ⊕ r ⊗ (y ⊖ x)) (h (b * 2) (omega (arith, pow_double (length point))))
            (h (b * 2 + 1) (omega (arith, pow_double (length point))))

  product_by_congr :
      (f g : ℕ → S) (c : S) (n : ℕ) (indices : List ℕ)
      → All (λ i. i < n) indices
      → ((i : ℕ) → i < n → f i ≡ g i)
      → product_by f c indices ≡ product_by g c indices
  unfolding product_by
  product_by_congr f g c n [] has h = refl
  product_by_congr f g c n (i ∷ indices) (lt, has) h =
      ap (λ x. product_by f (c ⊗ x) indices) (h i lt)
      ∙ product_by_congr f g (c ⊗ g i) n indices has h

  over_products_congr :
      (f g : S → List ℕ → S) (n : ℕ) (products : List (S × List ℕ))
      → All (λ p. All (λ i. i < n) p.1) products
      → ((c : S) (indices : List ℕ) → All (λ i. i < n) indices → f c indices ≡ g c indices)
      → over_products f products ≡ over_products g products
  unfolding over_products
  over_products_congr f g n [] has h = refl
  over_products_congr f g n (p ∷ products) (in_range, has) h =
      ap₂ (λ x y. x ⊕ y) (h p.0 p.1 in_range) (over_products_congr f g n products has h)

  over_products-add :
      (f g : S → List ℕ → S) (products : List (S × List ℕ))
      → over_products f products ⊕ over_products g products
        ≡ over_products (λ c indices. f c indices ⊕ g c indices) products
  unfolding over_products
  over_products-add f g [] = s.add-zero s.zero
  over_products-add f g (p ∷ products) = rw (← over_products-add f g products) (simp ring_laws)

  product_of_lines-product_by :
      (tables : List (List S)) (b : ℕ) (c : S) (indices : List ℕ) (t : S)
      → product_of_lines tables b c indices t
        ≡ product_by (λ i. line (table_at tables i) b t) c indices
  unfolding product_by
  product_of_lines-product_by tables b c [] t = refl
  product_of_lines-product_by tables b c (i ∷ indices) t =
      product_of_lines-product_by tables b (c ⊗ line (table_at tables i) b t) indices t

  round_polynomial-over_products :
      (tables : List (List S)) (rows : ℕ) (products : List (S × List ℕ)) (t : S)
      → round_polynomial tables rows products t
        ≡ over_products
            (λ c indices. sum_to rows λ b. product_by (λ i. line (table_at tables i) b t) c indices)
            products
  unfolding over_products
  round_polynomial-over_products tables rows [] t = refl
  round_polynomial-over_products tables rows (p ∷ products) t =
      ap₂ (λ x y. x ⊕ y) (sum_to_congr rows λ b _. product_of_lines-product_by tables b p.0 p.1 t)
        (round_polynomial-over_products tables rows products t)

  line-zero : (f : ℕ → S) (b : ℕ) → line f b s.zero ≡ f (b * 2)
  line-zero f b = simp (zero-mul, add-zero)

  line-one : (f : ℕ → S) (b : ℕ) → line f b s.one ≡ f (b * 2 + 1)
  line-one f b = rw (one-mul (f (b * 2 + 1) ⊖ f (b * 2))) (add-sub (f (b * 2)) (f (b * 2 + 1)))

  -- The polynomial of a round at 0 and 1: the even and the odd rows.
  pub round_polynomial-ends :
      (tables : List (List S)) (rows n : ℕ) (products : List (S × List ℕ))
      → rows * 2 ≡ n
      → round_polynomial tables rows products s.zero ⊕ round_polynomial tables rows products s.one
        ≡ sum_of_values tables n products
  unfolding sum_of_values
  round_polynomial-ends tables rows n products e =
      ap₂ (λ x y. x ⊕ y) (round_polynomial-over_products tables rows products s.zero)
        (round_polynomial-over_products tables rows products s.one)
      ∙ over_products-add _ _ products
      ∙ ap (λ f. over_products f products)
          (fun_ext λ c. fun_ext λ indices.
            sym (sum_to-add rows _ _)
            ∙ sum_to_congr rows (λ b _.
              ap₂ (λ f g. product_by f c indices ⊕ product_by g c indices)
                (fun_ext λ i. line-zero (table_at tables i) b)
                (fun_ext λ i. line-one (table_at tables i) b))
            ∙ sym (sum_to-pairs rows n _ e))

  -- Tables that hold the lines of others at `r`.
  abbrev pub AreFixed : S → ℕ → List (List S) → List (List S) → Type 0
  AreFixed r rows tables fixed =
      (i b : ℕ) → i < length tables → b < rows → table_at fixed i b ≡ line (table_at tables i) b r

  pub round_polynomial-fixed :
      (tables fixed : List (List S)) (rows : ℕ) (products : List (S × List ℕ)) (r : S)
      → AreFixed r rows tables fixed
      → AreInRange tables products
      → round_polynomial tables rows products r ≡ sum_of_values fixed rows products
  unfolding sum_of_values
  round_polynomial-fixed tables fixed rows products r same has =
      round_polynomial-over_products tables rows products r
      ∙ over_products_congr _ _ (length tables) products has λ c indices in_range.
        sum_to_congr rows
          λ b lt. product_by_congr _ _ c (length tables) indices in_range λ i h. sym (same i b h lt)

  pub value_at-fixed :
      (tables fixed : List (List S)) (products : List (S × List ℕ)) (r : S) (point : List S)
      → AreFixed r (2 ^ length point) tables fixed
      → AreInRange tables products
      → value_at fixed products point ≡ value_at tables products (r ∷ point)
  unfolding value_at multilinear
  value_at-fixed tables fixed products r point same has =
      over_products_congr _ _ (length tables) products has λ c indices in_range.
        product_by_congr _ _ c (length tables) indices in_range
          λ i h. multilinear_congr point _ _ λ b lt. same i b h lt

  -- With one row left, the polynomial of the round is the value at its variable.
  pub round_polynomial-last :
      (tables : List (List S)) (products : List (S × List ℕ)) (r : S)
      → round_polynomial tables 1 products r ≡ value_at tables products (r ∷ [])
  unfolding value_at multilinear sum_to
  round_polynomial-last tables products r =
      round_polynomial-over_products tables 1 products r
      ∙ ap (λ f. over_products f products) (fun_ext λ c. fun_ext λ indices. zero-add _)
