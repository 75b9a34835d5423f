-- ===== src/Proof/CompositePolynomialBuilder/Represents.antt =====
-- The products of a polynomial that `add_product` of
-- crates/proof-of-sql/src/base/polynomial/composite_polynomial.rs makes, by their shared vectors.
use sxt_proof_of_sql.Shared.{
  ℕ, zero, suc, ◌^◌, ◌<◌, ◌≡◌, refl, sym, ap, ap₂, ◌∙◌, arith, some, List, [], ◌∷◌, ◌++◌, length,
  get_elem?, All, ok, leb, if◌then◌else◌,
}
use mathlib.Core.List.{append_assoc, append-nil}
use mathlib.Core.Option.{some-injective}
use sxt_proof_of_sql.Scalar.{Scalar, ◌⊕◌, ◌⊗◌}
use sxt_proof_of_sql.Scalar.Ring.{ring_laws}
use sxt_proof_of_sql.Scalar.Sums.{sum_to, sum_to_congr}
use sxt_proof_of_sql.Polynomial.Composite.{
  Rc, CompositePolynomial, new, get_index, index_product, add_product,
}
use sxt_proof_of_sql.Polynomial.Composite.AddProduct.{
  IsAllocated, IsConsistent, AreIndexed, AreIndexed-append, index_product-Extends,
}
use sxt_proof_of_sql.Sumcheck.Tables.{at}
use sxt_proof_of_sql.Sumcheck.Round.{table_at}
use sxt_proof_of_sql.Sumcheck.Values.{product_by, over_products}
use sxt_proof_of_sql.Sumcheck.Evaluation.{hypercube_sum}
use sxt_proof_of_sql.Proof.CompositePolynomialBuilder.{add_products}

module _ {S : Type 0} where
  -- Each product is the one of the list, by the indices of its factors.
  abbrev pub AreProducts : List (List S) → List (S × List (Rc S)) → List (S × List ℕ) → Type 0
  AreProducts extensions [] [] = Unit
  AreProducts extensions [] (q ∷ qs) = ⊥
  AreProducts extensions (p ∷ ps) [] = ⊥
  AreProducts extensions (p ∷ ps) (q ∷ qs) =
      (q.0 ≡ p.0) × AreIndexed extensions p.1 q.1 × AreProducts extensions ps qs

  AreProducts-append :
      (extensions more : List (List S)) (ps : List (S × List (Rc S))) (qs : List (S × List ℕ))
      → AreProducts extensions ps qs
      → AreProducts (extensions ++ more) ps qs
  AreProducts-append extensions more [] [] h = tt
  AreProducts-append extensions more [] (q ∷ qs) h = elim h [ ]
  AreProducts-append extensions more (p ∷ ps) [] h = elim h [ ]
  AreProducts-append extensions more (p ∷ ps) (q ∷ qs) (e, indexed, rest) = (
    e,
    AreIndexed-append extensions more p.1 q.1 indexed,
    AreProducts-append extensions more ps qs rest,
  )

  AreProducts-last :
      (extensions : List (List S)) (ps : List (S × List (Rc S))) (qs : List (S × List ℕ)) (c : S)
      (ms : List (Rc S)) (indices : List ℕ)
      → AreProducts extensions ps qs
      → AreIndexed extensions ms indices
      → AreProducts extensions (ps ++ ((c, ms) ∷ [])) (qs ++ ((c, indices) ∷ []))
  AreProducts-last extensions [] [] c ms indices h indexed = (refl, indexed, tt)
  AreProducts-last extensions [] (q ∷ qs) c ms indices h indexed = elim h [ ]
  AreProducts-last extensions (p ∷ ps) [] c ms indices h indexed = elim h [ ]
  AreProducts-last extensions (p ∷ ps) (q ∷ qs) c ms indices (e, first, rest) indexed =
      (e, first, AreProducts-last extensions ps qs c ms indices rest indexed)

  -- The polynomial has the products, its table of addresses is right, and its variables are `n`.
  pub record Represents (heap : ℕ → List S) (n : ℕ) (products : List (S × List (Rc S)))
      (p : CompositePolynomial S) : Type 0 where
    pub consistent : IsConsistent heap p
    pub are_products : AreProducts p.flattened_ml_extensions products p.products
    pub variables : p.num_variables ≡ n

  pub new-Represents : (heap : ℕ → List S) (n : ℕ) → Represents heap n [] (new S n)
  unfolding new get_index
  new-Represents heap n = record { consistent = λ a i e. cc; are_products = tt; variables = refl }

  pub add_product-Represents :
      (heap : ℕ → List S) (n : ℕ) (products : List (S × List (Rc S))) (p : CompositePolynomial S)
      (c : S) (ms : List (Rc S))
      → Represents heap n products p
      → 0 < length ms
      → IsAllocated heap ms
      → (q : CompositePolynomial S) × (add_product p ms c ≡ ok q)
        × Represents heap n (products ++ ((c, ms) ∷ [])) q
  unfolding add_product
  add_product-Represents heap n products p c [] r pos allocated = absurd (omega arith)
  add_product-Represents heap n products p c (m ∷ ms) r pos allocated =
      let wider = record p {
        max_multiplicands =
            if leb p.max_multiplicands (length (m ∷ ms))
            then length (m ∷ ms)
            else p.max_multiplicands;
      } in
      let added = index_product wider (m ∷ ms) in
      let ((more, e, same_products, same_variables, _), consistent, indexed, _) =
        index_product-Extends heap wider (m ∷ ms) r.consistent allocated in
      (
        _,
        refl,
        record {
          consistent = consistent;
          are_products =
              AreProducts-last added.0.flattened_ml_extensions products added.0.products c (m ∷ ms)
                added.1
                (rw (e, same_products)
                  (AreProducts-append p.flattened_ml_extensions more products p.products
                    r.are_products))
                indexed;
          variables = same_variables ∙ r.variables;
        },
      )

  pub add_products-Represents :
      (heap : ℕ → List S) (n : ℕ) (products more : List (S × List (Rc S)))
      (p : CompositePolynomial S)
      → Represents heap n products p
      → All (λ q. (0 < length q.1) × IsAllocated heap q.1) more
      → (q : CompositePolynomial S) × (add_products p more ≡ ok q)
        × Represents heap n (products ++ more) q
  unfolding add_products
  add_products-Represents heap n products [] p r h = (p, refl, rw (append-nil products) r)
  add_products-Represents heap n products (m ∷ more) p r ((pos, allocated), h) =
      let (q, e, r') = add_product-Represents heap n products p m.0 m.1 r pos allocated in
      let (last, d, r'') = add_products-Represents heap n (products ++ (m ∷ [])) more q r' h in
      (last, rw e d, rw (← append_assoc products (m ∷ []) more) r'')

module _ {S : Type 0} ⦃s : Scalar S⦄ where
  -- The products in a row.
  abbrev pub row_product : ℕ → List (Rc S) → S
  row_product b [] = s.one
  row_product b (m ∷ ms) = at m.entries b ⊗ row_product b ms

  abbrev pub products_row : ℕ → List (S × List (Rc S)) → S
  products_row b [] = s.zero
  products_row b (p ∷ products) = p.0 ⊗ row_product b p.1 ⊕ products_row b products

  pub products_row-append :
      (b : ℕ) (ps qs : List (S × List (Rc S)))
      → products_row b (ps ++ qs) ≡ products_row b ps ⊕ products_row b qs
  products_row-append b [] qs = simp ring_laws
  products_row-append b (p ∷ ps) qs =
      ap (λ x. p.0 ⊗ row_product b p.1 ⊕ x) (products_row-append b ps qs) ∙ sym (s.add_assoc _ _ _)

  table_at_found :
      (extensions : List (List S)) (i : ℕ) (t : List S)
      → get_elem? extensions i ≡ some t
      → table_at extensions i ≡ at t
  table_at_found [] i t h = cc
  table_at_found (u ∷ extensions) zero t h = ap at (some-injective _ _ h)
  table_at_found (u ∷ extensions) (suc i) t h = table_at_found extensions i t h

  product_by-AreIndexed :
      (extensions : List (List S)) (b : ℕ) (c : S) (ms : List (Rc S)) (indices : List ℕ)
      → AreIndexed extensions ms indices
      → product_by (λ i. table_at extensions i b) c indices ≡ c ⊗ row_product b ms
  unfolding product_by
  product_by-AreIndexed extensions b c [] [] h = simp ring_laws
  product_by-AreIndexed extensions b c [] (i ∷ indices) h = elim h [ ]
  product_by-AreIndexed extensions b c (m ∷ ms) [] h = elim h [ ]
  product_by-AreIndexed extensions b c (m ∷ ms) (i ∷ indices) (found, h) =
      product_by-AreIndexed extensions b (c ⊗ table_at extensions i b) ms indices h
      ∙ ap (λ t. c ⊗ t b ⊗ row_product b ms) (table_at_found extensions i m.entries found)
      ∙ s.mul_assoc c (at m.entries b) (row_product b ms)

  over_products-AreProducts :
      (extensions : List (List S)) (b : ℕ) (ps : List (S × List (Rc S))) (qs : List (S × List ℕ))
      → AreProducts extensions ps qs
      → over_products (λ c indices. product_by (λ i. table_at extensions i b) c indices) qs
        ≡ products_row b ps
  unfolding over_products
  over_products-AreProducts extensions b [] [] h = refl
  over_products-AreProducts extensions b [] (q ∷ qs) h = elim h [ ]
  over_products-AreProducts extensions b (p ∷ ps) [] h = elim h [ ]
  over_products-AreProducts extensions b (p ∷ ps) (q ∷ qs) (e, indexed, h) =
      ap₂ ◌⊕◌
        (product_by-AreIndexed extensions b q.0 p.1 q.1 indexed ∙ ap (λ c. c ⊗ row_product b p.1) e)
        (over_products-AreProducts extensions b ps qs h)

  pub Represents-hypercube_sum :
      (heap : ℕ → List S) (n : ℕ) (products : List (S × List (Rc S))) (p : CompositePolynomial S)
      → Represents heap n products p
      → hypercube_sum p ≡ sum_to (2 ^ n) (λ b. products_row b products)
  unfolding hypercube_sum
  Represents-hypercube_sum heap n products p r =
      sum_to_congr (2 ^ p.num_variables) (λ b _.
        over_products-AreProducts p.flattened_ml_extensions b products p.products r.are_products)
      ∙ ap (λ k. sum_to (2 ^ k) (λ b. products_row b products)) r.variables
