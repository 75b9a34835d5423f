-- ===== src/Polynomial/Composite/AddProduct.antt =====
-- `add_product` of crates/proof-of-sql/src/base/polynomial/composite_polynomial.rs: vectors that are
-- shared are stored once, and the polynomial grows by the product.
use sxt_proof_of_sql.Shared.{
  ℕ, zero, suc, ◌^◌, ◌≡◌, refl, sym, ap, ◌∙◌, Bool-cases, inl, inr, Option, none, some, List, [],
  ◌∷◌, ◌++◌, length, get_elem?, replicate, All, Result, ok, >>=-eq-ok, expect_some, leb, ◌==◌,
  ==_iff, if◌then◌else◌,
}
use mathlib.Core.List.{append-nil, append_assoc}
use mathlib.Core.Option.{some-injective}
use sxt_proof_of_sql.Scalar.{Scalar, ◌⊕◌, ◌⊗◌}
use sxt_proof_of_sql.Polynomial.EvaluationVector.{compute_evaluation_vector}
use sxt_proof_of_sql.Polynomial.Composite.{
  Rc, CompositePolynomial, get_index, push_extension, index_product, add_product, inner_product,
  product_of_evaluations, sum_of_products, evaluate,
}

pub get_elem?-append_left :
    {A : Type 0} (xs ys : List A) (i : ℕ) (a : A)
    → get_elem? xs i ≡ some a
    → get_elem? (xs ++ ys) i ≡ some a
get_elem?-append_left [] ys i a h = cc
get_elem?-append_left (x ∷ xs) ys zero a h = h
get_elem?-append_left (x ∷ xs) ys (suc i) a h = get_elem?-append_left xs ys i a h

pub get_elem?-append_last :
    {A : Type 0} (xs : List A) (a : A) → get_elem? (xs ++ (a ∷ [])) (length xs) ≡ some a
get_elem?-append_last [] a = refl
get_elem?-append_last (x ∷ xs) a = get_elem?-append_last xs a

expect_some-eq-ok :
    {A : Type 0} (m : Option A) {a : A} → expect_some {E = Unit {0}} m ≡ ok a → m ≡ some a
expect_some-eq-ok none h = cc
expect_some-eq-ok (some b) h = cc

ok-injective : {A : Type 0} {a b : A} → ◌≡◌ {A = Result (Unit {0}) A} (ok a) (ok b) → a ≡ b
ok-injective h = cc

module _ {S : Type 0} where
  -- The entries of a shared vector are those at its address.
  abbrev pub IsAllocated : (ℕ → List S) → List (Rc S) → Type 0
  IsAllocated heap = All λ m. m.entries ≡ heap m.address

  -- An address in the table leads to its vector.
  abbrev pub IsConsistent : (ℕ → List S) → CompositePolynomial S → Type 0
  IsConsistent heap p =
      (a i : ℕ)
      → get_index p.raw_pointers_lookup_table a ≡ some i
      → get_elem? p.flattened_ml_extensions i ≡ some (heap a)

  -- Each factor stands at its index.
  abbrev pub AreIndexed : List (List S) → List (Rc S) → List ℕ → Type 0
  AreIndexed extensions [] [] = Unit
  AreIndexed extensions [] (i ∷ indices) = ⊥
  AreIndexed extensions (m ∷ ms) [] = ⊥
  AreIndexed extensions (m ∷ ms) (i ∷ indices) =
      (get_elem? extensions i ≡ some m.entries) × AreIndexed extensions ms indices

  -- The polynomial with more vectors and nothing else new.
  abbrev pub Extends : CompositePolynomial S → CompositePolynomial S → Type 0
  Extends p q =
      (more : List (List S)) × (q.flattened_ml_extensions ≡ p.flattened_ml_extensions ++ more)
      × (q.products ≡ p.products)
      × (q.num_variables ≡ p.num_variables)
      × (q.max_multiplicands ≡ p.max_multiplicands)

  push_extension-Extends :
      (heap : ℕ → List S) (p : CompositePolynomial S) (m : Rc S) (found : Option ℕ)
      → get_index p.raw_pointers_lookup_table m.address ≡ found
      → IsConsistent heap p
      → m.entries ≡ heap m.address
      → Extends p (push_extension p m found).0
        × IsConsistent heap (push_extension p m found).0
        × (get_elem?
              (push_extension p m found).0.flattened_ml_extensions
              (push_extension p m found).1
            ≡ some m.entries)
  unfolding push_extension get_index
  push_extension-Extends heap p m (some i) found h same =
      (([], sym (append-nil _), refl, refl, refl), h, h m.address i found ∙ ap some (sym same))
  push_extension-Extends heap p m none found h same = (
    (m.entries ∷ [], refl, refl, refl, refl),
    keep,
    get_elem?-append_last p.flattened_ml_extensions m.entries,
  )
    where
      keep : IsConsistent heap (push_extension p m none).0
      keep a i e = elim (Bool-cases (m.address == a)) [
        | inl here ↦ rw (← some-injective _ _ (rw here at e)) (
            get_elem?-append_last p.flattened_ml_extensions m.entries
            ∙ ap some (same ∙ ap heap ((==_iff m.address a).0 here)))
        | inr other ↦
            get_elem?-append_left p.flattened_ml_extensions (m.entries ∷ []) i (heap a)
              (h a i (rw other at e))
      ]

  pub AreIndexed-append :
      (extensions more : List (List S)) (ms : List (Rc S)) (indices : List ℕ)
      → AreIndexed extensions ms indices
      → AreIndexed (extensions ++ more) ms indices
  AreIndexed-append extensions more [] [] h = tt
  AreIndexed-append extensions more [] (i ∷ indices) h = elim h [ ]
  AreIndexed-append extensions more (m ∷ ms) [] h = elim h [ ]
  AreIndexed-append extensions more (m ∷ ms) (i ∷ indices) h = (
    get_elem?-append_left extensions more i m.entries h.0,
    AreIndexed-append extensions more ms indices h.1,
  )

  Extends-trans : (p q r : CompositePolynomial S) → Extends p q → Extends q r → Extends p r
  Extends-trans p q r (more, e, a, b, c) (again, d, a', b', c') = (
    more ++ again,
    d ∙ ap (λ l. l ++ again) e ∙ append_assoc p.flattened_ml_extensions more again,
    a' ∙ a,
    b' ∙ b,
    c' ∙ c,
  )

  pub index_product-Extends :
      (heap : ℕ → List S) (p : CompositePolynomial S) (ms : List (Rc S))
      → IsConsistent heap p
      → IsAllocated heap ms
      → Extends p (index_product p ms).0
        × IsConsistent heap (index_product p ms).0
        × AreIndexed (index_product p ms).0.flattened_ml_extensions ms (index_product p ms).1
        × (length (index_product p ms).1 ≡ length ms)
  unfolding index_product
  index_product-Extends heap p [] h allocated =
      (([], sym (append-nil _), refl, refl, refl), h, tt, refl)
  index_product-Extends heap p (m ∷ ms) h (same, allocated) =
      let found = get_index p.raw_pointers_lookup_table m.address in
      let q = push_extension p m found in
      let (extends, consistent, here) = push_extension-Extends heap p m found refl h same in
      let (extends', consistent', indexed, count) =
        index_product-Extends heap q.0 ms consistent allocated in
      (
        Extends-trans p q.0 (index_product q.0 ms).0 extends extends',
        consistent',
        (
          rw extends'.1
              (get_elem?-append_left q.0.flattened_ml_extensions extends'.0 q.1 m.entries here),
          indexed,
        ),
        ap suc count,
      )

module _ {S : Type 0} ⦃s : Scalar S⦄ where
  -- The product of the factors, at a vector of the values of a basis.
  unfoldable pub product_of_factors : List S → List (Rc S) → S
  product_of_factors vector [] = s.one
  product_of_factors vector (m ∷ ms) = inner_product vector m.entries ⊗ product_of_factors vector ms

  product_of_evaluations-AreIndexed :
      (vector : List S) (extensions : List (List S)) (ms : List (Rc S)) (indices : List ℕ)
      → AreIndexed extensions ms indices
      → product_of_evaluations vector extensions indices ≡ ok (product_of_factors vector ms)
  unfolding product_of_evaluations product_of_factors
  product_of_evaluations-AreIndexed vector extensions [] [] h = refl
  product_of_evaluations-AreIndexed vector extensions [] (i ∷ indices) h = elim h [ ]
  product_of_evaluations-AreIndexed vector extensions (m ∷ ms) [] h = elim h [ ]
  product_of_evaluations-AreIndexed vector extensions (m ∷ ms) (i ∷ indices) h =
      rw (h.0, product_of_evaluations-AreIndexed vector extensions ms indices h.1)

  -- More vectors change nothing.
  product_of_evaluations-append :
      (vector : List S) (extensions more : List (List S)) (indices : List ℕ) (y : S)
      → product_of_evaluations vector extensions indices ≡ ok y
      → product_of_evaluations vector (extensions ++ more) indices ≡ ok y
  unfolding product_of_evaluations
  product_of_evaluations-append vector extensions more [] y h = h
  product_of_evaluations-append vector extensions more (i ∷ indices) y h =
      let (t, found, next) = >>=-eq-ok (expect_some (get_elem? extensions i)) _ h in
      let (rest, below, last) =
        >>=-eq-ok (product_of_evaluations vector extensions indices) _ next in
      rw
        (
          get_elem?-append_left extensions more i t
              (expect_some-eq-ok (get_elem? extensions i) found),
          product_of_evaluations-append vector extensions more indices rest below,
        )
        last

  sum_of_products-append :
      (vector : List S) (extensions more : List (List S)) (products : List (S × List ℕ)) (c : S)
      (indices : List ℕ) (total value : S)
      → sum_of_products vector extensions products ≡ ok total
      → product_of_evaluations vector (extensions ++ more) indices ≡ ok value
      → sum_of_products vector (extensions ++ more) (products ++ ((c, indices) ∷ []))
        ≡ ok (total ⊕ c ⊗ value)
  unfolding sum_of_products
  sum_of_products-append vector extensions more [] c indices total value h k =
      rw k (ap ok (s.add_comm (c ⊗ value) s.zero ∙ ap (λ x. x ⊕ c ⊗ value) (ok-injective h)))
  sum_of_products-append vector extensions more (p ∷ products) c indices total value h k =
      let (y, first, next) = >>=-eq-ok (product_of_evaluations vector extensions p.1) _ h in
      let (rest, others, last) = >>=-eq-ok (sum_of_products vector extensions products) _ next in
      rw
        (
          product_of_evaluations-append vector extensions more p.1 y first,
          sum_of_products-append vector extensions more products c indices rest value others k,
        )
        (ap ok (
          sym (s.add_assoc (p.0 ⊗ y) rest (c ⊗ value))
          ∙ ap (λ x. x ⊕ c ⊗ value) (ok-injective last)))

  -- `add_product` of shared vectors to a polynomial whose table of addresses is right: where the
  -- polynomial has a value at a point, the new polynomial has that value plus the coefficient times
  -- the product of the values of the factors, inner products with the vector of the point. Its
  -- table of addresses is right, and its degree is the larger of the two.
  pub add_product-evaluate :
      (heap : ℕ → List S) (p : CompositePolynomial S) (m : Rc S) (ms : List (Rc S)) (c : S)
      (point vector : List S) (value : S)
      → IsConsistent heap p
      → IsAllocated heap (m ∷ ms)
      → compute_evaluation_vector (replicate (2 ^ p.num_variables) s.zero) point ≡ ok vector
      → evaluate p point ≡ ok value
      → (q : CompositePolynomial S) × (add_product p (m ∷ ms) c ≡ ok q)
        × IsConsistent heap q
        × (evaluate q point ≡ ok (value ⊕ c ⊗ product_of_factors vector (m ∷ ms)))
        × (q.max_multiplicands ≡ (
            if leb p.max_multiplicands (length (m ∷ ms))
            then length (m ∷ ms)
            else p.max_multiplicands))
  unfolding add_product evaluate
  add_product-evaluate heap p m ms c point vector value h allocated basis before =
      let wider = record p {
        max_multiplicands =
            if leb p.max_multiplicands (length (m ∷ ms))
            then length (m ∷ ms)
            else p.max_multiplicands;
      } in
      let added = index_product wider (m ∷ ms) in
      let ((more, e, same_products, same_variables, same_degree), consistent, indexed, _) =
        index_product-Extends heap wider (m ∷ ms) h allocated in
      (
        _,
        refl,
        consistent,
        rw (same_variables, basis, e, same_products)
            (sum_of_products-append vector p.flattened_ml_extensions more p.products c added.1 value
              _ (rw basis at before)
              (ap (λ l. product_of_evaluations vector l added.1) (sym e)
                ∙ product_of_evaluations-AreIndexed vector added.0.flattened_ml_extensions (m ∷ ms)
                    added.1 indexed)),
        same_degree,
      )
