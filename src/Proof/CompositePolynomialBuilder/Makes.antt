-- ===== src/Proof/CompositePolynomialBuilder/Makes.antt =====
-- `CompositePolynomialBuilder::new` and `make_composite_polynomial` of
-- crates/proof-of-sql/src/sql/proof/composite_polynomial_builder.rs.
use sxt_proof_of_sql.Shared.{
  ℕ, zero, suc, ◌-◌, ◌^◌, ◌≤◌, ◌<◌, ◌≡◌, refl, sym, ap, ap₂, ◌∙◌, arith, some, List, [], ◌∷◌, ◌++◌,
  length, get_elem?, replicate, length-replicate, All, ok, ◌>>=◌,
}
use mathlib.Core.Option.{some-injective}
use sxt_proof_of_sql.Scalar.{Scalar, ◌⊕◌, ◌⊗◌}
use sxt_proof_of_sql.Scalar.Ring.{ring_laws, mul-zero}
use sxt_proof_of_sql.Scalar.Sums.{sum_to, sum_to_congr}
use sxt_proof_of_sql.Polynomial.Composite.{Rc, CompositePolynomial, new}
use sxt_proof_of_sql.Polynomial.Composite.AddProduct.{
  IsAllocated, get_elem?-append_left, get_elem?-append_last,
}
use sxt_proof_of_sql.Polynomial.MultilinearExtension.{to_sumcheck_term}
use sxt_proof_of_sql.Sumcheck.Tables.{at}
use sxt_proof_of_sql.Sumcheck.Evaluation.{hypercube_sum}
use sxt_proof_of_sql.Proof.CompositePolynomialBuilder.{
  CompositePolynomialBuilder, builder_new, get_mle, add_products, with_fr,
  make_composite_polynomial,
}
use sxt_proof_of_sql.Proof.CompositePolynomialBuilder.Represents.{
  new-Represents, add_product-Represents, add_products-Represents, products_row,
  products_row-append, Represents-hypercube_sum,
}
use sxt_proof_of_sql.Proof.CompositePolynomialBuilder.Shares.{
  IsKnown, AreKnown, Grows, AreKnown-Grows, IsBuilder, at-append_zeros, le-leb,
}
use sxt_proof_of_sql.Proof.CompositePolynomialBuilder.Produces.{builder_row}
use sxt_proof_of_sql.Proof.CompositePolynomialBuilder.Composes.{>>=-ok}

module _ {S : Type 0} ⦃s : Scalar S⦄ where
  products_row-with_fr :
      (b : ℕ) (fr : Rc S) (ps : List (S × List (Rc S)))
      → products_row b (with_fr fr ps) ≡ at fr.entries b ⊗ products_row b ps
  unfolding with_fr
  products_row-with_fr b fr [] = sym (mul-zero (at fr.entries b))
  products_row-with_fr b fr (p ∷ ps) =
      rw (products_row-with_fr b fr ps) (in_front p.0 (at fr.entries b) _ _)
    where
      in_front : (c f x y : S) → c ⊗ (f ⊗ x) ⊕ f ⊗ y ≡ f ⊗ (c ⊗ x ⊕ y)
      in_front c f x y = simp ring_laws

  all_rows : (f d r z : S) → s.one ⊗ (f ⊗ (d ⊗ s.one)) ⊕ s.zero ⊕ f ⊗ r ⊕ z ≡ f ⊗ (d ⊕ r) ⊕ z
  all_rows f d r z = simp ring_laws

  -- The vector at an address.
  abbrev heap_of : List (List S) → ℕ → List S
  heap_of [] a = []
  heap_of (t ∷ contents) zero = t
  heap_of (t ∷ contents) (suc a) = heap_of contents a

  heap_of_found :
      (contents : List (List S)) (a : ℕ) (t : List S)
      → get_elem? contents a ≡ some t
      → t ≡ heap_of contents a
  heap_of_found [] a t h = cc
  heap_of_found (u ∷ contents) zero t h = sym (some-injective _ _ h)
  heap_of_found (u ∷ contents) (suc a) t h = heap_of_found contents a t h

  IsAllocated-heap_of :
      (contents : List (List S)) (ms : List (Rc S))
      → All (IsKnown contents) ms
      → IsAllocated (heap_of contents) ms
  IsAllocated-heap_of contents [] h = tt
  IsAllocated-heap_of contents (m ∷ ms) (known, h) =
      (heap_of_found contents m.address m.entries known, IsAllocated-heap_of contents ms h)

  AreAllocated-products :
      (contents : List (List S)) (ps : List (S × List (Rc S)))
      → AreKnown contents ps
      → All (λ q. (0 < length q.1) × IsAllocated (heap_of contents) q.1) ps
  AreAllocated-products contents [] h = tt
  AreAllocated-products contents (p ∷ ps) ((pos, known), h) =
      ((pos, IsAllocated-heap_of contents p.1 known), AreAllocated-products contents ps h)

  AreKnown-with_fr :
      (contents : List (List S)) (fr : Rc S) (ps : List (S × List (Rc S)))
      → IsKnown contents fr
      → AreKnown contents ps
      → AreKnown contents (with_fr fr ps)
  unfolding with_fr
  AreKnown-with_fr contents fr [] known h = tt
  AreKnown-with_fr contents fr (p ∷ ps) known ((pos, others), h) =
      ((omega arith, (known, others)), AreKnown-with_fr contents fr ps known h)

  to_sumcheck_term-fits :
      (address : ℕ) (values : List S) (n : ℕ)
      → length values ≤ 2 ^ n
      → to_sumcheck_term address values n
        ≡ ok (record {
          address = address;
          entries = values ++ replicate (2 ^ n - length values) s.zero;
        })
  unfolding to_sumcheck_term
  to_sumcheck_term-fits address values n fits = rw (le-leb (length values) (2 ^ n) fits)

  pub make_composite_polynomial-sum :
      (slices : ℕ → List S) (n size : ℕ) (contents : List (List S))
      (v : CompositePolynomialBuilder S)
      → IsBuilder slices n size contents v
      → size ≤ 2 ^ n
      → (p : CompositePolynomial S) × (make_composite_polynomial v ≡ ok p)
        × (hypercube_sum p ≡ sum_to (2 ^ n) (builder_row v))
  unfolding make_composite_polynomial
  make_composite_polynomial-sum slices n size contents v h fits =
      let padded : List S =
        v.fr_multiplicands_degree1
        ++ replicate (2 ^ v.num_sumcheck_variables - length v.fr_multiplicands_degree1) s.zero in
      let degree1 : Rc S = record { address = v.next_address; entries = padded } in
      let all : List (List S) = contents ++ (padded ∷ []) in
      let grows : Grows contents all =
        λ i u k. get_elem?-append_left contents (padded ∷ []) i u k in
      let degree1_known : IsKnown all degree1 =
        ap (get_elem? all) h.next_free ∙ get_elem?-append_last contents padded in
      let fr_known : IsKnown all v.fr = grows v.fr.address v.fr.entries h.fr_known in
      let first : List (S × List (Rc S)) = (s.one, v.fr ∷ degree1 ∷ []) ∷ [] in
      let second : List (S × List (Rc S)) = with_fr v.fr v.fr_multiplicands_rest in
      let (p, e, r) =
        add_product-Represents (heap_of all) v.num_sumcheck_variables []
          (new S v.num_sumcheck_variables) s.one (v.fr ∷ degree1 ∷ [])
          (new-Represents (heap_of all) v.num_sumcheck_variables) (omega arith)
          (IsAllocated-heap_of all (v.fr ∷ degree1 ∷ []) (fr_known, (degree1_known, tt))) in
      let (p', e', r') =
        add_products-Represents (heap_of all) v.num_sumcheck_variables first second p r (
          AreAllocated-products all second (
            AreKnown-with_fr all v.fr v.fr_multiplicands_rest fr_known
              (AreKnown-Grows contents all v.fr_multiplicands_rest grows h.rest_known))) in
      let (p'', e'', r'') =
        add_products-Represents (heap_of all) v.num_sumcheck_variables (first ++ second)
          v.zerosum_multiplicands p' r'
          (AreAllocated-products all v.zerosum_multiplicands
            (AreKnown-Grows contents all v.zerosum_multiplicands grows h.zerosum_known)) in
      let rows : (b : ℕ)
          → products_row b ((first ++ second) ++ v.zerosum_multiplicands) ≡ builder_row v b =
        λ b.
          products_row-append b (first ++ second) v.zerosum_multiplicands
          ∙ ap (λ x. x ⊕ products_row b v.zerosum_multiplicands)
              (products_row-append b first second
                ∙ ap₂ (λ d x. s.one ⊗ (at v.fr.entries b ⊗ (d ⊗ s.one)) ⊕ s.zero ⊕ x)
                    (at-append_zeros v.fr_multiplicands_degree1
                      (2 ^ v.num_sumcheck_variables - length v.fr_multiplicands_degree1) b)
                    (products_row-with_fr b v.fr v.fr_multiplicands_rest))
          ∙ all_rows _ _ _ _ in
      (
        p'',
        >>=-ok _ _
            (to_sumcheck_term-fits v.next_address v.fr_multiplicands_degree1
              v.num_sumcheck_variables (rw (h.variables, h.degree1_size) fits))
            (>>=-ok _ (λ x. add_products x second >>= λ y. add_products y v.zerosum_multiplicands) e
              (>>=-ok _ (λ y. add_products y v.zerosum_multiplicands) e' e'')),
        Represents-hypercube_sum (heap_of all) v.num_sumcheck_variables _ p'' r''
            ∙ sum_to_congr (2 ^ v.num_sumcheck_variables) (λ b _. rows b)
            ∙ ap (λ k. sum_to (2 ^ k) (builder_row v)) h.variables,
      )

  pub at_past : (xs : List S) (b : ℕ) → length xs ≤ b → at xs b ≡ s.zero
  at_past [] b h = refl
  at_past (x ∷ xs) zero h = absurd (omega arith)
  at_past (x ∷ xs) (suc b) h = at_past xs b (omega arith)

  pub builder_new-IsBuilder :
      (slices : ℕ → List S) (n : ℕ) (fr : List S)
      → length fr ≤ 2 ^ n
      → (v : CompositePolynomialBuilder S) × (contents : List (List S)) × (builder_new n fr ≡ ok v)
        × IsBuilder slices n (length fr) contents v
        × ((b : ℕ) → at v.fr.entries b ≡ at fr b)
        × ((b : ℕ) → builder_row v b ≡ s.zero)
  unfolding builder_new get_mle
  builder_new-IsBuilder slices n fr fits =
      let padded : List S = fr ++ replicate (2 ^ n - length fr) s.zero in
      (
        record {
          num_sumcheck_variables = n;
          fr_multiplicands_degree1 = replicate (length fr) s.zero;
          fr_multiplicands_rest = [];
          zerosum_multiplicands = [];
          fr = record { address = 0; entries = padded };
          mles = [];
          next_address = 1;
        },
        padded ∷ [],
        rw (le-leb (length fr) (2 ^ n) fits),
        record {
          variables = refl;
          degree1_size = length-replicate (length fr) s.zero;
          next_free = refl;
          fr_known = refl;
          fr_past = λ b past. at-append_zeros fr (2 ^ n - length fr) b ∙ at_past fr b past;
          mles_known = λ id m e. absurd (cc e);
          rest_known = tt;
          zerosum_known = tt;
        },
        (λ b. at-append_zeros fr (2 ^ n - length fr) b),
        λ b. rw (at-append_zeros [] (length fr) b) (nothing_yet _),
      )
    where
      nothing_yet : (f : S) → f ⊗ (s.zero ⊕ s.zero) ⊕ s.zero ≡ s.zero
      nothing_yet f = simp ring_laws
