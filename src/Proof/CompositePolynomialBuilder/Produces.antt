-- ===== src/Proof/CompositePolynomialBuilder/Produces.antt =====
-- The operations of crates/proof-of-sql/src/sql/proof/composite_polynomial_builder.rs and
-- sumcheck_subpolynomial.rs: what each adds to a row of the polynomial.
use sxt_proof_of_sql.Shared.{
  ℕ, zero, suc, ◌^◌, ◌≤◌, ◌<◌, ◌≡◌, ◌⊎◌, refl, sym, ap, ◌∙◌, arith, Bool-cases, inl, inr, List, [],
  ◌∷◌, ◌++◌, length, map, All, Result, ok, leb,
}
use sxt_proof_of_sql.Scalar.{Scalar, ◌⊕◌, ◌⊗◌}
use sxt_proof_of_sql.Scalar.Ring.{ring_laws, mul-zero, zero-mul}
use sxt_proof_of_sql.Polynomial.MultilinearExtension.{
  MultilinearExtension, add_multiples, mul_add_assign, mul_add,
}
use sxt_proof_of_sql.Sumcheck.Tables.{at}
use sxt_proof_of_sql.Proof.CompositePolynomialBuilder.{
  CompositePolynomialBuilder, produce_fr_multiplicand, produce_zerosum_multiplicand,
}
use sxt_proof_of_sql.Proof.CompositePolynomialBuilder.Represents.{products_row, products_row-append}
use sxt_proof_of_sql.Proof.CompositePolynomialBuilder.Shares.{
  IsBuilder, IsSlice, term_row, AreKnown-last, create_multiplicand-IsBuilder, le-leb,
}

module _ {S : Type 0} ⦃s : Scalar S⦄ where
  at-map_add :
      (xs : List S) (mult : S) (b : ℕ)
      → b < length xs
      → at (map (λ x. x ⊕ mult) xs) b ≡ at xs b ⊕ mult
  at-map_add [] mult b h = absurd (omega arith)
  at-map_add (x ∷ xs) mult zero h = refl
  at-map_add (x ∷ xs) mult (suc b) h = at-map_add xs mult b (omega arith)

  length-map_add : (xs : List S) (mult : S) → length (map (λ x. x ⊕ mult) xs) ≡ length xs
  length-map_add [] mult = refl
  length-map_add (x ∷ xs) mult = ap suc (length-map_add xs mult)

  add_nothing : (x m : S) → x ≡ x ⊕ m ⊗ s.zero
  add_nothing x m = sym (ap (λ y. x ⊕ y) (mul-zero m) ∙ s.add-zero x)

  pub at-add_multiples :
      (xs : List S) (m : S) (ys : List S) (b : ℕ)
      → length ys ≤ length xs
      → at (add_multiples xs m ys) b ≡ at xs b ⊕ m ⊗ at ys b
  unfolding add_multiples
  at-add_multiples [] m [] b h = add_nothing s.zero m
  at-add_multiples [] m (y ∷ ys) b h = absurd (omega arith)
  at-add_multiples (x ∷ xs) m [] b h = add_nothing (at (x ∷ xs) b) m
  at-add_multiples (x ∷ xs) m (y ∷ ys) zero h = refl
  at-add_multiples (x ∷ xs) m (y ∷ ys) (suc b) h = at-add_multiples xs m ys b (omega arith)

  pub length-add_multiples :
      (xs : List S) (m : S) (ys : List S) → length (add_multiples xs m ys) ≡ length xs
  unfolding add_multiples
  length-add_multiples [] m ys = refl
  length-add_multiples (x ∷ xs) m [] = refl
  length-add_multiples (x ∷ xs) m (y ∷ ys) = ap suc (length-add_multiples xs m ys)

  -- A row of the polynomial that a builder stands for.
  abbrev pub builder_row : CompositePolynomialBuilder S → ℕ → S
  builder_row v b =
      at v.fr.entries b ⊗ (at v.fr_multiplicands_degree1 b ⊕ products_row b v.fr_multiplicands_rest)
      ⊕ products_row b v.zerosum_multiplicands

  -- An operation returns a builder whose rows have grown by what is added.
  pub record Produces (slices : ℕ → List S) (n size : ℕ) (v : CompositePolynomialBuilder S)
      (result : Result (Unit {0}) (CompositePolynomialBuilder S)) (added : ℕ → S) : Type 0 where
    pub after : CompositePolynomialBuilder S
    pub contents : List (List S)
    pub returned : result ≡ ok after
    pub is_builder : IsBuilder slices n size contents after
    pub fr_kept : after.fr ≡ v.fr
    pub row : (b : ℕ) → builder_row after b ≡ builder_row v b ⊕ added b

  -- Past the end of `fr` nothing counts.
  in_fr :
      (slices : ℕ → List S) (n size : ℕ) (contents : List (List S))
      (v : CompositePolynomialBuilder S) (b : ℕ)
      → IsBuilder slices n size contents v
      → (b < size) ⊎ (at v.fr.entries b ≡ s.zero)
  in_fr slices n size contents v b h = elim (Bool-cases (leb size b)) [
    | inl past ↦ inr (h.fr_past b (ground (arith, past)))
    | inr within ↦ inl (ground (arith, within))
  ]

  constant_row : (f d m r z : S) → f ⊗ (d ⊕ m ⊕ r) ⊕ z ≡ f ⊗ (d ⊕ r) ⊕ z ⊕ f ⊗ (m ⊗ s.one)
  constant_row f d m r z = simp ring_laws

  no_row : (d e m r z : S) → s.zero ⊗ (d ⊕ r) ⊕ z ≡ s.zero ⊗ (e ⊕ r) ⊕ z ⊕ s.zero ⊗ m
  no_row d e m r z =
      rw (zero-mul (d ⊕ r), zero-mul (e ⊕ r), zero-mul m) (sym (s.add-zero (s.zero ⊕ z)))

  linear_row : (f d m t r z : S) → f ⊗ (d ⊕ m ⊗ t ⊕ r) ⊕ z ≡ f ⊗ (d ⊕ r) ⊕ z ⊕ f ⊗ (m ⊗ (t ⊗ s.one))
  linear_row f d m t r z = simp ring_laws

  rest_row :
      (f d r m t z : S) → f ⊗ (d ⊕ (r ⊕ (m ⊗ t ⊕ s.zero))) ⊕ z ≡ f ⊗ (d ⊕ r) ⊕ z ⊕ f ⊗ (m ⊗ t)
  rest_row f d r m t z = simp ring_laws

  zerosum_row : (x z m t : S) → x ⊕ (z ⊕ (m ⊗ t ⊕ s.zero)) ≡ x ⊕ z ⊕ m ⊗ t
  zerosum_row x z m t = simp ring_laws

  pub produce_fr_multiplicand-Produces :
      (slices : ℕ → List S) (n size : ℕ) (contents : List (List S))
      (v : CompositePolynomialBuilder S) (mult : S) (terms : List (MultilinearExtension S))
      → IsBuilder slices n size contents v
      → size ≤ 2 ^ n
      → All (IsSlice slices size) terms
      → Produces slices n size v
          (produce_fr_multiplicand v mult terms)
          (λ b. at v.fr.entries b ⊗ (mult ⊗ term_row b terms))
  unfolding produce_fr_multiplicand mul_add mul_add_assign
  produce_fr_multiplicand-Produces slices n size contents v mult [] h fits slice = record {
    after = record v {
      fr_multiplicands_degree1 = map (λ val. val ⊕ mult) v.fr_multiplicands_degree1;
    };
    contents = contents;
    returned = refl;
    is_builder = record {
      variables = h.variables;
      degree1_size = length-map_add v.fr_multiplicands_degree1 mult ∙ h.degree1_size;
      next_free = h.next_free;
      fr_known = h.fr_known;
      fr_past = h.fr_past;
      mles_known = h.mles_known;
      rest_known = h.rest_known;
      zerosum_known = h.zerosum_known;
    };
    fr_kept = refl;
    row = λ b. elim (in_fr slices n size contents v b h) [
      | inl within ↦
          rw (at-map_add v.fr_multiplicands_degree1 mult b (omega (arith, within, h.degree1_size)))
            (constant_row _ _ mult _ _)
      | inr past ↦ rw past (no_row _ _ _ _ _)
    ];
  }
  produce_fr_multiplicand-Produces slices n size contents v mult (t ∷ []) h fits
        ((same, short), slice) =
      record {
        after = record v {
          fr_multiplicands_degree1 = add_multiples v.fr_multiplicands_degree1 mult t.values;
        };
        contents = contents;
        returned = rw (
            le-leb (length t.values) (length v.fr_multiplicands_degree1)
              (omega (arith, short, h.degree1_size)));
        is_builder = record {
          variables = h.variables;
          degree1_size =
              length-add_multiples v.fr_multiplicands_degree1 mult t.values ∙ h.degree1_size;
          next_free = h.next_free;
          fr_known = h.fr_known;
          fr_past = h.fr_past;
          mles_known = h.mles_known;
          rest_known = h.rest_known;
          zerosum_known = h.zerosum_known;
        };
        fr_kept = refl;
        row = λ b.
            rw
              (at-add_multiples v.fr_multiplicands_degree1 mult t.values b
                (omega (arith, short, h.degree1_size)))
              (linear_row _ _ mult _ _ _);
      }
  produce_fr_multiplicand-Produces slices n size contents v mult (t ∷ t' ∷ terms) h fits slice =
      let (w, ms, after, e, grows, h', (fr, degree1, rest, zerosum), known, count, rows) =
        create_multiplicand-IsBuilder slices n size contents v (t ∷ t' ∷ terms) h fits slice in
      record {
        after = record w { fr_multiplicands_rest = w.fr_multiplicands_rest ++ ((mult, ms) ∷ []) };
        contents = after;
        returned = rw e;
        is_builder = record {
          variables = h'.variables;
          degree1_size = h'.degree1_size;
          next_free = h'.next_free;
          fr_known = h'.fr_known;
          fr_past = h'.fr_past;
          mles_known = h'.mles_known;
          rest_known =
              AreKnown-last after w.fr_multiplicands_rest mult ms h'.rest_known
                (omega (arith, count)) known;
          zerosum_known = h'.zerosum_known;
        };
        fr_kept = fr;
        row = λ b.
            rw
              (
                fr,
                degree1,
                rest,
                zerosum,
                products_row-append b v.fr_multiplicands_rest ((mult, ms) ∷ []),
                rows b,
              )
              (rest_row _ _ _ mult _ _);
      }

  pub produce_zerosum_multiplicand-Produces :
      (slices : ℕ → List S) (n size : ℕ) (contents : List (List S))
      (v : CompositePolynomialBuilder S) (mult : S) (terms : List (MultilinearExtension S))
      → IsBuilder slices n size contents v
      → size ≤ 2 ^ n
      → 0 < length terms
      → All (IsSlice slices size) terms
      → Produces slices n size v
          (produce_zerosum_multiplicand v mult terms)
          (λ b. mult ⊗ term_row b terms)
  unfolding produce_zerosum_multiplicand
  produce_zerosum_multiplicand-Produces slices n size contents v mult [] h fits pos slice =
      absurd (omega arith)
  produce_zerosum_multiplicand-Produces slices n size contents v mult (t ∷ terms) h fits pos slice =
      let (w, ms, after, e, grows, h', (fr, degree1, rest, zerosum), known, count, rows) =
        create_multiplicand-IsBuilder slices n size contents v (t ∷ terms) h fits slice in
      record {
        after = record w { zerosum_multiplicands = w.zerosum_multiplicands ++ ((mult, ms) ∷ []) };
        contents = after;
        returned = rw e;
        is_builder = record {
          variables = h'.variables;
          degree1_size = h'.degree1_size;
          next_free = h'.next_free;
          fr_known = h'.fr_known;
          fr_past = h'.fr_past;
          mles_known = h'.mles_known;
          rest_known = h'.rest_known;
          zerosum_known =
              AreKnown-last after w.zerosum_multiplicands mult ms h'.zerosum_known
                (omega (arith, count)) known;
        };
        fr_kept = fr;
        row = λ b.
            rw
              (
                fr,
                degree1,
                rest,
                zerosum,
                products_row-append b v.zerosum_multiplicands ((mult, ms) ∷ []),
                rows b,
              )
              (zerosum_row _ _ mult _);
      }
