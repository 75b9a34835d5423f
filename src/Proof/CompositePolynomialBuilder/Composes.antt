-- ===== src/Proof/CompositePolynomialBuilder/Composes.antt =====
-- `SumcheckSubpolynomial::compose` of crates/proof-of-sql/src/sql/proof/sumcheck_subpolynomial.rs.
use sxt_proof_of_sql.Shared.{
  ℕ, ◌^◌, ◌≤◌, ◌<◌, ◌≡◌, refl, sym, ap, ap₂, ◌∙◌, List, [], ◌∷◌, length, All, Result, ok, ◌>>=◌,
}
use sxt_proof_of_sql.Scalar.{Scalar, ◌⊕◌, ◌⊗◌}
use sxt_proof_of_sql.Scalar.Ring.{ring_laws, mul-zero}
use sxt_proof_of_sql.Polynomial.Composite.AddProduct.{}
use sxt_proof_of_sql.Polynomial.MultilinearExtension.{MultilinearExtension}
use sxt_proof_of_sql.Sumcheck.Tables.{at}
use sxt_proof_of_sql.Proof.CompositePolynomialBuilder.{
  CompositePolynomialBuilder, SumcheckSubpolynomialType, produce_multiplicand, compose_terms,
}
use sxt_proof_of_sql.Proof.CompositePolynomialBuilder.Represents.{}
use sxt_proof_of_sql.Proof.CompositePolynomialBuilder.Shares.{IsBuilder, IsSlice, term_row}
use sxt_proof_of_sql.Proof.CompositePolynomialBuilder.Produces.{
  Produces, builder_row, produce_fr_multiplicand-Produces, produce_zerosum_multiplicand-Produces,
}

pub >>=-ok :
    {A B : Type 0} (m : Result (Unit {0}) A) (f : A → Result (Unit {0}) B) {a : A}
    {y : Result (Unit {0}) B}
    → m ≡ ok a
    → f a ≡ y
    → (m >>= f) ≡ y
>>=-ok m f e d = rw e d

module _ {S : Type 0} ⦃s : Scalar S⦄ where
  -- A row of an identity counts times the random scalar of the row.
  abbrev pub weighed : SumcheckSubpolynomialType → S → S → S
  weighed SumcheckSubpolynomialType.identity f x = f ⊗ x
  weighed SumcheckSubpolynomialType.zero_sum f x = x

  -- A term whose sum is to be zero has a factor.
  abbrev pub HasFactors : SumcheckSubpolynomialType → List (MultilinearExtension S) → Type 0
  HasFactors SumcheckSubpolynomialType.identity terms = Unit
  HasFactors SumcheckSubpolynomialType.zero_sum terms = 0 < length terms

  -- The sum of the terms in a row.
  abbrev pub terms_row : ℕ → List (S × List (MultilinearExtension S)) → S
  terms_row b [] = s.zero
  terms_row b (t ∷ terms) = t.0 ⊗ term_row b t.1 ⊕ terms_row b terms

  abbrev pub AreTerms :
      (ℕ → List S)
      → ℕ
      → SumcheckSubpolynomialType
      → List (S × List (MultilinearExtension S))
      → Type 0
  AreTerms slices size kind = All λ t. HasFactors kind t.1 × All (IsSlice slices size) t.1

  weighed-zero : (kind : SumcheckSubpolynomialType) (f : S) → weighed kind f s.zero ≡ s.zero
  weighed-zero SumcheckSubpolynomialType.identity f = mul-zero f
  weighed-zero SumcheckSubpolynomialType.zero_sum f = refl

  weighed_sum :
      (kind : SumcheckSubpolynomialType) (f g c t rest : S)
      → c ⊗ g ⊗ weighed kind f t ⊕ g ⊗ weighed kind f rest ≡ g ⊗ weighed kind f (c ⊗ t ⊕ rest)
  weighed_sum SumcheckSubpolynomialType.identity f g c t rest = simp ring_laws
  weighed_sum SumcheckSubpolynomialType.zero_sum f g c t rest = simp ring_laws

  swapped : (f m t : S) → f ⊗ (m ⊗ t) ≡ m ⊗ (f ⊗ t)
  swapped f m t = simp ring_laws

  produce_multiplicand-Produces :
      (slices : ℕ → List S) (n size : ℕ) (contents : List (List S))
      (kind : SumcheckSubpolynomialType) (v : CompositePolynomialBuilder S) (mult : S)
      (terms : List (MultilinearExtension S))
      → IsBuilder slices n size contents v
      → size ≤ 2 ^ n
      → HasFactors kind terms
      → All (IsSlice slices size) terms
      → Produces slices n size v
          (produce_multiplicand kind v mult terms)
          (λ b. mult ⊗ weighed kind (at v.fr.entries b) (term_row b terms))
  unfolding produce_multiplicand
  produce_multiplicand-Produces slices n size contents SumcheckSubpolynomialType.identity v mult
        terms h fits has slice =
      let p = produce_fr_multiplicand-Produces slices n size contents v mult terms h fits slice in
      record {
        after = p.after;
        contents = p.contents;
        returned = p.returned;
        is_builder = p.is_builder;
        fr_kept = p.fr_kept;
        row = λ b. p.row b ∙ ap (λ x. builder_row v b ⊕ x) (swapped (at v.fr.entries b) mult _);
      }
  produce_multiplicand-Produces slices n size contents SumcheckSubpolynomialType.zero_sum v mult
        terms h fits has slice =
      produce_zerosum_multiplicand-Produces slices n size contents v mult terms h fits has slice

  pub compose_terms-Produces :
      (slices : ℕ → List S) (n size : ℕ) (contents : List (List S))
      (kind : SumcheckSubpolynomialType) (terms : List (S × List (MultilinearExtension S)))
      (v : CompositePolynomialBuilder S) (g : S)
      → IsBuilder slices n size contents v
      → size ≤ 2 ^ n
      → AreTerms slices size kind terms
      → Produces slices n size v
          (compose_terms kind terms v g)
          (λ b. g ⊗ weighed kind (at v.fr.entries b) (terms_row b terms))
  unfolding compose_terms
  compose_terms-Produces slices n size contents kind [] v g h fits are_terms = record {
    after = v;
    contents = contents;
    returned = refl;
    is_builder = h;
    fr_kept = refl;
    row = λ b. sym (
        ap (λ x. builder_row v b ⊕ x)
          (ap (λ x. g ⊗ x) (weighed-zero kind (at v.fr.entries b)) ∙ mul-zero g)
        ∙ s.add-zero (builder_row v b));
  }
  compose_terms-Produces slices n size contents kind (t ∷ terms) v g h fits
        ((has, slice), are_terms) =
      let p =
        produce_multiplicand-Produces slices n size contents kind v (t.0 ⊗ g) t.1 h fits has
          slice in
      let q =
        compose_terms-Produces slices n size p.contents kind terms p.after g p.is_builder fits
          are_terms in
      record {
        after = q.after;
        contents = q.contents;
        returned = rw p.returned q.returned;
        is_builder = q.is_builder;
        fr_kept = q.fr_kept ∙ p.fr_kept;
        row = λ b.
            q.row b
            ∙ ap₂ (λ x m. x ⊕ g ⊗ weighed kind (at m.entries b) (terms_row b terms)) (p.row b)
                p.fr_kept
            ∙ s.add_assoc (builder_row v b) _ _
            ∙ ap (λ x. builder_row v b ⊕ x)
                (weighed_sum kind (at v.fr.entries b) g t.0 (term_row b t.1) (terms_row b terms));
      }
