-- ===== src/Proof/ProofBuilder/Sum.antt =====
-- `ProofBuilder::make_sumcheck_polynomial` of crates/proof-of-sql/src/sql/proof/proof_builder.rs: the
-- sum of the polynomial over all rows.
use sxt_proof_of_sql.Shared.{
  ℕ, ◌^◌, ◌≤◌, ◌≡◌, refl, sym, ap₂, ◌∙◌, List, [], ◌∷◌, length, tabulate, length-tabulate,
  replicate, length-replicate, All, ok, ◌>>=◌,
}
use sxt_proof_of_sql.Scalar.{Scalar, ◌⊕◌, ◌⊗◌}
use sxt_proof_of_sql.Scalar.Ring.{zero-add}
use sxt_proof_of_sql.Scalar.Sums.{sum_to, sum_to_congr}
use sxt_proof_of_sql.Polynomial.Composite.{CompositePolynomial}
use sxt_proof_of_sql.Polynomial.Weights.{weight}
use sxt_proof_of_sql.Polynomial.EvaluationVector.Weighs.{compute_evaluation_vector-weight}
use sxt_proof_of_sql.Sumcheck.Tables.{at}
use sxt_proof_of_sql.Sumcheck.Evaluation.{hypercube_sum}
use sxt_proof_of_sql.Proof.MleEvaluations.{SumcheckRandomScalars, compute_entrywise_multipliers}
use sxt_proof_of_sql.Proof.CompositePolynomialBuilder.{
  CompositePolynomialBuilder, SumcheckSubpolynomial, builder_new, compose,
  make_composite_polynomial,
}
use sxt_proof_of_sql.Proof.CompositePolynomialBuilder.Shares.{IsBuilder, le-leb}
use sxt_proof_of_sql.Proof.CompositePolynomialBuilder.Produces.{Produces, builder_row}
use sxt_proof_of_sql.Proof.CompositePolynomialBuilder.Composes.{
  weighed, terms_row, AreTerms, >>=-ok, compose_terms-Produces,
}
use sxt_proof_of_sql.Proof.CompositePolynomialBuilder.Makes.{
  make_composite_polynomial-sum, builder_new-IsBuilder,
}
use sxt_proof_of_sql.Proof.ProofBuilder.{ProofBuilder, compose_all, make_sumcheck_polynomial}

module _ {S : Type 0} ⦃s : Scalar S⦄ where
  -- A row of all subpolynomials, each times its multiplier; `f` is the random scalar of the row.
  abbrev pub combined_row : List S → List (SumcheckSubpolynomial S) → S → ℕ → S
  combined_row [] subpolynomials f b = s.zero
  combined_row (g ∷ multipliers) [] f b = s.zero
  combined_row (g ∷ multipliers) (p ∷ subpolynomials) f b =
      g ⊗ weighed p.subpolynomial_type f (terms_row b p.terms)
      ⊕ combined_row multipliers subpolynomials f b

  -- The terms are slices of at most `size` entries, that are told apart by their ids.
  abbrev pub AreSubpolynomials : (ℕ → List S) → ℕ → List (SumcheckSubpolynomial S) → Type 0
  AreSubpolynomials slices size = All λ p. AreTerms slices size p.subpolynomial_type p.terms

  compose_all-Produces :
      (slices : ℕ → List S) (n size : ℕ) (contents : List (List S)) (multipliers : List S)
      (subpolynomials : List (SumcheckSubpolynomial S)) (v : CompositePolynomialBuilder S)
      → IsBuilder slices n size contents v
      → size ≤ 2 ^ n
      → AreSubpolynomials slices size subpolynomials
      → Produces slices n size v
          (compose_all multipliers subpolynomials v)
          (λ b. combined_row multipliers subpolynomials (at v.fr.entries b) b)
  unfolding compose_all compose
  compose_all-Produces slices n size contents [] subpolynomials v h fits are_terms = record {
    after = v;
    contents = contents;
    returned = refl;
    is_builder = h;
    fr_kept = refl;
    row = λ b. sym (s.add-zero (builder_row v b));
  }
  compose_all-Produces slices n size contents (g ∷ multipliers) [] v h fits are_terms = record {
    after = v;
    contents = contents;
    returned = refl;
    is_builder = h;
    fr_kept = refl;
    row = λ b. sym (s.add-zero (builder_row v b));
  }
  compose_all-Produces slices n size contents (g ∷ multipliers) (p ∷ subpolynomials) v h fits
        (are_terms, others) =
      let first =
        compose_terms-Produces slices n size contents p.subpolynomial_type p.terms v g h fits
          are_terms in
      let rest =
        compose_all-Produces slices n size first.contents multipliers subpolynomials first.after
          first.is_builder fits others in
      record {
        after = rest.after;
        contents = rest.contents;
        returned =
            >>=-ok _ (λ w. compose_all multipliers subpolynomials w) first.returned rest.returned;
        is_builder = rest.is_builder;
        fr_kept = rest.fr_kept ∙ first.fr_kept;
        row = λ b.
            rest.row b
            ∙ ap₂ (λ x m. x ⊕ combined_row multipliers subpolynomials (at m.entries b) b)
                (first.row b) first.fr_kept
            ∙ s.add_assoc (builder_row v b) _ _;
      }

  compute_entrywise_multipliers-entrywise :
      (scalars : SumcheckRandomScalars S)
      → scalars.table_length ≤ 2 ^ length scalars.entrywise_point
      → compute_entrywise_multipliers scalars
        ≡ ok (tabulate 0 scalars.table_length (weight scalars.entrywise_point))
  unfolding compute_entrywise_multipliers
  compute_entrywise_multipliers-entrywise scalars fits = rw (
    compute_evaluation_vector-weight (replicate scalars.table_length s.zero)
        scalars.entrywise_point,
    length-replicate scalars.table_length s.zero,
    le-leb scalars.table_length (2 ^ length scalars.entrywise_point) fits,
  )

module _ {S B C : Type 0} ⦃s : Scalar S⦄ where
  -- For subpolynomials over slices of at most as many entries as the table, whose terms have a factor
  -- where their sum is to be zero, and a table of no more rows than the variables allow,
  -- `make_sumcheck_polynomial` never panics, and the sum of its polynomial over all rows is that of
  -- the subpolynomials, each times its multiplier: for an identity, a row counts times the value of
  -- the Lagrange basis at the random point, and nothing past the table. Slices are shared by their
  -- addresses, which stand for their entries.
  pub make_sumcheck_polynomial-sum :
      (v : ProofBuilder S B C) (scalars : SumcheckRandomScalars S) (slices : ℕ → List S)
      → length scalars.entrywise_point ≡ v.num_sumcheck_variables
      → scalars.table_length ≤ 2 ^ v.num_sumcheck_variables
      → AreSubpolynomials slices scalars.table_length v.sumcheck_subpolynomials
      → (p : CompositePolynomial S) × (make_sumcheck_polynomial v scalars ≡ ok p)
        × (hypercube_sum p
            ≡ sum_to (2 ^ v.num_sumcheck_variables) (λ b.
              combined_row scalars.subpolynomial_multipliers v.sumcheck_subpolynomials
                (at (tabulate 0 scalars.table_length (weight scalars.entrywise_point)) b)
                b))
  unfolding make_sumcheck_polynomial
  make_sumcheck_polynomial-sum v scalars slices same fits are_terms =
      let n = v.num_sumcheck_variables in
      let fr : List S = tabulate 0 scalars.table_length (weight scalars.entrywise_point) in
      let size : length fr ≡ scalars.table_length =
        length-tabulate 0 scalars.table_length (weight scalars.entrywise_point) in
      let (builder, contents, made, h, entries, nothing) =
        builder_new-IsBuilder slices n fr (rw size fits) in
      let produced =
        compose_all-Produces slices n scalars.table_length contents
          scalars.subpolynomial_multipliers v.sumcheck_subpolynomials builder (rw size at h) fits
          are_terms in
      let (p, finished, total) =
        make_composite_polynomial-sum slices n scalars.table_length produced.contents produced.after
          produced.is_builder fits in
      (
        p,
        >>=-ok _
            (λ fr. builder_new n fr >>= λ builder.
              compose_all scalars.subpolynomial_multipliers v.sumcheck_subpolynomials builder
              >>= λ composed. make_composite_polynomial composed)
            (compute_entrywise_multipliers-entrywise scalars (rw same fits))
            (>>=-ok _
              (λ builder.
                compose_all scalars.subpolynomial_multipliers v.sumcheck_subpolynomials builder
                >>= λ composed. make_composite_polynomial composed)
              made
              (>>=-ok _ (λ composed. make_composite_polynomial composed) produced.returned
                finished)),
        total
            ∙ sum_to_congr (2 ^ n) (λ b _.
              produced.row b
              ∙ ap₂
                  (λ x f.
                    x
                    ⊕ combined_row scalars.subpolynomial_multipliers v.sumcheck_subpolynomials f b)
                  (nothing b) (entries b)
              ∙ zero-add _),
      )
