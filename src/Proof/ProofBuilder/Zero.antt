-- ===== src/Proof/ProofBuilder/Zero.antt =====
-- `ProofBuilder::make_sumcheck_polynomial` of crates/proof-of-sql/src/sql/proof/proof_builder.rs where
-- the constraints hold.
use sxt_proof_of_sql.Shared.{
  ℕ, ◌^◌, ◌≤◌, ◌<◌, ◌≡◌, sym, ap, ap₂, ◌∙◌, arith, Bool-cases, inl, inr, List, [], ◌∷◌, length,
  tabulate, length-tabulate, All, ok, leb,
}
use sxt_proof_of_sql.Scalar.{Scalar, ◌⊕◌, ◌⊗◌}
use sxt_proof_of_sql.Scalar.Ring.{mul-zero, zero-mul}
use sxt_proof_of_sql.Scalar.Sums.{sum_to, sum_to_congr, sum_to-zero, sum_to-add, mul-sum_to}
use sxt_proof_of_sql.Polynomial.Composite.{CompositePolynomial}
use sxt_proof_of_sql.Polynomial.Weights.{weight}
use sxt_proof_of_sql.Polynomial.MultilinearExtension.{MultilinearExtension}
use sxt_proof_of_sql.Sumcheck.Tables.{at}
use sxt_proof_of_sql.Sumcheck.Evaluation.{hypercube_sum}
use sxt_proof_of_sql.Proof.MleEvaluations.{SumcheckRandomScalars}
use sxt_proof_of_sql.Proof.CompositePolynomialBuilder.{
  SumcheckSubpolynomialType, SumcheckSubpolynomial,
}
use sxt_proof_of_sql.Proof.CompositePolynomialBuilder.Composes.{weighed, terms_row}
use sxt_proof_of_sql.Proof.CompositePolynomialBuilder.Makes.{at_past}
use sxt_proof_of_sql.Proof.ProofBuilder.{ProofBuilder, make_sumcheck_polynomial}
use sxt_proof_of_sql.Proof.ProofBuilder.Sum.{
  combined_row, AreSubpolynomials, make_sumcheck_polynomial-sum,
}

module _ {S : Type 0} ⦃s : Scalar S⦄ where
  -- "Identity: the subpolynomial should be zero at every entry/row. ZeroSum: the subpolynomial should
  -- sum to zero across every entry/row."
  abbrev pub Holds :
      ℕ → ℕ → SumcheckSubpolynomialType → List (S × List (MultilinearExtension S)) → Type 0
  Holds rows size SumcheckSubpolynomialType.identity terms =
      (b : ℕ) → b < size → terms_row b terms ≡ s.zero
  Holds rows size SumcheckSubpolynomialType.zero_sum terms =
      sum_to rows (λ b. terms_row b terms) ≡ s.zero

  Holds-weighed :
      (rows : ℕ) (fr : List S) (kind : SumcheckSubpolynomialType)
      (terms : List (S × List (MultilinearExtension S)))
      → Holds rows (length fr) kind terms
      → sum_to rows (λ b. weighed kind (at fr b) (terms_row b terms)) ≡ s.zero
  Holds-weighed rows fr SumcheckSubpolynomialType.zero_sum terms holds = holds
  Holds-weighed rows fr SumcheckSubpolynomialType.identity terms holds =
      sum_to_congr rows (λ b _. elim (Bool-cases (leb (length fr) b)) [
        | inl past ↦
            ap (λ f. f ⊗ terms_row b terms) (at_past fr b (ground (arith, past)))
            ∙ zero-mul (terms_row b terms)
        | inr within ↦ ap (λ x. at fr b ⊗ x) (holds b (ground (arith, within))) ∙ mul-zero (at fr b)
      ])
      ∙ sum_to-zero rows

  sum_to-combined_row :
      (rows : ℕ) (fr multipliers : List S) (subpolynomials : List (SumcheckSubpolynomial S))
      → All (λ p. Holds rows (length fr) p.subpolynomial_type p.terms) subpolynomials
      → sum_to rows (λ b. combined_row multipliers subpolynomials (at fr b) b) ≡ s.zero
  sum_to-combined_row rows fr [] subpolynomials holds = sum_to-zero rows
  sum_to-combined_row rows fr (g ∷ multipliers) [] holds = sum_to-zero rows
  sum_to-combined_row rows fr (g ∷ multipliers) (p ∷ subpolynomials) (first, holds) =
      sum_to-add rows (λ b. g ⊗ weighed p.subpolynomial_type (at fr b) (terms_row b p.terms))
        (λ b. combined_row multipliers subpolynomials (at fr b) b)
      ∙ ap₂ ◌⊕◌
          (sym (
              mul-sum_to rows g (λ b. weighed p.subpolynomial_type (at fr b) (terms_row b p.terms)))
            ∙ ap (λ x. g ⊗ x) (Holds-weighed rows fr p.subpolynomial_type p.terms first)
            ∙ mul-zero g)
          (sum_to-combined_row rows fr multipliers subpolynomials holds)
      ∙ s.add-zero s.zero

module _ {S B C : Type 0} ⦃s : Scalar S⦄ where
  -- For subpolynomials over slices of at most as many entries as the table, whose terms have a factor
  -- where their sum is to be zero, and a table of no more rows than the variables allow: where every
  -- identity is zero in each row of the table and every other subpolynomial sums to zero over all
  -- rows, the polynomial that `make_sumcheck_polynomial` gives sums to zero, whatever the random
  -- scalars are. Slices are shared by their addresses, which stand for their entries.
  pub make_sumcheck_polynomial-zero :
      (v : ProofBuilder S B C) (scalars : SumcheckRandomScalars S) (slices : ℕ → List S)
      → length scalars.entrywise_point ≡ v.num_sumcheck_variables
      → scalars.table_length ≤ 2 ^ v.num_sumcheck_variables
      → AreSubpolynomials slices scalars.table_length v.sumcheck_subpolynomials
      → All
          (λ p.
            Holds (2 ^ v.num_sumcheck_variables) scalars.table_length p.subpolynomial_type p.terms)
          v.sumcheck_subpolynomials
      → (p : CompositePolynomial S) × (make_sumcheck_polynomial v scalars ≡ ok p)
        × (hypercube_sum p ≡ s.zero)
  make_sumcheck_polynomial-zero v scalars slices same fits are_terms holds =
      let (p, made, total) = make_sumcheck_polynomial-sum v scalars slices same fits are_terms in
      let fr : List S = tabulate 0 scalars.table_length (weight scalars.entrywise_point) in
      let size : length fr ≡ scalars.table_length =
        length-tabulate 0 scalars.table_length (weight scalars.entrywise_point) in
      (
        p,
        made,
        total
            ∙ sum_to-combined_row (2 ^ v.num_sumcheck_variables) fr
                scalars.subpolynomial_multipliers v.sumcheck_subpolynomials (rw size holds),
      )
