-- ===== src/Proof/CompositePolynomialBuilder.antt =====
-- crates/proof-of-sql/src/sql/proof/composite_polynomial_builder.rs and sumcheck_subpolynomial.rs. The
-- builder keeps the vectors that it shares, so a new one has an address of its own: the next number.
pub mod Represents
pub mod Shares
pub mod Produces
pub mod Composes
pub mod Makes
use sxt_proof_of_sql.Shared.{
  ℕ, ◌+◌, ◌^◌, Option, none, some, List, [], ◌∷◌, ◌++◌, length, map, replicate, leb, ◌==◌,
  if◌then◌else◌, Result, ok, panic, ◌>>=◌,
}
use sxt_proof_of_sql.Scalar.{Scalar, ◌⊕◌, ◌⊗◌}
use sxt_proof_of_sql.Polynomial.Composite.{Rc, CompositePolynomial, new, add_product}
use sxt_proof_of_sql.Polynomial.MultilinearExtension.{
  MultilinearExtension, mul_add, to_sumcheck_term,
}

pub record CompositePolynomialBuilder (S : Type 0) : Type 0 where
  pub num_sumcheck_variables : ℕ
  pub fr_multiplicands_degree1 : List S
  pub fr_multiplicands_rest : List (S × List (Rc S))
  pub zerosum_multiplicands : List (S × List (Rc S))
  pub fr : Rc S
  pub mles : List (ℕ × Rc S)
  pub next_address : ℕ

-- `HashMap::get`
unfoldable pub get_mle : {S : Type 0} → List (ℕ × Rc S) → ℕ → Option (Rc S)
get_mle [] id = none
get_mle (entry ∷ mles) id =
    let rest = get_mle mles id in if entry.0 == id then some entry.1 else rest

pub data SumcheckSubpolynomialType : Type 0 where
  identity zero_sum : SumcheckSubpolynomialType

pub record SumcheckSubpolynomial (S : Type 0) : Type 0 where
  pub terms : List (S × List (MultilinearExtension S))
  pub subpolynomial_type : SumcheckSubpolynomialType

module _ {S : Type 0} where
  unfoldable pub add_products :
      CompositePolynomial S → List (S × List (Rc S)) → Result (Unit {0}) (CompositePolynomial S)
  unfolding add_product
  add_products res [] = ok res
  add_products res (p ∷ products) = add_product res p.1 p.0 >>= λ added. add_products added products

  -- The factor `fr` in front of each product.
  unfoldable pub with_fr : Rc S → List (S × List (Rc S)) → List (S × List (Rc S))
  with_fr fr [] = []
  with_fr fr (p ∷ products) = (p.0, fr ∷ p.1) ∷ with_fr fr products

module _ {S : Type 0} ⦃s : Scalar S⦄ where
  unfoldable pub builder_new : ℕ → List S → Result (Unit {0}) (CompositePolynomialBuilder S)
  unfolding to_sumcheck_term
  builder_new num_sumcheck_variables fr =
      if leb (length fr) (2 ^ num_sumcheck_variables)
      then (to_sumcheck_term 0 fr num_sumcheck_variables >>= λ term. ok (record {
        num_sumcheck_variables = num_sumcheck_variables;
        fr_multiplicands_degree1 = replicate (length fr) s.zero;
        fr_multiplicands_rest = [];
        zerosum_multiplicands = [];
        fr = term;
        mles = [];
        next_address = 1;
      }))
      else panic

  -- The vector of a term: the one that is known by its id, or a new one.
  unfoldable pub share_mle :
      CompositePolynomialBuilder S
      → MultilinearExtension S
      → Option (Rc S)
      → Result (Unit {0}) (CompositePolynomialBuilder S × Rc S)
  unfolding to_sumcheck_term
  share_mle v term (some term_p) = ok (v, term_p)
  share_mle v term none =
      to_sumcheck_term v.next_address term.values v.num_sumcheck_variables >>= λ term_p.
      ok (record v { mles = (term.id, term_p) ∷ v.mles; next_address = v.next_address + 1 }, term_p)

  unfoldable pub create_multiplicand_with_deduplicated_mles :
      CompositePolynomialBuilder S
      → List (MultilinearExtension S)
      → Result (Unit {0}) (CompositePolynomialBuilder S × List (Rc S))
  unfolding get_mle share_mle
  create_multiplicand_with_deduplicated_mles v [] = ok (v, [])
  create_multiplicand_with_deduplicated_mles v (term ∷ terms) =
      share_mle v term (get_mle v.mles term.id) >>= λ shared.
      create_multiplicand_with_deduplicated_mles shared.0 terms >>= λ rest.
      ok (rest.0, shared.1 ∷ rest.1)

  unfoldable pub produce_fr_multiplicand :
      CompositePolynomialBuilder S
      → S
      → List (MultilinearExtension S)
      → Result (Unit {0}) (CompositePolynomialBuilder S)
  unfolding create_multiplicand_with_deduplicated_mles
  produce_fr_multiplicand v mult [] =
      ok
        (record v { fr_multiplicands_degree1 = map (λ val. val ⊕ mult) v.fr_multiplicands_degree1 })
  produce_fr_multiplicand v mult (term ∷ []) =
      mul_add term v.fr_multiplicands_degree1 mult >>= λ degree1.
      ok (record v { fr_multiplicands_degree1 = degree1 })
  produce_fr_multiplicand v mult (term ∷ other ∷ terms) =
      create_multiplicand_with_deduplicated_mles v (term ∷ other ∷ terms) >>= λ made.
      ok (record made.0 {
        fr_multiplicands_rest = made.0.fr_multiplicands_rest ++ ((mult, made.1) ∷ []);
      })

  unfoldable pub produce_zerosum_multiplicand :
      CompositePolynomialBuilder S
      → S
      → List (MultilinearExtension S)
      → Result (Unit {0}) (CompositePolynomialBuilder S)
  unfolding create_multiplicand_with_deduplicated_mles
  produce_zerosum_multiplicand v mult [] = panic
  produce_zerosum_multiplicand v mult (term ∷ terms) =
      create_multiplicand_with_deduplicated_mles v (term ∷ terms) >>= λ made. ok (record made.0 {
        zerosum_multiplicands = made.0.zerosum_multiplicands ++ ((mult, made.1) ∷ []);
      })

  unfoldable pub make_composite_polynomial :
      CompositePolynomialBuilder S → Result (Unit {0}) (CompositePolynomial S)
  unfolding add_products to_sumcheck_term with_fr
  make_composite_polynomial v =
      to_sumcheck_term v.next_address v.fr_multiplicands_degree1 v.num_sumcheck_variables
      >>= λ degree1.
          add_product (new S v.num_sumcheck_variables) (v.fr ∷ degree1 ∷ []) s.one >>= λ first.
          add_products first (with_fr v.fr v.fr_multiplicands_rest) >>= λ second.
          add_products second v.zerosum_multiplicands

  -- The two arms of the loop of `compose`.
  unfoldable pub produce_multiplicand :
      SumcheckSubpolynomialType
      → CompositePolynomialBuilder S
      → S
      → List (MultilinearExtension S)
      → Result (Unit {0}) (CompositePolynomialBuilder S)
  unfolding produce_fr_multiplicand produce_zerosum_multiplicand
  produce_multiplicand SumcheckSubpolynomialType.identity v mult term =
      produce_fr_multiplicand v mult term
  produce_multiplicand SumcheckSubpolynomialType.zero_sum v mult term =
      produce_zerosum_multiplicand v mult term

  unfoldable pub compose_terms :
      SumcheckSubpolynomialType
      → List (S × List (MultilinearExtension S))
      → CompositePolynomialBuilder S
      → S
      → Result (Unit {0}) (CompositePolynomialBuilder S)
  unfolding produce_multiplicand
  compose_terms subpolynomial_type [] v group_multiplier = ok v
  compose_terms subpolynomial_type (t ∷ terms) v group_multiplier =
      produce_multiplicand subpolynomial_type v (t.0 ⊗ group_multiplier) t.1 >>= λ produced.
      compose_terms subpolynomial_type terms produced group_multiplier

  unfoldable pub compose :
      SumcheckSubpolynomial S
      → CompositePolynomialBuilder S
      → S
      → Result (Unit {0}) (CompositePolynomialBuilder S)
  unfolding compose_terms
  compose p v group_multiplier = compose_terms p.subpolynomial_type p.terms v group_multiplier
