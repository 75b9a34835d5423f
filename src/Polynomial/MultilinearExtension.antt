-- ===== src/Polynomial/MultilinearExtension.antt =====
-- crates/proof-of-sql/src/base/polynomial/multilinear_extension.rs, and mul_add_assign of
-- crates/proof-of-sql/src/base/slice_ops/mul_add_assign.rs. An extension is the address of its slice
-- with the entries as scalars: `slice_cast` converts each. The address of a new vector is an argument.
use sxt_proof_of_sql.Shared.{
  ℕ, ◌-◌, ◌^◌, List, [], ◌∷◌, ◌++◌, length, replicate, leb, if◌then◌else◌, Result, ok, panic, ◌>>=◌,
}
use sxt_proof_of_sql.Scalar.{Scalar, ◌⊕◌, ◌⊗◌}
use sxt_proof_of_sql.Polynomial.EvaluationVector.{compute_evaluation_vector}
use sxt_proof_of_sql.Polynomial.Composite.{Rc, inner_product}

pub record MultilinearExtension (S : Type 0) : Type 0 where
  pub id : ℕ
  pub values : List S

module _ {S : Type 0} ⦃s : Scalar S⦄ where
  -- The entries of `result` after those of `to_mul_add` stay.
  unfoldable pub add_multiples : List S → S → List S → List S
  add_multiples [] multiplier to_mul_add = []
  add_multiples (r ∷ result) multiplier [] = r ∷ result
  add_multiples (r ∷ result) multiplier (a ∷ to_mul_add) =
      r ⊕ multiplier ⊗ a ∷ add_multiples result multiplier to_mul_add

  unfoldable pub mul_add_assign : List S → S → List S → Result (Unit {0}) (List S)
  unfolding add_multiples
  mul_add_assign result multiplier to_mul_add =
      if leb (length to_mul_add) (length result)
      then ok (add_multiples result multiplier to_mul_add)
      else panic

  unfoldable pub mle_inner_product : MultilinearExtension S → List S → S
  unfolding inner_product
  mle_inner_product m evaluation_vec = inner_product evaluation_vec m.values

  unfoldable pub mul_add : MultilinearExtension S → List S → S → Result (Unit {0}) (List S)
  unfolding mul_add_assign
  mul_add m res multiplier = mul_add_assign res multiplier m.values

  unfoldable pub to_sumcheck_term : ℕ → List S → ℕ → Result (Unit {0}) (Rc S)
  to_sumcheck_term address values num_vars =
      if leb (length values) (2 ^ num_vars)
      then ok (record {
        address = address;
        entries = values ++ replicate (2 ^ num_vars - length values) s.zero;
      })
      else panic

  unfoldable pub mle_evaluate_at_point : MultilinearExtension S → List S → Result (Unit {0}) S
  unfolding mle_inner_product
  mle_evaluate_at_point m evaluation_point =
      compute_evaluation_vector (replicate (2 ^ length evaluation_point) s.zero) evaluation_point
      >>= λ evaluation_vec. ok (mle_inner_product m evaluation_vec)
