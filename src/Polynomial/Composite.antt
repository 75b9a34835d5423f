-- ===== src/Polynomial/Composite.antt =====
-- crates/proof-of-sql/src/base/polynomial/composite_polynomial.rs, and inner_product of
-- crates/proof-of-sql/src/base/slice_ops/inner_product.rs. A shared vector (`Rc<Vec<S>>`) is its
-- address with its entries, which nothing changes.
pub mod AddProduct
use sxt_proof_of_sql.Shared.{
  ℕ, suc, ◌^◌, ◌≡◌, Option, none, some, Bool, true, List, [], ◌∷◌, ◌++◌, length, get_elem?,
  replicate, if◌then◌else◌, leb, ◌==◌, Result, ok, panic, ◌>>=◌, expect_some,
}
use sxt_proof_of_sql.Scalar.{Scalar, ◌⊕◌, ◌⊖◌, ◌⊗◌}
use sxt_proof_of_sql.Polynomial.EvaluationVector.{compute_evaluation_vector}

pub record Rc (S : Type 0) : Type 0 where
  pub address : ℕ
  pub entries : List S

-- A product is its coefficient and the indices of its factors.
pub record CompositePolynomial (S : Type 0) : Type 0 where
  pub max_multiplicands : ℕ
  pub num_variables : ℕ
  pub products : List (S × List ℕ)
  pub flattened_ml_extensions : List (List S)
  pub raw_pointers_lookup_table : List (ℕ × ℕ)

pub record CompositePolynomialInfo : Type 0 where
  pub max_multiplicands : ℕ
  pub num_variables : ℕ

unfoldable pub new : (S : Type 0) → ℕ → CompositePolynomial S
new S num_variables = record {
  max_multiplicands = 0;
  num_variables = num_variables;
  products = [];
  flattened_ml_extensions = [];
  raw_pointers_lookup_table = [];
}

unfoldable pub info : {S : Type 0} → CompositePolynomial S → CompositePolynomialInfo
info p = record { max_multiplicands = p.max_multiplicands; num_variables = p.num_variables }

-- `HashMap::get` by an address
unfoldable pub get_index : List (ℕ × ℕ) → ℕ → Option ℕ
get_index [] m_ptr = none
get_index (entry ∷ table) m_ptr =
    let rest = get_index table m_ptr in if entry.0 == m_ptr then some entry.1 else rest

module _ {S : Type 0} where
  unfoldable pub push_extension :
      CompositePolynomial S → Rc S → Option ℕ → CompositePolynomial S × ℕ
  push_extension p m (some index) = (p, index)
  push_extension p m none = (
    record p {
      flattened_ml_extensions = p.flattened_ml_extensions ++ (m.entries ∷ []);
      raw_pointers_lookup_table =
          (m.address, length p.flattened_ml_extensions) ∷ p.raw_pointers_lookup_table;
    },
    length p.flattened_ml_extensions,
  )

  -- The loop over the factors: each gets the index of its address, or the next one.
  unfoldable pub index_product :
      CompositePolynomial S → List (Rc S) → CompositePolynomial S × List ℕ
  unfolding push_extension get_index
  index_product p [] = (p, [])
  index_product p (m ∷ ms) =
      let pushed = push_extension p m (get_index p.raw_pointers_lookup_table m.address) in
      let rest = index_product pushed.0 ms in (rest.0, pushed.1 ∷ rest.1)

  unfoldable pub add_product :
      CompositePolynomial S → List (Rc S) → S → Result (Unit {0}) (CompositePolynomial S)
  unfolding index_product
  add_product p [] coefficient = panic
  add_product p (m ∷ ms) coefficient =
      let most = length (m ∷ ms) in
      let indexed =
        index_product
          (record p {
            max_multiplicands = if leb p.max_multiplicands most then most else p.max_multiplicands;
          })
          (m ∷ ms) in
      ok (record indexed.0 { products = indexed.0.products ++ ((coefficient, indexed.1) ∷ []) })

module _ {S : Type 0} ⦃s : Scalar S⦄ where
  -- The longer slice is cut; the parallel sum is a sum.
  unfoldable pub inner_product : List S → List S → S
  inner_product [] bs = s.zero
  inner_product (a ∷ l) [] = s.zero
  inner_product (a ∷ l) (b ∷ bs) = a ⊗ b ⊕ inner_product l bs

  unfoldable pub product_of_evaluations : List S → List (List S) → List ℕ → Result (Unit {0}) S
  unfolding inner_product
  product_of_evaluations vector extensions [] = ok s.one
  product_of_evaluations vector extensions (i ∷ indices) =
      expect_some (get_elem? extensions i) >>= λ extension.
      product_of_evaluations vector extensions indices >>= λ rest.
      ok (inner_product vector extension ⊗ rest)

  unfoldable pub sum_of_products : List S → List (List S) → List (S × List ℕ) → Result (Unit {0}) S
  unfolding product_of_evaluations
  sum_of_products vector extensions [] = ok s.zero
  sum_of_products vector extensions (p ∷ products) =
      product_of_evaluations vector extensions p.1 >>= λ value.
      sum_of_products vector extensions products >>= λ rest. ok (p.0 ⊗ value ⊕ rest)

  unfoldable pub evaluate : CompositePolynomial S → List S → Result (Unit {0}) S
  unfolding sum_of_products
  evaluate p point =
      compute_evaluation_vector (replicate (2 ^ p.num_variables) s.zero) point >>= λ vector.
      sum_of_products vector p.flattened_ml_extensions p.products
