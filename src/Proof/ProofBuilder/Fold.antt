-- ===== src/Proof/ProofBuilder/Fold.antt =====
-- `ProofBuilder::fold_pre_result_mles` and `evaluate_pre_result_mles` of
-- crates/proof-of-sql/src/sql/proof/proof_builder.rs: what the inner product argument is about.
use sxt_proof_of_sql.Shared.{
  ℕ, zero, suc, ◌≤◌, ◌≡◌, refl, sym, ap, ap₂, ◌∙◌, arith, List, [], ◌∷◌, length, replicate,
  length-replicate, All, ok, ==_iff,
}
use sxt_proof_of_sql.Scalar.{Scalar, ◌⊕◌, ◌⊗◌}
use sxt_proof_of_sql.Scalar.Ring.{ring_laws, zero-add, mul-zero}
use sxt_proof_of_sql.Polynomial.Composite.{inner_product}
use sxt_proof_of_sql.Polynomial.MultilinearExtension.{
  MultilinearExtension, add_multiples, mul_add_assign, mul_add, mle_inner_product,
}
use sxt_proof_of_sql.Proof.CompositePolynomialBuilder.Shares.{le-leb}
use sxt_proof_of_sql.Proof.CompositePolynomialBuilder.Produces.{length-add_multiples}
use sxt_proof_of_sql.Proof.ProofBuilder.{
  ProofBuilder, fold_mles, evaluate_mles, fold_pre_result_mles, evaluate_pre_result_mles,
}

module _ {S : Type 0} ⦃s : Scalar S⦄ where
  no_multiple : (x m : S) → x ≡ x ⊕ m ⊗ s.zero
  no_multiple x m = sym (ap (λ y. x ⊕ y) (mul-zero m) ∙ s.add-zero x)

  one_more : (v x m y r t : S) → v ⊗ (x ⊕ m ⊗ y) ⊕ (r ⊕ m ⊗ t) ≡ v ⊗ x ⊕ r ⊕ m ⊗ (v ⊗ y ⊕ t)
  one_more v x m y r t = simp ring_laws

  inner_product-add_multiples :
      (vec xs : List S) (m : S) (ys : List S)
      → length ys ≤ length xs
      → inner_product vec (add_multiples xs m ys) ≡ inner_product vec xs ⊕ m ⊗ inner_product vec ys
  unfolding inner_product add_multiples
  inner_product-add_multiples [] xs m ys h = no_multiple s.zero m
  inner_product-add_multiples (v ∷ vec) [] m [] h = no_multiple s.zero m
  inner_product-add_multiples (v ∷ vec) [] m (y ∷ ys) h = absurd (omega arith)
  inner_product-add_multiples (v ∷ vec) (x ∷ xs) m [] h = no_multiple _ m
  inner_product-add_multiples (v ∷ vec) (x ∷ xs) m (y ∷ ys) h =
      ap (λ r. v ⊗ (x ⊕ m ⊗ y) ⊕ r) (inner_product-add_multiples vec xs m ys (omega arith))
      ∙ one_more v x m y (inner_product vec xs) (inner_product vec ys)

  inner_product-zeros : (vec : List S) (n : ℕ) → inner_product vec (replicate n s.zero) ≡ s.zero
  unfolding inner_product
  inner_product-zeros [] n = refl
  inner_product-zeros (v ∷ vec) zero = refl
  inner_product-zeros (v ∷ vec) (suc n) =
      ap₂ ◌⊕◌ (mul-zero v) (inner_product-zeros vec n) ∙ s.add-zero s.zero

  fold_mles-inner_product :
      (multipliers : List S) (mles : List (MultilinearExtension S)) (res vec : List S)
      → All (λ m. length m.values ≤ length res) mles
      → (folded : List S) × (fold_mles multipliers mles res ≡ ok folded)
        × (length folded ≡ length res)
        × (inner_product vec folded
            ≡ inner_product vec res ⊕ inner_product multipliers (evaluate_mles mles vec))
  unfolding fold_mles evaluate_mles mul_add mul_add_assign mle_inner_product inner_product
  fold_mles-inner_product [] mles res vec h = (res, refl, refl, sym (s.add-zero _))
  fold_mles-inner_product (g ∷ multipliers) [] res vec h = (res, refl, refl, sym (s.add-zero _))
  fold_mles-inner_product (g ∷ multipliers) (m ∷ mles) res vec (short, h) =
      let added = add_multiples res g m.values in
      let (folded, e, size, value) =
        fold_mles-inner_product multipliers mles added vec
          (rw (length-add_multiples res g m.values) h) in
      (
        folded,
        rw (le-leb (length m.values) (length res) short) e,
        size ∙ length-add_multiples res g m.values,
        value
            ∙ ap (λ x. x ⊕ inner_product multipliers (evaluate_mles mles vec))
                (inner_product-add_multiples vec res g m.values short)
            ∙ s.add_assoc (inner_product vec res) _ _,
      )

module _ {S B C : Type 0} ⦃s : Scalar S⦄ where
  -- For a multiplier for each extension, all of at most as many entries as the table,
  -- `fold_pre_result_mles` never panics. It gives a column with a row for each row of the table, whose
  -- inner product with any evaluation vector is that of the multipliers with the evaluations of
  -- `evaluate_pre_result_mles` for that vector: one argument about the folded column proves them all.
  pub fold_pre_result_mles-inner_product :
      (v : ProofBuilder S B C) (multipliers vec : List S)
      → length multipliers ≡ length v.pre_result_mles
      → All (λ m. length m.values ≤ v.table_length) v.pre_result_mles
      → (folded : List S) × (fold_pre_result_mles v multipliers ≡ ok folded)
        × (length folded ≡ v.table_length)
        × (inner_product vec folded ≡ inner_product multipliers (evaluate_pre_result_mles v vec))
  unfolding fold_pre_result_mles evaluate_pre_result_mles
  fold_pre_result_mles-inner_product v multipliers vec same short =
      let zeros : List S = replicate v.table_length s.zero in
      let size : length zeros ≡ v.table_length = length-replicate v.table_length s.zero in
      let (folded, e, count, value) =
        fold_mles-inner_product multipliers v.pre_result_mles zeros vec (rw size short) in
      (
        folded,
        rw ((==_iff (length multipliers) (length v.pre_result_mles)).1 same) e,
        count ∙ size,
        value
            ∙ ap (λ x. x ⊕ inner_product multipliers (evaluate_mles v.pre_result_mles vec))
                (inner_product-zeros vec v.table_length)
            ∙ zero-add _,
      )
