-- ===== src/Proof/Indexes/Evaluation.antt =====
-- `Indexes::evaluate_at_point` of crates/proof-of-sql/src/sql/proof/indexes.rs.
use sxt_proof_of_sql.Shared.{
  ℕ, zero, suc, ◌+◌, ◌-◌, ◌^◌, ◌≤◌, ◌≡◌, refl, sym, ap, ap₂, ◌∙◌, arith, true, Bool-cases, inl, inr,
  Option, none, some, List, [], ◌∷◌, length, tabulate, leb, ok,
}
use sxt_proof_of_sql.Scalar.{Scalar, ◌⊕◌, ◌⊖◌}
use sxt_proof_of_sql.Scalar.Ring.{sub_unique, add_comm}
use sxt_proof_of_sql.Scalar.Sums.{sum_to, sum_to-first, sum_to-split, sum_to_congr}
use sxt_proof_of_sql.Polynomial.Weights.{weight}
use sxt_proof_of_sql.Polynomial.Lagrange.Sum.{compute_truncated_lagrange_basis_sum-weight}
use sxt_proof_of_sql.Proof.Indexes.{Indexes, valid, iter, evaluate_at_point}
use sxt_proof_of_sql.Proof.Indexes.Ascending.{valid-IsValid}

module _ {S : Type 0} ⦃s : Scalar S⦄ where
  -- The sum over a list of indexes.
  abbrev pub sum_over : List ℕ → (ℕ → S) → S
  sum_over [] f = s.zero
  sum_over (i ∷ ix) f = f i ⊕ sum_over ix f

  -- The value at a point of the extension that is 1 at the indexes and 0 elsewhere, for a range.
  abbrev pub indicator : Indexes → List S → Option S
  indicator (Indexes.sparse ix) point = none
  indicator (Indexes.dense start end) point =
      some (sum_over (iter (Indexes.dense start end)) (weight point))

  sum_over-tabulate :
      (start count : ℕ) (f : ℕ → S)
      → sum_over (tabulate start count (λ i. i)) f ≡ sum_to count (λ i. f (start + i))
  unfolding sum_to
  sum_over-tabulate start zero f = refl
  sum_over-tabulate start (suc count) f =
      ap₂ (λ i y. f i ⊕ y) {x = start} {y = start + 0} (omega arith)
        (sum_over-tabulate (suc start) count f
          ∙ sum_to_congr count λ i _. ap f {x = suc start + i} {y = start + suc i} (omega arith))
      ∙ sym (sum_to-first count (λ i. f (start + i)))

  between :
      (start end : ℕ) (f : ℕ → S)
      → start ≤ end
      → sum_to end f ⊖ sum_to start f ≡ sum_over (tabulate start (end - start) (λ i. i)) f
  between start end f le = sub_unique (sum_to end f) (sum_to start f) _ (
      add_comm _ _
      ∙ ap (λ y. sum_to start f ⊕ y) (sum_over-tabulate start (end - start) f)
      ∙ sym (sum_to-split start (end - start) end f (omega arith)))

  evaluate_dense :
      (start end : ℕ) (point : List S)
      → end ≤ 2 ^ length point
      → evaluate_at_point (Indexes.dense start end) point
        ≡ ok (some (sum_over (tabulate start (end - start) (λ i. i)) (weight point)))
  unfolding evaluate_at_point
  evaluate_dense start end point fits = elim (Bool-cases (leb end start)) [
    | inl empty ↦ rw (empty, nothing start end empty)
    | inr ordered ↦
        rw
          (
            ordered,
            compute_truncated_lagrange_basis_sum-weight end point,
            compute_truncated_lagrange_basis_sum-weight start point,
            in_size end fits,
            in_size start (ground (arith, ordered, fits)),
          )
          (ap (λ y. ok (some y)) (between start end (weight point) (ground (arith, ordered))))
  ]
    where
      nothing : (start end : ℕ) → leb end start ≡ true → end - start ≡ 0
      nothing start end e = ground arith

      in_size : (k : ℕ) → k ≤ 2 ^ length point → leb k (2 ^ length point) ≡ true
      in_size k h = ground arith

  -- For indexes that are valid for a table of `n` rows and a point with coordinates for `n` rows,
  -- `Indexes::evaluate_at_point` never panics: it is `None` for sparse indexes, and for a range the
  -- sum over its indexes of the values of the Lagrange basis at the point, which is the value of the
  -- extension that is 1 at the indexes and 0 elsewhere.
  pub evaluate_at_point-indicator :
      (ix : Indexes) (n : ℕ) (point : List S)
      → valid ix n ≡ true
      → n ≤ 2 ^ length point
      → evaluate_at_point ix point ≡ ok (indicator ix point)
  evaluate_at_point-indicator (Indexes.sparse ix) n point h fits = unfold evaluate_at_point in refl
  evaluate_at_point-indicator (Indexes.dense start end) n point h fits =
      let (_, within, _) = (valid-IsValid (Indexes.dense start end) n).0 h in
      evaluate_dense start end point (omega arith) ∙ unfold iter in refl
