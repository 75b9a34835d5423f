-- ===== src/Polynomial/EvaluationVector.antt =====
-- crates/proof-of-sql/src/base/polynomial/evaluation_vector.rs. A slice that is written to is an
-- argument and the value is its new content; the parallel loops write each entry once.
pub mod Weighs
use sxt_proof_of_sql.Shared.{
  ℕ, zero, suc, ◌+◌, ◌^◌, ◌≡◌, List, [], ◌∷◌, ◌++◌, length, take, drop, map, leb, if◌then◌else◌,
  Result, ok, panic,
}
use sxt_proof_of_sql.Scalar.{Scalar, ◌⊕◌, ◌⊖◌, ◌⊗◌}

module _ {S : Type 0} ⦃s : Scalar S⦄ where
  -- The new left and right slices: `right[i] = left[i] * p`, `left[i] -= right[i]`, and the rest of
  -- `left` times `1 - p`.
  unfoldable pub compute_evaluation_vector_impl : List S → List S → S → List S × List S
  compute_evaluation_vector_impl [] rs p = ([], rs)
  compute_evaluation_vector_impl (l ∷ ls) [] p =
      let rest = compute_evaluation_vector_impl ls [] p in (l ⊗ (s.one ⊖ p) ∷ rest.0, rest.1)
  compute_evaluation_vector_impl (l ∷ ls) (r ∷ rs) p =
      let rest = compute_evaluation_vector_impl ls rs p in (l ⊖ l ⊗ p ∷ rest.0, l ⊗ p ∷ rest.1)

  -- `split_at_mut(mid)`, or the whole slice and an empty one.
  unfoldable pub split_level : ℕ → List S → List S × List S
  split_level mid v = if leb (length v) mid then (v, []) else (take mid v, drop mid v)

  unfoldable pub fill_level : ℕ → S → List S → List S
  unfolding split_level compute_evaluation_vector_impl
  fill_level level p v =
      let halves = split_level (2 ^ (level + 1)) v in
      let filled = compute_evaluation_vector_impl halves.0 halves.1 p in filled.0 ++ filled.1

  -- The loop over `point[1..]`.
  unfoldable pub fill_levels : ℕ → List S → List S → List S
  unfolding fill_level
  fill_levels level [] v = v
  fill_levels level (p ∷ ps) v = fill_levels (level + 1) ps (fill_level level p v)

  -- `v[0] = 1 - p`, and `v[1] = p` where there is one.
  unfoldable pub fill_first : S → List S → List S
  fill_first p [] = []
  fill_first p (a ∷ []) = s.one ⊖ p ∷ []
  fill_first p (a ∷ b ∷ v) = s.one ⊖ p ∷ p ∷ v

  unfoldable pub fill_vector : List S → List S → List S
  unfolding fill_first fill_levels
  fill_vector v [] = map (λ _. s.one) v
  fill_vector [] (p ∷ ps) = []
  fill_vector (a ∷ v) (p ∷ ps) = fill_levels 0 ps (fill_first p (a ∷ v))

  unfoldable pub compute_evaluation_vector : List S → List S → Result (Unit {0}) (List S)
  unfolding fill_vector
  compute_evaluation_vector v point =
      if leb (length v) (2 ^ length point) then ok (fill_vector v point) else panic
