-- ===== src/Proof/Indexes.antt =====
-- crates/proof-of-sql/src/sql/proof/indexes.rs. An index is a `u64`, which nothing is added to.
pub mod Ascending
pub mod Evaluation
use sxt_proof_of_sql.Shared.{
  ℕ, ◌-◌, Option, none, some, Bool, true, false, ◌&&◌, ◌||◌, List, [], ◌∷◌, length, tabulate, leb,
  ltb, ◌==◌, if◌then◌else◌, Result, ok, ◌>>=◌,
}
use sxt_proof_of_sql.Scalar.{Scalar, ◌⊖◌}
use sxt_proof_of_sql.Polynomial.Lagrange.{compute_truncated_lagrange_basis_sum}

pub data Indexes : Type 0 where
  sparse : List ℕ → Indexes
  -- `start..end`
  dense : ℕ → ℕ → Indexes

unfoldable pub default : Indexes
default = Indexes.sparse []

-- The loop over the indexes after the first.
unfoldable pub are_ascending : ℕ → ℕ → List ℕ → Bool
are_ascending n prev_index [] = true
are_ascending n prev_index (index ∷ ix) =
    let rest = are_ascending n index ix in
    if leb index prev_index || leb n index then false else rest

unfoldable pub valid : Indexes → ℕ → Bool
unfolding are_ascending
valid (Indexes.sparse []) n = true
valid (Indexes.sparse (index ∷ ix)) n = if leb n index then false else are_ascending n index ix
valid (Indexes.dense start end) n = leb end n && (ltb start end || start == 0)

unfoldable pub iter : Indexes → List ℕ
iter (Indexes.sparse ix) = ix
iter (Indexes.dense start end) = tabulate start (end - start) (λ i. i)

unfoldable pub len : Indexes → ℕ
len (Indexes.sparse ix) = length ix
len (Indexes.dense start end) = if leb end start then 0 else end - start

unfoldable pub is_empty : Indexes → Bool
is_empty (Indexes.sparse []) = true
is_empty (Indexes.sparse (index ∷ ix)) = false
is_empty (Indexes.dense start end) = leb end start

module _ {S : Type 0} ⦃s : Scalar S⦄ where
  unfoldable pub evaluate_at_point : Indexes → List S → Result (Unit {0}) (Option S)
  evaluate_at_point (Indexes.sparse ix) evaluation_point = ok none
  evaluate_at_point (Indexes.dense start end) evaluation_point =
      if leb end start
      then ok (some s.zero)
      else (compute_truncated_lagrange_basis_sum end evaluation_point >>= λ to_end.
          compute_truncated_lagrange_basis_sum start evaluation_point >>= λ to_start.
          ok (some (to_end ⊖ to_start)))
