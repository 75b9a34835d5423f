-- ===== src/Commitment/Vec/Linear.antt =====
-- Collections of commitments under a linear scheme.
use sxt_proof_of_sql.Shared.{
  ℕ, List, [], ◌∷◌, length, length-replicate, map, ◌≡◌, refl, ap, ap₂, suc, arith,
}
use sxt_proof_of_sql.Commitment.CommittableColumn.{CommittableColumn}
use sxt_proof_of_sql.Commitment.Scheme.{Scheme, IsLinear}
use sxt_proof_of_sql.Commitment.Vec.{unsafe_add_assign, unsafe_sub_assign, from_columns_with_offset}

module _ (s : Scheme) (linear : IsLinear s) where
  open s use {Point, PublicSetup}
  open linear use {commit, computes, add_comm, sub-add}

  pub from_columns-map :
      (columns : List CommittableColumn) (offset : ℕ) (setup : PublicSetup)
      → from_columns_with_offset s columns offset setup ≡ map (λ c. commit c offset setup) columns
  unfolding from_columns_with_offset
  from_columns-map columns offset setup =
      computes _ columns offset setup (length-replicate (length columns) s.default)

  pub sub_assign-add_assign :
      (xs ys : List Point)
      → length xs ≡ length ys
      → unsafe_sub_assign s (unsafe_add_assign s xs ys) ys ≡ xs
  unfolding unsafe_sub_assign unsafe_add_assign
  sub_assign-add_assign [] [] h = refl
  sub_assign-add_assign [] (y ∷ ys) h = refl
  sub_assign-add_assign (x ∷ xs) [] h = refl
  sub_assign-add_assign (x ∷ xs) (y ∷ ys) h =
      ap₂ (λ a l. a ∷ l) (sub-add x y) (sub_assign-add_assign xs ys (omega arith))

  pub add_assign_comm :
      (xs ys : List Point)
      → length xs ≡ length ys
      → unsafe_add_assign s xs ys ≡ unsafe_add_assign s ys xs
  unfolding unsafe_add_assign
  add_assign_comm [] [] h = refl
  add_assign_comm [] (y ∷ ys) h = absurd (omega arith)
  add_assign_comm (x ∷ xs) [] h = absurd (omega arith)
  add_assign_comm (x ∷ xs) (y ∷ ys) h =
      ap₂ (λ a l. a ∷ l) (add_comm x y) (add_assign_comm xs ys (omega arith))

  pub length-add_assign : (xs ys : List Point) → length (unsafe_add_assign s xs ys) ≡ length xs
  unfolding unsafe_add_assign
  length-add_assign [] ys = refl
  length-add_assign (x ∷ xs) [] = refl
  length-add_assign (x ∷ xs) (y ∷ ys) = ap suc (length-add_assign xs ys)

  pub length-sub_assign : (xs ys : List Point) → length (unsafe_sub_assign s xs ys) ≡ length xs
  unfolding unsafe_sub_assign
  length-sub_assign [] ys = refl
  length-sub_assign (x ∷ xs) [] = refl
  length-sub_assign (x ∷ xs) (y ∷ ys) = ap suc (length-sub_assign xs ys)
