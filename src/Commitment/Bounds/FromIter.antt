-- ===== src/Commitment/Bounds/FromIter.antt =====
-- `Bounds::from_iter`: it never panics, and its bounds are exact.
use sxt_proof_of_sql.Shared.{
  ok, true, Ord, List, [], ◌∷◌, ◌++◌, ◌≡◌, refl, ◌∙◌, ap, inl, subst, arith,
}
use sxt_proof_of_sql.Commitment.Bounds.{
  Bounds, empty, sharp, BoundsInner, union_inner, union, surrounds_inner, from_iter, from_iter_loop,
  from_iter_step, Describes, is_exact,
}
use mathlib.Core.List.{append-nil, append_assoc}
use sxt_proof_of_sql.Commitment.Bounds.Union.{Describes-union}
use sxt_proof_of_sql.Commitment.Bounds.Order.{le_refl, union_inner_assoc}

module _ {A : Type 0} ⦃o : Ord A⦄ where
  abbrev pub single : A → BoundsInner A
  single x = record { min = x; max = x }

  -- The values between the bounds of the first value and those that the fold has taken in.
  unfoldable pub span : BoundsInner A → List A → BoundsInner A
  span i [] = i
  span i (x ∷ xs) = span (union_inner i (single x)) xs

  -- The bounds that the fold computes, without the panics.
  unfoldable pub exact : List A → Bounds A
  unfolding span
  exact [] = empty
  exact (x ∷ xs) = sharp (span (single x) xs)

  from_iter_loop-sharp {ε} :
      {E : Type ε} (i : BoundsInner A) (xs : List A)
      → from_iter_loop {E = E} (sharp i) xs ≡ ok (sharp (span i xs))
  unfolding from_iter_loop from_iter_step span union_inner
  from_iter_loop-sharp i [] = refl
  from_iter_loop-sharp i (x ∷ xs) = from_iter_loop-sharp (union_inner i (single x)) xs

  pub from_iter-exact {ε} : {E : Type ε} (xs : List A) → from_iter {E = E} xs ≡ ok (exact xs)
  unfolding from_iter exact
  from_iter-exact [] = refl
  from_iter-exact {E} (x ∷ xs) = rw (from_iter_loop-sharp {E = E} (single x) xs)

  span-append : (i : BoundsInner A) (xs ys : List A) → span i (xs ++ ys) ≡ span (span i xs) ys
  unfolding span
  span-append i [] ys = refl
  span-append i (x ∷ xs) ys = span-append (union_inner i (single x)) xs ys

  span-union :
      (i j : BoundsInner A) (xs : List A) → span (union_inner i j) xs ≡ union_inner i (span j xs)
  unfolding span
  span-union i j [] = refl
  span-union i j (x ∷ xs) =
      ap (λ k. span k xs) (union_inner_assoc i j (single x))
      ∙ span-union i (union_inner j (single x)) xs

  single-Describes : (x : A) → Describes (sharp (single x)) (x ∷ [])
  unfolding surrounds_inner
  single-Describes x = ((ground (arith, le_refl x), tt), inl refl, inl refl)

  union_single-Describes :
      (i : BoundsInner A) (ys : List A) (x : A)
      → Describes (sharp i) ys
      → Describes (sharp (union_inner i (single x))) (ys ++ x ∷ [])
  unfolding union
  union_single-Describes i ys x h =
      Describes-union (sharp i) (sharp (single x)) ys (x ∷ []) h (single-Describes x)

  span-Describes :
      (i : BoundsInner A) (ys xs : List A)
      → Describes (sharp i) ys
      → Describes (sharp (span i xs)) (ys ++ xs)
  unfolding span
  span-Describes i ys [] h = rw append-nil h
  span-Describes i ys (x ∷ xs) h =
      subst (Describes (sharp (span (union_inner i (single x)) xs))) (append_assoc ys (x ∷ []) xs) (
        span-Describes (union_inner i (single x)) (ys ++ x ∷ []) xs
          (union_single-Describes i ys x h))

  pub exact-Describes : (xs : List A) → Describes (exact xs) xs
  unfolding exact
  exact-Describes [] = refl
  exact-Describes (x ∷ xs) = span-Describes (single x) (x ∷ []) xs (single-Describes x)

  pub exact-append : (xs ys : List A) → exact (xs ++ ys) ≡ union (exact xs) (exact ys)
  unfolding exact union
  exact-append [] [] = refl
  exact-append [] (y ∷ ys) = refl
  exact-append (x ∷ xs) [] = ap (λ zs. sharp (span (single x) zs)) (append-nil xs)
  exact-append (x ∷ xs) (y ∷ ys) =
      ap sharp (span-append (single x) xs (y ∷ ys) ∙ span-union (span (single x) xs) (single y) ys)

  is_exact-exact : (xs : List A) → is_exact (exact xs) ≡ true
  unfolding exact
  is_exact-exact [] = refl
  is_exact-exact (x ∷ xs) = refl

  -- `from_iter` never panics. The bounds it returns are exact: `empty` for no values, and else
  -- `sharp` with the least and the greatest value, which are both among the values.
  pub from_iter-Describes {ε} :
      {E : Type ε} (xs : List A)
      → (b : Bounds A) × (from_iter {E = E} xs ≡ ok b) × Describes b xs × (is_exact b ≡ true)
  from_iter-Describes xs = (exact xs, from_iter-exact xs, exact-Describes xs, is_exact-exact xs)
