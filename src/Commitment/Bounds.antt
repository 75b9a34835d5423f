-- ===== src/Commitment/Bounds.antt =====
-- crates/proof-of-sql/src/base/commitment/column_bounds.rs, the part generic in `T: Ord`: the
-- minimum and maximum of a collection, exact or estimated.
pub mod Order
pub mod FromIter
pub mod Union
pub mod Difference
pub mod Valid
use sxt_proof_of_sql.Shared.{
  Result, ok, err, panic, ◌>>=◌, Ord, Bool, true, false, not, ◌&&◌, ◌||◌, List, [], ◌∷◌, ◌≡◌, All,
  Contains, if◌then◌else◌,
}

pub data NegativeBounds : Type 0 where
  negative_bounds : NegativeBounds

pub record BoundsInner (A : Type 0) : Type 0 where
  pub min : A
  pub max : A

pub data Bounds (A : Type 0) : Type 0 where
  empty : Bounds A
  bounded : BoundsInner A → Bounds A
  sharp : BoundsInner A → Bounds A

module _ {A : Type 0} ⦃o : Ord A⦄ where
  -- `a < b`
  abbrev pub lt_of : A → A → Bool
  lt_of a b = not (o.le_of b a)

  -- `Ord::min` and `Ord::max`; on a tie `min` gives the first value and `max` the second.
  unfoldable pub min_of : A → A → A
  min_of a b = if o.le_of a b then a else b

  unfoldable pub max_of : A → A → A
  max_of a b = if o.le_of a b then b else a

  unfoldable pub try_new : A → A → Result NegativeBounds (BoundsInner A)
  try_new low high =
      if lt_of high low then err negative_bounds else ok (record { min = low; max = high })

  unfoldable pub union_inner : BoundsInner A → BoundsInner A → BoundsInner A
  union_inner i j = record { min = min_of i.min j.min; max = max_of i.max j.max }

  unfoldable pub surrounds_inner : BoundsInner A → A → Bool
  surrounds_inner i value = o.le_of i.min value && o.le_of value i.max

  unfoldable pub sharp_of : A → A → Result NegativeBounds (Bounds A)
  unfolding try_new
  sharp_of low high = do i ← try_new low high; ok (sharp i)

  unfoldable pub bounded_of : A → A → Result NegativeBounds (Bounds A)
  unfolding try_new
  bounded_of low high = do i ← try_new low high; ok (bounded i)

  unfoldable pub union : Bounds A → Bounds A → Bounds A
  union (sharp i) (sharp j) = sharp (union_inner i j)
  union (bounded i) (bounded j) = bounded (union_inner i j)
  union (bounded i) (sharp j) = bounded (union_inner i j)
  union (sharp i) (bounded j) = bounded (union_inner i j)
  union b empty = b
  union empty b = b

  -- The guard of the third arm: the two ranges do not meet.
  abbrev pub apart : BoundsInner A → BoundsInner A → Bool
  apart i j = lt_of i.max j.min || lt_of j.max i.min

  unfoldable pub difference : Bounds A → Bounds A → Bounds A
  difference empty b = empty
  difference b empty = b
  difference (sharp i) (sharp j) = if apart i j then sharp i else bounded i
  difference (sharp i) (bounded j) = if apart i j then sharp i else bounded i
  difference (bounded i) b = bounded i

  unfoldable pub surrounds : Bounds A → A → Bool
  unfolding surrounds_inner
  surrounds empty value = false
  surrounds (bounded i) value = surrounds_inner i value
  surrounds (sharp i) value = surrounds_inner i value

  -- The closure of the fold in `from_iter`, with its panic.
  unfoldable pub from_iter_step {ε} : {E : Type ε} → Bounds A → A → Result E (Bounds A)
  from_iter_step (sharp i) x = ok (sharp (record { min = min_of i.min x; max = max_of i.max x }))
  from_iter_step empty x = ok (sharp (record { min = x; max = x }))
  from_iter_step (bounded i) x = panic

  unfoldable pub from_iter_loop {ε} : {E : Type ε} → Bounds A → List A → Result E (Bounds A)
  from_iter_loop b [] = ok b
  from_iter_loop b (x ∷ xs) = do b' ← from_iter_step b x; from_iter_loop b' xs

  -- The match after the fold.
  unfoldable pub from_iter_end {ε} : {E : Type ε} → Bounds A → Result E (Bounds A)
  from_iter_end (sharp i) = ok (sharp i)
  from_iter_end empty = ok empty
  from_iter_end (bounded i) = panic

  unfoldable pub from_iter {ε} : {E : Type ε} → List A → Result E (Bounds A)
  unfolding from_iter_step from_iter_loop from_iter_end
  from_iter xs = do b ← from_iter_loop empty xs; from_iter_end b

  -- What bounds say of a collection: `empty` that it is empty, `bounded` that its values lie
  -- within, `sharp` that they do and that both ends are values.
  abbrev pub Describes : Bounds A → List A → Type 0
  Describes empty xs = xs ≡ []
  Describes (bounded i) xs = All (λ x. surrounds_inner i x ≡ true) xs
  Describes (sharp i) xs =
      All (λ x. surrounds_inner i x ≡ true) xs × Contains i.min xs × Contains i.max xs

  -- Whether the bounds are exact: not `bounded`.
  abbrev pub is_exact : Bounds A → Bool
  is_exact empty = true
  is_exact (bounded i) = false
  is_exact (sharp i) = true

  -- The bounds lie within a range.
  abbrev pub IsWithin : BoundsInner A → Bounds A → Type 0
  IsWithin k empty = Unit
  IsWithin k (bounded i) = (o.le_of k.min i.min ≡ true) × (o.le_of i.max k.max ≡ true)
  IsWithin k (sharp i) = (o.le_of k.min i.min ≡ true) × (o.le_of i.max k.max ≡ true)

  -- The state that the private fields of `BoundsInner` keep: the minimum is at most the maximum.
  abbrev pub IsValid : Bounds A → Type 0
  IsValid empty = Unit
  IsValid (bounded i) = o.le_of i.min i.max ≡ true
  IsValid (sharp i) = o.le_of i.min i.max ≡ true
