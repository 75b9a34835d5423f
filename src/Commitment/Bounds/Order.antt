-- ===== src/Commitment/Bounds/Order.antt =====
-- Minimum, maximum and ranges over any total order.
use sxt_proof_of_sql.Shared.{Ord, Bool, true, false, ◌≡◌, ◌⊎◌, inl, inr, arith, ◌&&◌}
use sxt_proof_of_sql.Commitment.Bounds.{BoundsInner, min_of, max_of, union_inner, surrounds_inner}

pub and-eq-true : (a b : Bool) → (a && b) ≡ true → (a ≡ true) × (b ≡ true)
and-eq-true a b h = ground arith

module _ {A : Type 0} ⦃o : Ord A⦄ where
  pub le_refl : (a : A) → o.le_of a a ≡ true
  le_refl a = elim (o.le_total a a) [ inl h ↦ h | inr h ↦ h ]

  pub le_of_false : (a b : A) → o.le_of a b ≡ false → o.le_of b a ≡ true
  le_of_false a b h = elim (o.le_total a b) [ inl k ↦ cc | inr k ↦ k ]

  pub min_of-le_left : (a b : A) → o.le_of (min_of a b) a ≡ true
  unfolding min_of
  min_of-le_left a b = ground (arith, le_refl a, le_of_false a b)

  pub min_of-le_right : (a b : A) → o.le_of (min_of a b) b ≡ true
  unfolding min_of
  min_of-le_right a b = ground (arith, le_refl b)

  pub le-max_of_left : (a b : A) → o.le_of a (max_of a b) ≡ true
  unfolding max_of
  le-max_of_left a b = ground (arith, le_refl a)

  pub le-max_of_right : (a b : A) → o.le_of b (max_of a b) ≡ true
  unfolding max_of
  le-max_of_right a b = ground (arith, le_refl b, le_of_false a b)

  pub min_of-cases : (a b : A) → (min_of a b ≡ a) ⊎ (min_of a b ≡ b)
  unfolding min_of
  min_of-cases a b = ground arith

  pub max_of-cases : (a b : A) → (max_of a b ≡ a) ⊎ (max_of a b ≡ b)
  unfolding max_of
  max_of-cases a b = ground arith

  pub surrounds_inner-union_left :
      (i j : BoundsInner A) (x : A)
      → surrounds_inner i x ≡ true
      → surrounds_inner (union_inner i j) x ≡ true
  unfolding surrounds_inner union_inner
  surrounds_inner-union_left i j x h = ground (
    arith,
    o.le_transitive (min_of i.min j.min) i.min x,
    o.le_transitive x i.max (max_of i.max j.max),
    min_of-le_left i.min j.min,
    le-max_of_left i.max j.max,
  )

  pub surrounds_inner-union_right :
      (i j : BoundsInner A) (x : A)
      → surrounds_inner j x ≡ true
      → surrounds_inner (union_inner i j) x ≡ true
  unfolding surrounds_inner union_inner
  surrounds_inner-union_right i j x h = ground (
    arith,
    o.le_transitive (min_of i.min j.min) j.min x,
    o.le_transitive x j.max (max_of i.max j.max),
    min_of-le_right i.min j.min,
    le-max_of_right i.max j.max,
  )

  pub min_of_assoc : (a b c : A) → min_of (min_of a b) c ≡ min_of a (min_of b c)
  unfolding min_of
  min_of_assoc a b c = ground (
    arith,
    o.le_transitive a b c,
    o.le_transitive c b a,
    o.le_antisym a c,
    o.le_antisym a b,
    o.le_antisym b c,
    le_of_false a b,
    le_of_false b c,
    le_of_false a c,
  )

  pub max_of_assoc : (a b c : A) → max_of (max_of a b) c ≡ max_of a (max_of b c)
  unfolding max_of
  max_of_assoc a b c = ground (
    arith,
    o.le_transitive a b c,
    o.le_transitive c b a,
    o.le_antisym a c,
    o.le_antisym a b,
    o.le_antisym b c,
    le_of_false a b,
    le_of_false b c,
    le_of_false a c,
  )

  pub min_of_comm : (a b : A) → min_of a b ≡ min_of b a
  unfolding min_of
  min_of_comm a b = ground (arith, o.le_antisym a b, le_of_false a b)

  pub max_of_comm : (a b : A) → max_of a b ≡ max_of b a
  unfolding max_of
  max_of_comm a b = ground (arith, o.le_antisym a b, le_of_false a b)

  pub union_inner_assoc :
      (i j k : BoundsInner A) → union_inner (union_inner i j) k ≡ union_inner i (union_inner j k)
  unfolding union_inner
  union_inner_assoc i j k =
      λ t. record { min = min_of_assoc i.min j.min k.min t; max = max_of_assoc i.max j.max k.max t }

  pub union_inner_comm : (i j : BoundsInner A) → union_inner i j ≡ union_inner j i
  unfolding union_inner
  union_inner_comm i j =
      λ t. record { min = min_of_comm i.min j.min t; max = max_of_comm i.max j.max t }
