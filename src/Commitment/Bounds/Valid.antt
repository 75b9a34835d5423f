-- ===== src/Commitment/Bounds/Valid.antt =====
-- The invariant that the private fields of `BoundsInner` keep: the minimum is at most the maximum.
use sxt_proof_of_sql.Shared.{ok, err, Ord, true, false, ◌≡◌, arith, Bool-cases, inl, inr, ◌⊎◌}
use sxt_proof_of_sql.Commitment.Bounds.{
  Bounds, empty, bounded, sharp, BoundsInner, apart, union_inner, union, difference, try_new,
  sharp_of, bounded_of, min_of, max_of, negative_bounds, IsValid, surrounds, surrounds_inner,
}
use sxt_proof_of_sql.Commitment.Bounds.Order.{min_of-le_left, le-max_of_left}

module _ {A : Type 0} ⦃o : Ord A⦄ where
  union_inner_ordered :
      (i j : BoundsInner A)
      → o.le_of i.min i.max ≡ true
      → o.le_of (union_inner i j).min (union_inner i j).max ≡ true
  unfolding union_inner
  union_inner_ordered i j h =
      o.le_transitive (min_of i.min j.min) i.min (max_of i.max j.max) (min_of-le_left i.min j.min)
        (o.le_transitive i.min i.max (max_of i.max j.max) h (le-max_of_left i.max j.max))

  pub union-IsValid : (a b : Bounds A) → IsValid a → IsValid b → IsValid (union a b)
  unfolding union
  union-IsValid empty empty h k = tt
  union-IsValid empty (bounded j) h k = k
  union-IsValid empty (sharp j) h k = k
  union-IsValid (bounded i) empty h k = h
  union-IsValid (bounded i) (bounded j) h k = union_inner_ordered i j h
  union-IsValid (bounded i) (sharp j) h k = union_inner_ordered i j h
  union-IsValid (sharp i) empty h k = h
  union-IsValid (sharp i) (bounded j) h k = union_inner_ordered i j h
  union-IsValid (sharp i) (sharp j) h k = union_inner_ordered i j h

  pub difference-IsValid : (a b : Bounds A) → IsValid a → IsValid (difference a b)
  unfolding difference
  difference-IsValid empty b h = tt
  difference-IsValid (bounded i) empty h = h
  difference-IsValid (bounded i) (bounded j) h = h
  difference-IsValid (bounded i) (sharp j) h = h
  difference-IsValid (sharp i) empty h = h
  difference-IsValid (sharp i) (bounded j) h = elim (Bool-cases (apart i j)) [
    | inl e ↦ rw e h
    | inr e ↦ rw e h
  ]
  difference-IsValid (sharp i) (sharp j) h = elim (Bool-cases (apart i j)) [
    | inl e ↦ rw e h
    | inr e ↦ rw e h
  ]

  -- The union and the difference of valid bounds are valid.
  pub combine-IsValid :
      (a b : Bounds A) → IsValid a → IsValid b → IsValid (union a b) × IsValid (difference a b)
  combine-IsValid a b h k = (union-IsValid a b h k, difference-IsValid a b h)

  -- The two constructors of bounds from a pair of values refuse exactly the pairs whose second value
  -- is below the first, and else give valid bounds that surround both values.
  pub bounds_of-cases :
      (low high : A)
      → ((o.le_of low high ≡ true)
          × ((i : BoundsInner A) × (sharp_of low high ≡ ok (sharp i))
              × (bounded_of low high ≡ ok (bounded i))
              × IsValid (sharp i)
              × (surrounds (sharp i) low ≡ true)
              × (surrounds (sharp i) high ≡ true)))
        ⊎ ((o.le_of low high ≡ false)
            × (sharp_of low high ≡ err negative_bounds)
            × (bounded_of low high ≡ err negative_bounds))
  unfolding sharp_of bounded_of try_new surrounds surrounds_inner
  bounds_of-cases low high = elim (Bool-cases (o.le_of low high)) [
    | inl e ↦ inl (
      e,
      (
        record { min = low; max = high },
        rw e,
        rw e,
        e,
        ground (arith, o.le_total low low),
        ground (arith, o.le_total high high),
      ),
    )
    | inr e ↦ inr (e, rw e, rw e)
  ]
