-- ===== src/Commitment/Bounds/Union.antt =====
-- `Bounds::union` against the union of the collections that the bounds describe.
use sxt_proof_of_sql.Shared.{
  Ord, true, ◌&&◌, List, [], ◌++◌, ◌≡◌, refl, ap, All, All-map, All-append, Contains,
  Contains-append_left, Contains-append_right, inl, inr, subst, sym,
}
use mathlib.Core.List.{append-nil}
use sxt_proof_of_sql.Commitment.Bounds.{
  Bounds, empty, bounded, sharp, BoundsInner, min_of, max_of, union_inner, union, surrounds_inner,
  Describes, is_exact, IsWithin,
}
use sxt_proof_of_sql.Commitment.Bounds.Order.{
  min_of-cases, max_of-cases, surrounds_inner-union_left, surrounds_inner-union_right,
  union_inner_comm,
}

module _ {A : Type 0} ⦃o : Ord A⦄ where
  abbrev Within : BoundsInner A → List A → Type 0
  Within i = All (λ x. surrounds_inner i x ≡ true)

  Within-union :
      (i j : BoundsInner A) (xs ys : List A)
      → Within i xs
      → Within j ys
      → Within (union_inner i j) (xs ++ ys)
  Within-union i j xs ys h k =
      All-append _ xs ys (All-map (surrounds_inner-union_left i j) xs h)
        (All-map (surrounds_inner-union_right i j) ys k)

  Contains-min_of :
      (a b : A) (xs ys : List A) → Contains a xs → Contains b ys → Contains (min_of a b) (xs ++ ys)
  Contains-min_of a b xs ys h k = elim (min_of-cases a b) [
    | inl e ↦ subst (λ v. Contains v (xs ++ ys)) (sym e) (Contains-append_left a xs ys h)
    | inr e ↦ subst (λ v. Contains v (xs ++ ys)) (sym e) (Contains-append_right b xs ys k)
  ]

  Contains-max_of :
      (a b : A) (xs ys : List A) → Contains a xs → Contains b ys → Contains (max_of a b) (xs ++ ys)
  Contains-max_of a b xs ys h k = elim (max_of-cases a b) [
    | inl e ↦ subst (λ v. Contains v (xs ++ ys)) (sym e) (Contains-append_left a xs ys h)
    | inr e ↦ subst (λ v. Contains v (xs ++ ys)) (sym e) (Contains-append_right b xs ys k)
  ]

  Describes-append_nil :
      (b : Bounds A) (xs ys : List A) → Describes b xs → ys ≡ [] → Describes b (xs ++ ys)
  Describes-append_nil b xs ys h e = subst (λ zs. Describes b (xs ++ zs)) (sym e) (rw append-nil h)

  Describes-nil_append :
      (b : Bounds A) (xs ys : List A) → Describes b ys → xs ≡ [] → Describes b (xs ++ ys)
  Describes-nil_append b xs ys h e = subst (λ zs. Describes b (zs ++ ys)) (sym e) h

  -- The bounds of two collections, put together.
  pub Describes-union :
      (a b : Bounds A) (xs ys : List A)
      → Describes a xs
      → Describes b ys
      → Describes (union a b) (xs ++ ys)
  unfolding union union_inner
  Describes-union empty empty xs ys h k = Describes-nil_append empty xs ys k h
  Describes-union empty (bounded j) xs ys h k = Describes-nil_append (bounded j) xs ys k h
  Describes-union empty (sharp j) xs ys h k = Describes-nil_append (sharp j) xs ys k h
  Describes-union (bounded i) empty xs ys h k = Describes-append_nil (bounded i) xs ys h k
  Describes-union (bounded i) (bounded j) xs ys h k = Within-union i j xs ys h k
  Describes-union (bounded i) (sharp j) xs ys h k = Within-union i j xs ys h k.0
  Describes-union (sharp i) empty xs ys h k = Describes-append_nil (sharp i) xs ys h k
  Describes-union (sharp i) (bounded j) xs ys h k = Within-union i j xs ys h.0 k
  Describes-union (sharp i) (sharp j) xs ys h k = (
    Within-union i j xs ys h.0 k.0,
    Contains-min_of i.min j.min xs ys h.1 k.1,
    Contains-max_of i.max j.max xs ys h.2 k.2,
  )

  min_of-above :
      (low a b : A) → o.le_of low a ≡ true → o.le_of low b ≡ true → o.le_of low (min_of a b) ≡ true
  min_of-above low a b h k = elim (min_of-cases a b) [ inl e ↦ rw e h | inr e ↦ rw e k ]

  max_of-below :
      (high a b : A)
      → o.le_of a high ≡ true
      → o.le_of b high ≡ true
      → o.le_of (max_of a b) high ≡ true
  max_of-below high a b h k = elim (max_of-cases a b) [ inl e ↦ rw e h | inr e ↦ rw e k ]

  union_inner-IsWithin :
      (k i j : BoundsInner A)
      → IsWithin k (bounded i)
      → IsWithin k (bounded j)
      → IsWithin k (bounded (union_inner i j))
  unfolding union_inner
  union_inner-IsWithin k i j h g =
      (min_of-above k.min i.min j.min h.0 g.0, max_of-below k.max i.max j.max h.1 g.1)

  union-IsWithin :
      (k : BoundsInner A) (a b : Bounds A) → IsWithin k a → IsWithin k b → IsWithin k (union a b)
  unfolding union
  union-IsWithin k empty empty h g = tt
  union-IsWithin k empty (bounded j) h g = g
  union-IsWithin k empty (sharp j) h g = g
  union-IsWithin k (bounded i) empty h g = h
  union-IsWithin k (bounded i) (bounded j) h g = union_inner-IsWithin k i j h g
  union-IsWithin k (bounded i) (sharp j) h g = union_inner-IsWithin k i j h g
  union-IsWithin k (sharp i) empty h g = h
  union-IsWithin k (sharp i) (bounded j) h g = union_inner-IsWithin k i j h g
  union-IsWithin k (sharp i) (sharp j) h g = union_inner-IsWithin k i j h g

  is_exact-union : (a b : Bounds A) → is_exact (union a b) ≡ (is_exact a && is_exact b)
  unfolding union
  is_exact-union empty empty = refl
  is_exact-union empty (bounded j) = refl
  is_exact-union empty (sharp j) = refl
  is_exact-union (bounded i) empty = refl
  is_exact-union (bounded i) (bounded j) = refl
  is_exact-union (bounded i) (sharp j) = refl
  is_exact-union (sharp i) empty = refl
  is_exact-union (sharp i) (bounded j) = refl
  is_exact-union (sharp i) (sharp j) = refl

  -- The union of the bounds of two collections describes the two collections put together. It is
  -- exact (not `bounded`) where both are, and only there, and lies within every range that the two
  -- lie within.
  pub union-Describes_both :
      (a b : Bounds A) (xs ys : List A) (k : BoundsInner A)
      → Describes a xs
      → Describes b ys
      → IsWithin k a
      → IsWithin k b
      → Describes (union a b) (xs ++ ys)
        × (is_exact (union a b) ≡ (is_exact a && is_exact b))
        × IsWithin k (union a b)
  union-Describes_both a b xs ys k h g within_a within_b =
      (Describes-union a b xs ys h g, is_exact-union a b, union-IsWithin k a b within_a within_b)

  -- Union forgets the order of its operands.
  pub union_comm : (a b : Bounds A) → union a b ≡ union b a
  unfolding union
  union_comm empty empty = refl
  union_comm empty (bounded j) = refl
  union_comm empty (sharp j) = refl
  union_comm (bounded i) empty = refl
  union_comm (bounded i) (bounded j) = ap bounded (union_inner_comm i j)
  union_comm (bounded i) (sharp j) = ap bounded (union_inner_comm i j)
  union_comm (sharp i) empty = refl
  union_comm (sharp i) (bounded j) = ap bounded (union_inner_comm i j)
  union_comm (sharp i) (sharp j) = ap sharp (union_inner_comm i j)
