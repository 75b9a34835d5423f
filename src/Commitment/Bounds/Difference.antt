-- ===== src/Commitment/Bounds/Difference.antt =====
-- `Bounds::difference`, against the collections that the bounds describe.
use sxt_proof_of_sql.Shared.{
  Ord, Bool, true, false, List, [], ◌∷◌, ◌++◌, ◌≡◌, refl, sym, subst, All, All-append_left,
  All-append_right, Contains-append_left, Contains-append_right, Eq, ap, All-Contains, Contains,
  Bool-cases, inl, inr, arith, if◌then◌else◌, ◌||◌,
}
use mathlib.Core.List.{append-nil}
use sxt_proof_of_sql.Commitment.Bounds.{
  Bounds, empty, bounded, sharp, BoundsInner, apart, surrounds_inner, difference, Describes,
}

module _ {A : Type 0} ⦃o : Ord A⦄ where
  -- Ranges that do not meet surround no common value.
  apart-surrounds_inner :
      (i j : BoundsInner A) (x : A)
      → apart i j ≡ true
      → surrounds_inner i x ≡ true
      → surrounds_inner j x ≡ true
      → ⊥
  unfolding surrounds_inner
  apart-surrounds_inner i j x h p q =
      ground (arith, o.le_transitive j.min x i.max, o.le_transitive i.min x j.max)

  -- `rest` is what is left of `xs` when rows that are also in `ys` are removed: it has no other
  -- values than `xs`, and it is all of `xs` where the two share no value.
  pub record IsRemoval (xs ys rest : List A) : Type 1 where
    pub within : (P : A → Type 0) → All P xs → All P rest
    pub unchanged : ((x : A) → Contains x xs → Contains x ys → ⊥) → xs ≡ rest

  All-⊥ : (xs : List A) → All (λ _. ⊥) xs → xs ≡ []
  All-⊥ [] h = refl
  All-⊥ (x ∷ xs) h = absurd h.0

  sharp-difference :
      (i j : BoundsInner A) (xs ys rest : List A)
      → Describes (sharp i) xs
      → All (λ x. surrounds_inner j x ≡ true) ys
      → IsRemoval xs ys rest
      → Describes (if apart i j then sharp i else bounded i) rest
  sharp-difference i j xs ys rest h k r = elim (Bool-cases (apart i j)) [
    | inl e ↦ rw e (
        subst (Describes (sharp i))
          (r.unchanged λ x p q.
            apart-surrounds_inner i j x e (All-Contains _ x xs h.0 p) (All-Contains _ x ys k q))
          h)
    | inr e ↦ rw e (r.within _ h.0)
  ]

  -- The difference of the bounds of two collections describes what is left of the first one.
  pub difference-Describes :
      (a b : Bounds A) (xs ys rest : List A)
      → Describes a xs
      → Describes b ys
      → IsRemoval xs ys rest
      → Describes (difference a b) rest
  unfolding difference
  difference-Describes empty b xs ys rest h k r =
      All-⊥ rest (r.within _ (subst (All (λ _. ⊥)) (sym h) tt))
  difference-Describes (bounded i) empty xs ys rest h k r = r.within _ h
  difference-Describes (bounded i) (bounded j) xs ys rest h k r = r.within _ h
  difference-Describes (bounded i) (sharp j) xs ys rest h k r = r.within _ h
  difference-Describes (sharp i) empty xs ys rest h k r =
      subst (Describes (sharp i)) (r.unchanged (λ x p q. subst (Contains x) k q)) h
  difference-Describes (sharp i) (bounded j) xs ys rest h k r =
      sharp-difference i j xs ys rest h k r
  difference-Describes (sharp i) (sharp j) xs ys rest h k r =
      sharp-difference i j xs ys rest h k.0 r

  -- Rows removed at the end or at the front.
  nil_of_disjoint :
      (xs ys : List A)
      → ((x : A) → Contains x xs → Contains x ys → ⊥)
      → ((x : A) → Contains x ys → Contains x xs)
      → ys ≡ []
  nil_of_disjoint xs [] h k = refl
  nil_of_disjoint xs (y ∷ ys) h k = absurd (h y (k y (inl refl)) (inl refl))

  pub append-IsRemoval : (rest ys : List A) → IsRemoval (rest ++ ys) ys rest
  append-IsRemoval rest ys = record {
    within = λ P. All-append_left P rest ys;
    unchanged = λ h.
        rw (nil_of_disjoint (rest ++ ys) ys h (λ x. Contains-append_right x rest ys), append-nil);
  }

  pub prepend-IsRemoval : (rest ys : List A) → IsRemoval (ys ++ rest) ys rest
  prepend-IsRemoval rest ys = record {
    within = λ P. All-append_right P ys rest;
    unchanged = λ h. rw (nil_of_disjoint (ys ++ rest) ys h (λ x. Contains-append_left x ys rest));
  }

module _ {A : Type 0} ⦃o : Ord A⦄ ⦃e : Eq A⦄ where
  abbrev pub is_in : A → List A → Bool
  is_in x [] = false
  is_in x (y ∷ ys) = e.beq x y || is_in x ys

  -- The rows of `xs` that are not also rows of `ys`.
  unfoldable pub minus : List A → List A → List A
  minus [] ys = []
  minus (x ∷ xs) ys = if is_in x ys then minus xs ys else x ∷ minus xs ys

  is_in→Contains : (x : A) (ys : List A) → is_in x ys ≡ true → Contains x ys
  is_in→Contains x [] h = cc
  is_in→Contains x (y ∷ ys) h = elim (Bool-cases (e.beq x y)) [
    | inl p ↦ inl ((e.beq_iff x y).0 p)
    | inr p ↦ inr (is_in→Contains x ys (ground arith))
  ]

  All-minus : (P : A → Type 0) (xs ys : List A) → All P xs → All P (minus xs ys)
  unfolding minus
  All-minus P [] ys h = tt
  All-minus P (x ∷ xs) ys h = elim (Bool-cases (is_in x ys)) [
    | inl p ↦ rw p (All-minus P xs ys h.1)
    | inr p ↦ rw p (h.0, All-minus P xs ys h.1)
  ]

  minus_disjoint :
      (xs ys : List A) → ((x : A) → Contains x xs → Contains x ys → ⊥) → xs ≡ minus xs ys
  unfolding minus
  minus_disjoint [] ys h = refl
  minus_disjoint (x ∷ xs) ys h = elim (Bool-cases (is_in x ys)) [
    | inl p ↦ absurd (h x (inl refl) (is_in→Contains x ys p))
    | inr p ↦ rw p (ap (λ zs. x ∷ zs) (minus_disjoint xs ys (λ y m. h y (inr m))))
  ]

  -- `difference` is sound for the set difference of the collections: if `a` describes `xs` and `b`
  -- describes `ys`, then `difference a b` describes the rows of `xs` that are not rows of `ys`,
  -- exactly so where it is `sharp`.
  pub difference-minus :
      (a b : Bounds A) (xs ys : List A)
      → Describes a xs
      → Describes b ys
      → Describes (difference a b) (minus xs ys)
  difference-minus a b xs ys h k =
      difference-Describes a b xs ys (minus xs ys) h k
        (record { within = λ P. All-minus P xs ys; unchanged = minus_disjoint xs ys })
