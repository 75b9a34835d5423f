-- ===== src/SliceOps/BatchInverse/Serial.antt =====
-- `serial_batch_inversion_and_mul` of crates/proof-of-sql/src/base/slice_ops/batch_inverse.rs.
use mathlib.Core.List.{reverse, reverse-cons, reverse-reverse, reverse-append, map-append}
use sxt_proof_of_sql.Shared.{
  ◌≡◌, ◌≢◌, refl, sym, ap, ap₂, ◌∙◌, true, false, Bool-cases, inl, inr, List, [], ◌∷◌, ◌++◌, map,
  drop, if◌then◌else◌, ok,
}
use sxt_proof_of_sql.Scalar.{Scalar, ◌⊗◌}
use sxt_proof_of_sql.Scalar.Ring.{ring_laws, one-mul, mul_cancel, mul_nonzero}
use sxt_proof_of_sql.Scalar.Inverse.{recip, inv-recip, mul-recip}
use sxt_proof_of_sql.SliceOps.BatchInverse.{
  is_zero, prefix_products, total_product, invert_backwards, serial_batch_inversion_and_mul,
}

module _ {S : Type 0} ⦃s : Scalar S⦄ where
  -- What becomes of an entry.
  abbrev pub scaled_inverse : S → S → S
  scaled_inverse coeff f = if is_zero f then f else coeff ⊗ recip f

  not_zero : (f : S) → is_zero f ≡ false → f ≢ s.zero
  not_zero f h e = cc (h, (s.is_equal_iff f s.zero).1 e)

  -- The first pass from the last entry: the product of all, those of each nonzero entry with the
  -- ones before it, and those before it.
  all_of : List S → S
  all_of [] = s.one
  all_of (f ∷ r) = if is_zero f then all_of r else all_of r ⊗ f

  products_of : List S → List S
  unfolding all_of
  products_of [] = []
  products_of (f ∷ r) = if is_zero f then products_of r else all_of r ⊗ f ∷ products_of r

  products_before : List S → List S
  unfolding all_of
  products_before [] = []
  products_before (f ∷ r) = if is_zero f then products_before r else all_of r ∷ products_before r

  total_product-append :
      (t f : S) (v : List S)
      → total_product t (v ++ (f ∷ []))
        ≡ (if is_zero f then total_product t v else total_product t v ⊗ f)
  unfolding total_product
  total_product-append t f [] = refl
  total_product-append t f (g ∷ v) = elim (Bool-cases (is_zero g)) [
    | inl z ↦ rw z (total_product-append t f v)
    | inr z ↦ rw z (total_product-append (t ⊗ g) f v)
  ]

  prefix_products-append :
      (t f : S) (v : List S)
      → prefix_products t (v ++ (f ∷ []))
        ≡ prefix_products t v ++ (if is_zero f then [] else total_product t v ⊗ f ∷ [])
  unfolding prefix_products total_product
  prefix_products-append t f [] = refl
  prefix_products-append t f (g ∷ v) = elim (Bool-cases (is_zero g)) [
    | inl z ↦ rw z (prefix_products-append t f v)
    | inr z ↦ rw z (ap (λ l. t ⊗ g ∷ l) (prefix_products-append (t ⊗ g) f v))
  ]

  total_product-all_of : (r : List S) → total_product s.one (reverse r) ≡ all_of r
  unfolding all_of
  total_product-all_of [] = unfold total_product in refl
  total_product-all_of (f ∷ r) =
      rw (reverse-cons f r, total_product-append s.one f (reverse r), total_product-all_of r)

  prefix_products-products_of :
      (r : List S) → reverse (prefix_products s.one (reverse r)) ≡ products_of r
  unfolding products_of
  prefix_products-products_of [] = unfold prefix_products in refl
  prefix_products-products_of (f ∷ r) =
      rw
        (
          reverse-cons f r,
          prefix_products-append s.one f (reverse r),
          total_product-all_of r,
          reverse-append,
          prefix_products-products_of r,
        )
        (elim (Bool-cases (is_zero f)) [ inl z ↦ rw z | inr z ↦ rw z ])

  all_of_nonzero : (r : List S) → s.one ≢ s.zero → all_of r ≢ s.zero
  unfolding all_of
  all_of_nonzero [] one = one
  all_of_nonzero (f ∷ r) one = elim (Bool-cases (is_zero f)) [
    | inl z ↦ rw z (all_of_nonzero r one)
    | inr z ↦ rw z (mul_nonzero (all_of r) f (all_of_nonzero r one) (not_zero f z))
  ]

  -- The products that are left, from the last entry on.
  products_of-one : (r : List S) → products_of r ++ (s.one ∷ []) ≡ all_of r ∷ products_before r
  unfolding products_of products_before all_of
  products_of-one [] = refl
  products_of-one (f ∷ r) = elim (Bool-cases (is_zero f)) [
    | inl z ↦ rw z (products_of-one r)
    | inr z ↦ rw z (ap (λ l. all_of r ⊗ f ∷ l) (products_of-one r))
  ]

  divided : (t f p coeff : S) → f ≢ s.zero → t ⊗ (p ⊗ f) ≡ coeff → t ⊗ p ≡ coeff ⊗ recip f
  divided t f p coeff nonzero e = mul_cancel (t ⊗ p) (coeff ⊗ recip f) f nonzero (
      s.mul_assoc t p f
      ∙ e
      ∙ sym (
          s.mul_assoc coeff (recip f) f
          ∙ ap (λ x. coeff ⊗ x) (s.mul_comm (recip f) f ∙ mul-recip f nonzero)
          ∙ s.mul-one coeff))

  invert_backwards-nil : (t : S) (r : List S) → invert_backwards t r [] ≡ r
  unfolding invert_backwards
  invert_backwards-nil t [] = refl
  invert_backwards-nil t (f ∷ r) = refl

  skip_zero :
      (t f : S) (r products : List S)
      → is_zero f ≡ true
      → invert_backwards t (f ∷ r) products ≡ f ∷ invert_backwards t r products
  unfolding invert_backwards
  skip_zero t f r [] z = ap (λ l. f ∷ l) (sym (invert_backwards-nil t r))
  skip_zero t f r (p ∷ products) z = rw z

  invert_one :
      (t f p : S) (r products : List S)
      → is_zero f ≡ false
      → invert_backwards t (f ∷ r) (p ∷ products) ≡ t ⊗ p ∷ invert_backwards (t ⊗ f) r products
  unfolding invert_backwards
  invert_one t f p r products z = rw z

  invert_backwards-before :
      (r : List S) (t coeff : S)
      → t ⊗ all_of r ≡ coeff
      → invert_backwards t r (products_before r) ≡ map (scaled_inverse coeff) r
  unfolding products_before all_of
  invert_backwards-before [] t coeff e = unfold invert_backwards in refl
  invert_backwards-before (f ∷ r) t coeff e = elim (Bool-cases (is_zero f)) [
    | inl z ↦ rw z (
        skip_zero t f r (products_before r) z
        ∙ ap (λ l. f ∷ l) (invert_backwards-before r t coeff (rw z at e)))
    | inr z ↦ rw z (
        invert_one t f (all_of r) r (products_before r) z
        ∙ ap₂ (λ x l. x ∷ l) (divided t f (all_of r) coeff (not_zero f z) (rw z at e))
            (invert_backwards-before r (t ⊗ f) coeff (turned t f (all_of r) ∙ (rw z at e))))
  ]
    where
      turned : (t f p : S) → t ⊗ f ⊗ p ≡ t ⊗ (p ⊗ f)
      turned t f p = simp ring_laws

  products_of-zero : (f : S) (r : List S) → is_zero f ≡ true → products_of (f ∷ r) ≡ products_of r
  unfolding products_of
  products_of-zero f r z = rw z

  all_of-zero : (f : S) (r : List S) → is_zero f ≡ true → all_of (f ∷ r) ≡ all_of r
  unfolding all_of
  all_of-zero f r z = rw z

  scaled_inverse-zero : (coeff f : S) → is_zero f ≡ true → scaled_inverse coeff f ≡ f
  scaled_inverse-zero coeff f z = rw z

  products_left :
      (f : S) (r : List S)
      → is_zero f ≡ false
      → drop 1 (products_of (f ∷ r)) ++ (s.one ∷ []) ≡ products_before (f ∷ r)
  unfolding products_of products_before all_of
  products_left f r z = rw z (products_of-one r)

  invert_backwards-all :
      (r : List S) (t coeff : S)
      → t ⊗ all_of r ≡ coeff
      → invert_backwards t r (drop 1 (products_of r) ++ (s.one ∷ [])) ≡ map (scaled_inverse coeff) r
  invert_backwards-all [] t coeff e = unfold invert_backwards in refl
  invert_backwards-all (f ∷ r) t coeff e = elim (Bool-cases (is_zero f)) [
    | inl z ↦
        skip_zero t f r (drop 1 (products_of (f ∷ r)) ++ (s.one ∷ [])) z
        ∙ ap (λ l. f ∷ invert_backwards t r (drop 1 l ++ (s.one ∷ []))) (products_of-zero f r z)
        ∙ ap₂ (λ x l. x ∷ l) (sym (scaled_inverse-zero coeff f z))
            (invert_backwards-all r t coeff (ap (λ x. t ⊗ x) (sym (all_of-zero f r z)) ∙ e))
    | inr z ↦
        ap (invert_backwards t (f ∷ r)) (products_left f r z)
        ∙ invert_backwards-before (f ∷ r) t coeff e
  ]

  map-reverse : (f : S → S) (r : List S) → reverse (map f r) ≡ map f (reverse r)
  map-reverse f [] = refl
  map-reverse f (x ∷ r) = rw (
    reverse-cons (f x) (map f r),
    reverse-cons x r,
    map-append f (reverse r) (x ∷ []),
    map-reverse f r,
  )

  pub serial_batch_inversion_and_mul-map :
      (v : List S) (coeff : S)
      → s.one ≢ s.zero
      → serial_batch_inversion_and_mul v coeff ≡ ok (map (scaled_inverse coeff) v)
  unfolding serial_batch_inversion_and_mul
  serial_batch_inversion_and_mul-map v coeff one =
      let r = reverse v in
      let same : reverse r ≡ v = reverse-reverse v in
      let total : total_product s.one v ≡ all_of r =
        ap (total_product s.one) (sym same) ∙ total_product-all_of r in
      let left : reverse (prefix_products s.one v) ≡ products_of r =
        ap (λ l. reverse (prefix_products s.one l)) (sym same) ∙ prefix_products-products_of r in
      rw
        (
          total,
          inv-recip (all_of r) (all_of_nonzero r one),
          left,
          invert_backwards-all r (recip (all_of r) ⊗ coeff) coeff (
              cancelled (all_of r) (recip (all_of r))
                (mul-recip (all_of r) (all_of_nonzero r one))),
        )
        (ap ok (map-reverse (scaled_inverse coeff) r ∙ ap (map (scaled_inverse coeff)) same))
    where
      cancelled : (a b : S) → a ⊗ b ≡ s.one → b ⊗ coeff ⊗ a ≡ coeff
      cancelled a b e =
          s.mul_comm (b ⊗ coeff) a
          ∙ sym (s.mul_assoc a b coeff)
          ∙ ap (λ x. x ⊗ coeff) e
          ∙ one-mul coeff
