-- ===== src/Scalar/Ring.antt =====
-- The laws of a ring that follow from those of `Scalar`, and the set that sorts sums of products.
use sxt_proof_of_sql.Shared.{◌≡◌, ◌≢◌, sym, ap, ◌∙◌}
use sxt_proof_of_sql.Scalar.{Scalar, ◌⊕◌, ◌⊖◌, ◌⊗◌}

module _ {S : Type 0} ⦃s : Scalar S⦄ where
  -- The fields by name, for the set below.
  pub add_assoc : (a b c : S) → a ⊕ b ⊕ c ≡ a ⊕ (b ⊕ c)
  add_assoc = s.add_assoc

  pub add_comm : (a b : S) → a ⊕ b ≡ b ⊕ a
  add_comm = s.add_comm

  pub add-zero : (a : S) → a ⊕ s.zero ≡ a
  add-zero = s.add-zero

  pub mul_assoc : (a b c : S) → a ⊗ b ⊗ c ≡ a ⊗ (b ⊗ c)
  mul_assoc = s.mul_assoc

  pub mul_comm : (a b : S) → a ⊗ b ≡ b ⊗ a
  mul_comm = s.mul_comm

  pub mul-one : (a : S) → a ⊗ s.one ≡ a
  mul-one = s.mul-one

  pub mul-add : (a b c : S) → a ⊗ (b ⊕ c) ≡ a ⊗ b ⊕ a ⊗ c
  mul-add = s.mul-add

  pub zero-add : (a : S) → s.zero ⊕ a ≡ a
  zero-add a = s.add_comm s.zero a ∙ s.add-zero a

  pub one-mul : (a : S) → s.one ⊗ a ≡ a
  one-mul a = s.mul_comm s.one a ∙ s.mul-one a

  pub add-mul : (a b c : S) → (a ⊕ b) ⊗ c ≡ a ⊗ c ⊕ b ⊗ c
  add-mul a b c = rw (s.mul_comm (a ⊕ b) c, s.mul-add, s.mul_comm c a, s.mul_comm c b)

  pub add_left_comm : (a b c : S) → a ⊕ (b ⊕ c) ≡ b ⊕ (a ⊕ c)
  add_left_comm a b c = rw (← s.add_assoc a b c, s.add_comm a b) (s.add_assoc b a c)

  pub mul_left_comm : (a b c : S) → a ⊗ (b ⊗ c) ≡ b ⊗ (a ⊗ c)
  mul_left_comm a b c = rw (← s.mul_assoc a b c, s.mul_comm a b) (s.mul_assoc b a c)

  pub add-sub : (a b : S) → a ⊕ (b ⊖ a) ≡ b
  add-sub a b = s.add_comm a (b ⊖ a) ∙ s.sub-add b a

  pub zero-sub_add : (a : S) → a ⊕ (s.zero ⊖ a) ≡ s.zero
  zero-sub_add a = add-sub a s.zero

  pub add_cancel : (a b c : S) → a ⊕ c ≡ b ⊕ c → a ≡ b
  add_cancel a b c h = sym (plus_minus a) ∙ ap (λ x. x ⊕ (s.zero ⊖ c)) h ∙ plus_minus b
    where
      plus_minus : (x : S) → x ⊕ c ⊕ (s.zero ⊖ c) ≡ x
      plus_minus x = rw (s.add_assoc x c, zero-sub_add c) (s.add-zero x)

  -- A difference is known by what it adds up to.
  pub sub_unique : (a b c : S) → c ⊕ b ≡ a → a ⊖ b ≡ c
  sub_unique a b c h = add_cancel (a ⊖ b) c b (s.sub-add a b ∙ sym h)

  pub mul-zero : (a : S) → a ⊗ s.zero ≡ s.zero
  mul-zero a =
      add_cancel (a ⊗ s.zero) s.zero (a ⊗ s.zero)
        (sym (s.mul-add a s.zero s.zero) ∙ ap (λ x. a ⊗ x) (s.add-zero s.zero) ∙ sym (zero-add _))

  pub zero-mul : (a : S) → s.zero ⊗ a ≡ s.zero
  zero-mul a = s.mul_comm s.zero a ∙ mul-zero a

  pub sub_self : (a : S) → a ⊖ a ≡ s.zero
  sub_self a = sub_unique a a s.zero (zero-add a)

  pub sub-zero : (a : S) → a ⊖ s.zero ≡ a
  sub-zero a = sub_unique a s.zero a (s.add-zero a)

-- Both sides of an equation become sorted sums of sorted products.
pub ruleset ring_laws = (
  add_assoc, add_comm, add_left_comm, mul_assoc, mul_comm, mul_left_comm, mul-add, add-mul,
  add-zero, zero-add, mul-one, one-mul, mul-zero, zero-mul,
)

module _ {S : Type 0} ⦃s : Scalar S⦄ where
  pub minus_one : S
  minus_one = s.zero ⊖ s.one

  pub minus_one_lem : s.one ⊕ minus_one ≡ s.zero
  unfolding minus_one
  minus_one_lem = add-sub s.one s.zero

  pub add-minus_one : (a : S) → a ⊕ minus_one ⊗ a ≡ s.zero
  add-minus_one a =
      ap (λ x. x ⊕ minus_one ⊗ a) (sym (one-mul a))
      ∙ sym (add-mul s.one minus_one a)
      ∙ rw minus_one_lem (zero-mul a)

  pub sub-eq-add : (a b : S) → a ⊖ b ≡ a ⊕ minus_one ⊗ b
  sub-eq-add a b = sub_unique a b (a ⊕ minus_one ⊗ b) (
      s.add_assoc a (minus_one ⊗ b) b
      ∙ ap (λ x. a ⊕ x) (s.add_comm (minus_one ⊗ b) b ∙ add-minus_one b)
      ∙ s.add-zero a)

  pub minus_one-minus_one : (a : S) → minus_one ⊗ (minus_one ⊗ a) ≡ a
  minus_one-minus_one a =
      add_cancel (minus_one ⊗ (minus_one ⊗ a)) a (minus_one ⊗ a)
        (s.add_comm _ _ ∙ add-minus_one (minus_one ⊗ a) ∙ sym (add-minus_one a))

module _ {S : Type 0} ⦃s : Scalar S⦄ where
  pub minus_one-squared : minus_one ⊗ minus_one ≡ s.one
  minus_one-squared =
      ap (λ x. minus_one ⊗ x) (sym (s.mul-one minus_one)) ∙ minus_one-minus_one s.one

-- Differences become sums, then both sides are sorted; what cancels is cancelled by hand.
pub ruleset difference_laws = (sub-eq-add, minus_one-minus_one, minus_one-squared, ring_laws)

module _ {S : Type 0} ⦃s : Scalar S⦄ where
  pub mul_cancel : (a b c : S) → c ≢ s.zero → a ⊗ c ≡ b ⊗ c → a ≡ b
  mul_cancel a b c nonzero h =
      let (d, _, unit) = s.inv_some c nonzero in
      sym (undo a d unit) ∙ ap (λ x. x ⊗ d) h ∙ undo b d unit
    where
      undo : (x d : S) → c ⊗ d ≡ s.one → x ⊗ c ⊗ d ≡ x
      undo x d unit = rw (s.mul_assoc x c d, unit) (s.mul-one x)

  pub mul_nonzero : (a b : S) → a ≢ s.zero → b ≢ s.zero → a ⊗ b ≢ s.zero
  mul_nonzero a b ha hb h = ha (mul_cancel a s.zero b hb (h ∙ sym (zero-mul b)))

  -- A difference is zero only between equals.
  pub sub_nonzero : (a b : S) → a ≢ b → a ⊖ b ≢ s.zero
  sub_nonzero a b h e = h (sym (s.sub-add a b) ∙ ap (λ x. x ⊕ b) e ∙ zero-add b)
