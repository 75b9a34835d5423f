-- ===== src/Scalar/Inverse.antt =====
-- The inverse as a total function, zero at zero, for statements.
use sxt_proof_of_sql.Shared.{Option, none, some, ◌≡◌, ◌≢◌, sym, ◌∙◌}
use sxt_proof_of_sql.Scalar.{Scalar, ◌⊗◌}
use sxt_proof_of_sql.Scalar.Ring.{mul_cancel, mul_nonzero}

module _ {S : Type 0} ⦃s : Scalar S⦄ where
  or_zero : Option S → S
  or_zero none = s.zero
  or_zero (some b) = b

  unfoldable pub recip : S → S
  unfolding or_zero
  recip a = or_zero (s.inv a)

  pub inv-recip : (a : S) → a ≢ s.zero → s.inv a ≡ some (recip a)
  unfolding recip or_zero
  inv-recip a h = let (b, e, _) = s.inv_some a h in rw e

  pub mul-recip : (a : S) → a ≢ s.zero → a ⊗ recip a ≡ s.one
  unfolding recip or_zero
  mul-recip a h = let (b, e, unit) = s.inv_some a h in rw e unit

  pub recip_unique : (a b : S) → a ≢ s.zero → b ⊗ a ≡ s.one → recip a ≡ b
  recip_unique a b h e = mul_cancel (recip a) b a h (s.mul_comm (recip a) a ∙ mul-recip a h ∙ sym e)

  -- A common factor cancels.
  pub mul-recip-mul : (a b : S) → a ≢ s.zero → b ≢ s.zero → a ⊗ recip (b ⊗ a) ≡ recip b
  mul-recip-mul a b ha hb = sym (
      recip_unique b (a ⊗ recip (b ⊗ a)) hb
        (s.mul_comm _ b ∙ sym (s.mul_assoc b a _) ∙ mul-recip (b ⊗ a) (mul_nonzero b a hb ha)))
