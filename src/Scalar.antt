-- ===== src/Scalar.antt =====
-- crates/proof-of-sql/src/base/scalar/mod.rs, the trait `Scalar`: the operations of the field that
-- the proofs use. They are those of the crate `ark_ff`, a parameter; the laws are those of a field.
pub mod Ring
pub mod Sums
pub mod Naturals
pub mod Inverse
pub mod Five
use sxt_proof_of_sql.Shared.{Option, none, some, Bool, true, ◌≡◌, ◌≢◌, ◌↔◌}

pub record Scalar (S : Type 0) : Type 0 where
  pub zero : S
  pub one : S
  pub add : S → S → S
  pub mul : S → S → S
  pub sub : S → S → S
  pub inv : S → Option S
  pub is_equal : S → S → Bool
  pub is_equal_iff : (a b : S) → (is_equal a b ≡ true) ↔ (a ≡ b)
  pub add_assoc : (a b c : S) → add (add a b) c ≡ add a (add b c)
  pub add_comm : (a b : S) → add a b ≡ add b a
  pub add-zero : (a : S) → add a zero ≡ a
  pub sub-add : (a b : S) → add (sub a b) b ≡ a
  pub mul_assoc : (a b c : S) → mul (mul a b) c ≡ mul a (mul b c)
  pub mul_comm : (a b : S) → mul a b ≡ mul b a
  pub mul-one : (a : S) → mul a one ≡ a
  pub mul-add : (a b c : S) → mul a (add b c) ≡ add (mul a b) (mul a c)
  -- "`inv` should return `None` exactly when the element is zero."
  pub inv-zero : inv zero ≡ none
  pub inv_some : (a : S) → a ≢ zero → (b : S) × (inv a ≡ some b) × (mul a b ≡ one)

module _ {S : Type 0} ⦃s : Scalar S⦄ where
  infixl 68 ◌⊕◌ ◌⊖◌
  infixl 72 ◌⊗◌
  abbrev pub ◌⊕◌ : S → S → S
  a ⊕ b = s.add a b

  abbrev pub ◌⊖◌ : S → S → S
  a ⊖ b = s.sub a b

  abbrev pub ◌⊗◌ : S → S → S
  a ⊗ b = s.mul a b
