-- ===== src/Shared/Classes.antt =====
-- The traits `Eq` and `Ord` as records of an operation and its laws.
use mathlib.Core.Path.{◌≡◌}
use mathlib.Core.Logic.{◌↔◌, ◌⊎◌}
use mathlib.Core.Bool.{Bool, true}

pub record Eq {ℓ} (A : Type ℓ) : Type ℓ where
  pub beq : A → A → Bool
  pub beq_iff : (x y : A) → (beq x y ≡ true) ↔ (x ≡ y)

abbrev pub equal {ℓ} : {A : Type ℓ} ⦃e : Eq A⦄ → A → A → Bool
equal ⦃e⦄ = e.beq

-- A total order: `le_of a b` is `a <= b`.
pub record Ord {ℓ} (A : Type ℓ) : Type ℓ where
  pub le_of : A → A → Bool
  pub le_total : (a b : A) → (le_of a b ≡ true) ⊎ (le_of b a ≡ true)
  pub le_transitive : (a b c : A) → le_of a b ≡ true → le_of b c ≡ true → le_of a c ≡ true
  pub le_antisym : (a b : A) → le_of a b ≡ true → le_of b a ≡ true → a ≡ b
