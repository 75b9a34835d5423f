-- ===== src/Shared/Results.antt =====
-- Fallible code: `Result<A, E>` of the source, with a third outcome for a panic.
use mathlib.Core.Path.{◌≡◌, refl}
use mathlib.Core.Option.{Option, none, some}
use mathlib.Core.List.{List, [], ◌∷◌}

-- `panic` is an `expect`, an `unwrap`, an assertion or an index that fails.
pub data Result {ε ℓ} (E : Type ε) (A : Type ℓ) : Type (ε ⊔ ℓ) where
  ok : A → Result E A
  err : E → Result E A
  panic : Result E A

infixl 5 ◌>>=◌
abbrev pub ◌>>=◌ {ε ℓ κ} :
    {E : Type ε} {A : Type ℓ} {B : Type κ} → Result E A → (A → Result E B) → Result E B
ok a >>= f = f a
err e >>= f = err e
panic >>= f = panic

-- `?` with a `From` conversion of the error.
abbrev pub map_err {ε δ ℓ} :
    {E : Type ε} {D : Type δ} {A : Type ℓ} → (E → D) → Result E A → Result D A
map_err f (ok a) = ok a
map_err f (err e) = err (f e)
map_err f panic = panic

-- `expect` on a result whose error the caller rules out.
abbrev pub expect {ε δ ℓ} : {E : Type ε} {D : Type δ} {A : Type ℓ} → Result E A → Result D A
expect (ok a) = ok a
expect (err e) = panic
expect panic = panic

abbrev pub expect_some {ε ℓ} : {E : Type ε} {A : Type ℓ} → Option A → Result E A
expect_some (some a) = ok a
expect_some none = panic

-- Inversion of a successful bind.
pub >>=-eq-ok {ε ℓ κ} :
    {E : Type ε} {A : Type ℓ} {B : Type κ} (r : Result E A) (next : A → Result E B) {y : B}
    → (r >>= next) ≡ ok y
    → (x : A) × (r ≡ ok x) × (next x ≡ ok y)
>>=-eq-ok panic next p = cc
>>=-eq-ok (err e) next p = cc
>>=-eq-ok (ok x) next p = (x, refl, p)

pub map_err-eq-ok {ε δ ℓ} :
    {E : Type ε} {D : Type δ} {A : Type ℓ} (g : E → D) (m : Result E A) {a : A}
    → map_err g m ≡ ok a
    → m ≡ ok a
map_err-eq-ok g (ok b) h = cc
map_err-eq-ok g (err e) h = cc
map_err-eq-ok g panic h = cc

pub expect-eq-ok {ε δ ℓ} :
    {E : Type ε} (D : Type δ) {A : Type ℓ} (m : Result E A) {a : A}
    → expect {D = D} m ≡ ok a
    → m ≡ ok a
expect-eq-ok D (ok b) h = cc
expect-eq-ok D (err e) h = cc
expect-eq-ok D panic h = cc

-- A fallible function on each element, in order.
abbrev pub traverse {ε ℓ κ} :
    {E : Type ε} {A : Type ℓ} {B : Type κ} → (A → Result E B) → List A → Result E (List B)
traverse f [] = ok []
traverse f (x ∷ xs) = f x >>= λ y. traverse f xs >>= λ ys. ok (y ∷ ys)
