-- ===== src/Shared/Lists.antt =====
-- Lists measured and indexed by native numbers, under the library's names.
use Prim.Native.Nat.{ℕ, zero, suc, ◌+◌, ◌≤◌, ◌<◌}
use mathlib.Core.Path.{◌≡◌, refl, ap, ap₂, sym, subst, ◌∙◌}
use mathlib.Core.Logic.{◌⊎◌, inl, inr}
use mathlib.Core.List.{List, [], ◌∷◌, ◌++◌, map}
use mathlib.Core.Option
use mathlib.Core.Option.{Option, none, some}
use native.Mathlib.Omega.{arith}

module _ {ℓ} {A : Type ℓ} where
  abbrev pub length : List A → ℕ
  length [] = 0
  length (x ∷ xs) = suc (length xs)

  abbrev pub get_elem? : List A → ℕ → Option A
  get_elem? [] i = none
  get_elem? (x ∷ xs) zero = some x
  get_elem? (x ∷ xs) (suc i) = get_elem? xs i

  pub length-append : (xs ys : List A) → length (xs ++ ys) ≡ length xs + length ys
  length-append [] ys = omega arith
  length-append (x ∷ xs) ys = omega (arith, length-append xs ys)

  abbrev pub replicate : ℕ → A → List A
  replicate zero a = []
  replicate (suc n) a = a ∷ replicate n a

module _ {ℓ} {A : Type ℓ} where
  pub length-replicate : (n : ℕ) (a : A) → length (replicate n a) ≡ n
  length-replicate zero a = refl
  length-replicate (suc n) a = ap suc (length-replicate n a)

  pub length-map {κ} : {B : Type κ} (xs : List A) (f : A → B) → length (map f xs) ≡ length xs
  length-map [] f = refl
  length-map (x ∷ xs) f = ap suc (length-map xs f)

module _ {ℓ} {A : Type ℓ} where
  abbrev pub All {κ} : (A → Type κ) → List A → Type κ
  All P [] = Unit {κ}
  All P (x ∷ xs) = P x × All P xs

  pub All-append {κ} : (P : A → Type κ) (xs ys : List A) → All P xs → All P ys → All P (xs ++ ys)
  All-append P [] ys h k = k
  All-append P (x ∷ xs) ys h k = (h.0, All-append P xs ys h.1 k)

  pub All-append_left {κ} : (P : A → Type κ) (xs ys : List A) → All P (xs ++ ys) → All P xs
  All-append_left P [] ys h = tt
  All-append_left P (x ∷ xs) ys h = (h.0, All-append_left P xs ys h.1)

  pub All-append_right {κ} : (P : A → Type κ) (xs ys : List A) → All P (xs ++ ys) → All P ys
  All-append_right P [] ys h = h
  All-append_right P (x ∷ xs) ys h = All-append_right P xs ys h.1

  pub All-map {κ μ} :
      {P : A → Type κ} {Q : A → Type μ} (f : (x : A) → P x → Q x) (xs : List A)
      → All P xs
      → All Q xs
  All-map f [] h = tt
  All-map f (x ∷ xs) h = (f x h.0, All-map f xs h.1)

-- `a` is an element of the list.
abbrev pub Contains : {A : Type 0} → A → List A → Type 0
Contains a [] = ⊥
Contains a (x ∷ xs) = (a ≡ x) ⊎ Contains a xs

pub Contains-append_left :
    {A : Type 0} (a : A) (xs ys : List A) → Contains a xs → Contains a (xs ++ ys)
Contains-append_left a [] ys m = elim m [ ]
Contains-append_left a (x ∷ xs) ys (inl e) = inl e
Contains-append_left a (x ∷ xs) ys (inr m) = inr (Contains-append_left a xs ys m)

pub Contains-append_right :
    {A : Type 0} (a : A) (xs ys : List A) → Contains a ys → Contains a (xs ++ ys)
Contains-append_right a [] ys m = m
Contains-append_right a (x ∷ xs) ys m = inr (Contains-append_right a xs ys m)

pub All-Contains {κ} :
    {A : Type 0} (P : A → Type κ) (a : A) (xs : List A) → All P xs → Contains a xs → P a
All-Contains P a [] h m = elim m [ ]
All-Contains P a (x ∷ xs) h (inl e) = subst P (sym e) h.0
All-Contains P a (x ∷ xs) h (inr m) = All-Contains P a xs h.1 m

module _ {ℓ} {A : Type ℓ} where
  -- f start, …, f (start + count - 1)
  abbrev pub tabulate : (start count : ℕ) → (ℕ → A) → List A
  tabulate start zero f = []
  tabulate start (suc n) f = f start ∷ tabulate (suc start) n f

  abbrev pub take : ℕ → List A → List A
  take zero xs = []
  take (suc n) [] = []
  take (suc n) (x ∷ xs) = x ∷ take n xs

  abbrev pub drop : ℕ → List A → List A
  drop zero xs = xs
  drop (suc n) [] = []
  drop (suc n) (x ∷ xs) = drop n xs

module _ {ℓ} {A : Type ℓ} where
  pub length-tabulate : (start n : ℕ) (f : ℕ → A) → length (tabulate start n f) ≡ n
  length-tabulate start zero f = refl
  length-tabulate start (suc n) f = ap suc (length-tabulate (suc start) n f)

  pub tabulate_congr :
      (i n : ℕ) {f g : ℕ → A}
      → ((j : ℕ) → i ≤ j → j < i + n → f j ≡ g j)
      → tabulate i n f ≡ tabulate i n g
  tabulate_congr i zero h = refl
  tabulate_congr i (suc n) {f} {g} h = rw (
    h i (omega arith) (omega arith),
    tabulate_congr (suc i) n {f = f} {g = g} λ j lo hi. h j (omega arith) (omega arith),
  )

  pub tabulate-shift :
      (k i j n : ℕ) (f : ℕ → A) → k + i ≡ j → tabulate i n (λ x. f (k + x)) ≡ tabulate j n f
  tabulate-shift k i j zero f e = refl
  tabulate-shift k i j (suc n) f e = rw (e, tabulate-shift k (suc i) (suc j) n f (omega arith))

  pub tabulate-append :
      (i m j n k : ℕ) (f : ℕ → A)
      → i + m ≡ j
      → m + n ≡ k
      → tabulate i m f ++ tabulate j n f ≡ tabulate i k f
  tabulate-append i zero j n k f e d =
      ap₂ (λ x y. tabulate x y f) {x = j} {y = i} {u = n} {v = k} (omega arith) (omega arith)
  tabulate-append i (suc m) j n zero f e d = absurd (omega arith)
  tabulate-append i (suc m) j n (suc k) f e d =
      ap (λ l. f i ∷ l) (tabulate-append (suc i) m j n k f (omega arith) (omega arith))

  pub get_elem?-tabulate :
      (i n k : ℕ) (f : ℕ → A) → k < n → get_elem? (tabulate i n f) k ≡ some (f (i + k))
  get_elem?-tabulate i zero k f h = absurd (omega arith)
  get_elem?-tabulate i (suc n) zero f h = ap (λ x. some (f x)) {x = i} {y = i + 0} (omega arith)
  get_elem?-tabulate i (suc n) (suc k) f h =
      get_elem?-tabulate (suc i) n k f (omega arith)
      ∙ ap (λ x. some (f x)) {x = suc i + k} {y = i + suc k} (omega arith)

  pub get_elem?-tabulate_first :
      (n k : ℕ) (f : ℕ → A) → k < n → get_elem? (tabulate 0 n f) k ≡ some (f k)
  get_elem?-tabulate_first n k f h =
      get_elem?-tabulate 0 n k f h ∙ ap (λ x. some (f x)) {x = 0 + k} {y = k} (omega arith)

  pub take-append-drop : (n : ℕ) (xs : List A) → take n xs ++ drop n xs ≡ xs
  take-append-drop zero xs = refl
  take-append-drop (suc n) [] = refl
  take-append-drop (suc n) (x ∷ xs) = ap (λ l. x ∷ l) (take-append-drop n xs)

  pub take-append : (n : ℕ) (xs ys : List A) → length xs ≡ n → take n (xs ++ ys) ≡ xs
  take-append zero [] ys e = refl
  take-append zero (x ∷ xs) ys e = absurd (omega arith)
  take-append (suc n) [] ys e = absurd (omega arith)
  take-append (suc n) (x ∷ xs) ys e = ap (λ l. x ∷ l) (take-append n xs ys (omega arith))

  pub drop-append : (n : ℕ) (xs ys : List A) → length xs ≡ n → drop n (xs ++ ys) ≡ ys
  drop-append zero [] ys e = refl
  drop-append zero (x ∷ xs) ys e = absurd (omega arith)
  drop-append (suc n) [] ys e = absurd (omega arith)
  drop-append (suc n) (x ∷ xs) ys e = drop-append n xs ys (omega arith)

  pub length-zero : (xs : List A) → length xs ≡ 0 → xs ≡ []
  length-zero [] e = refl
  length-zero (x ∷ xs) e = absurd (omega arith)

module _ {ℓ} {A : Type ℓ} where
  -- `xs[i] = a`, which fails out of range.
  abbrev pub set_elem? : List A → ℕ → A → Option (List A)
  set_elem? [] i a = none
  set_elem? (x ∷ xs) zero a = some (a ∷ xs)
  set_elem? (x ∷ xs) (suc i) a = Option.map (λ l. x ∷ l) (set_elem? xs i a)
