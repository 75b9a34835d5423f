-- ===== src/Scalar/Five.antt =====
-- The integers modulo five, a field that the laws of `Scalar` hold for.
use sxt_proof_of_sql.Shared.{
  Option, none, some, Bool, true, false, ◌&&◌, ◌≡◌, ◌≢◌, ◌↔◌, refl, arith,
}
use sxt_proof_of_sql.Scalar.{Scalar}

pub data Five : Type 0 where
  m0 m1 m2 m3 m4 : Five

abbrev pub next : Five → Five
next m0 = m1
next m1 = m2
next m2 = m3
next m3 = m4
next m4 = m0

abbrev pub plus : Five → Five → Five
plus m0 b = b
plus m1 b = next b
plus m2 b = next (next b)
plus m3 b = next (next (next b))
plus m4 b = next (next (next (next b)))

abbrev pub times : Five → Five → Five
times m0 b = m0
times m1 b = b
times m2 b = plus b b
times m3 b = plus b (plus b b)
times m4 b = plus b (plus b (plus b b))

abbrev pub inverse : Five → Option Five
inverse m0 = none
inverse m1 = some m1
inverse m2 = some m3
inverse m3 = some m2
inverse m4 = some m4

abbrev pub equal : Five → Five → Bool
equal m0 m0 = true
equal m1 m1 = true
equal m2 m2 = true
equal m3 m3 = true
equal m4 m4 = true
equal _ _ = false

pub equal_iff : (a b : Five) → (equal a b ≡ true) ↔ (a ≡ b)
equal_iff a b = ground arith

abbrev pub every : (Five → Bool) → Bool
every f = f m0 && f m1 && f m2 && f m3 && f m4

every-all : (f : Five → Bool) → every f ≡ true → (a : Five) → f a ≡ true
every-all f h m0 = ground arith
every-all f h m1 = ground arith
every-all f h m2 = ground arith
every-all f h m3 = ground arith
every-all f h m4 = ground arith

-- An equation in three variables, tried at all of them.
pub by_trial :
    (f g : Five → Five → Five → Five)
    → every (λ a. every λ b. every λ c. equal (f a b c) (g a b c)) ≡ true
    → (a b c : Five) → f a b c ≡ g a b c
by_trial f g h a b c = (equal_iff (f a b c) (g a b c)).0 (
    every-all (λ c. equal (f a b c) (g a b c))
      (every-all (λ b. every λ c. equal (f a b c) (g a b c))
        (every-all (λ a. every λ b. every λ c. equal (f a b c) (g a b c)) h a) b)
      c)

pub inverse-times : (a : Five) → a ≢ m0 → (b : Five) × (inverse a ≡ some b) × (times a b ≡ m1)
inverse-times m0 h = absurd (h refl)
inverse-times m1 h = (m1, refl, refl)
inverse-times m2 h = (m3, refl, refl)
inverse-times m3 h = (m2, refl, refl)
inverse-times m4 h = (m4, refl, refl)

instance abbrev pub five : Scalar Five
five = record {
  zero = m0;
  one = m1;
  add = plus;
  mul = times;
  sub = λ a b. plus a (times m4 b);
  inv = inverse;
  is_equal = equal;
  is_equal_iff = equal_iff;
  add_assoc = by_trial (λ a b c. plus (plus a b) c) (λ a b c. plus a (plus b c)) refl;
  add_comm = λ a b. by_trial (λ a b _. plus a b) (λ a b _. plus b a) refl a b m0;
  add-zero = λ a. by_trial (λ a _ _. plus a m0) (λ a _ _. a) refl a m0 m0;
  sub-add = λ a b. by_trial (λ a b _. plus (plus a (times m4 b)) b) (λ a b _. a) refl a b m0;
  mul_assoc = by_trial (λ a b c. times (times a b) c) (λ a b c. times a (times b c)) refl;
  mul_comm = λ a b. by_trial (λ a b _. times a b) (λ a b _. times b a) refl a b m0;
  mul-one = λ a. by_trial (λ a _ _. times a m1) (λ a _ _. a) refl a m0 m0;
  mul-add = by_trial (λ a b c. times a (plus b c)) (λ a b c. plus (times a b) (times a c)) refl;
  inv-zero = refl;
  inv_some = inverse-times;
}
