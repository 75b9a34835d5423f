-- ===== src/Encode/Bits.antt =====
-- Masks and shifts as arithmetic. A byte's mask is a table of 256 entries, checked by evaluation; a
-- sum of parts that share no digit is proved digit by digit.
use Prim.Native.Nat.{
  zero, suc, max, min, digits, bitwise, differ, bit_and, bit_or, bit_xor, bit_or-bitwise,
  bit_and-bitwise, bit_xor-bitwise,
}
use native.Mathlib.Nat.{pow-succ', one-le-pow}
use sxt_proof_of_sql.Shared.{
  ℕ, ◌+◌, ◌-◌, ◌*◌, ◌/◌, ◌%◌, ◌^◌, ◌≤◌, ◌<◌, Bool, true, ◌&&◌, ◌==◌, ==_iff, ◌≡◌, ◌∙◌, refl, ap,
  ap₂, arith,
}

for_bytes : ℕ → (ℕ → Bool) → Bool
for_bytes zero test = true
for_bytes (suc n) test = test n && for_bytes n test

for_bytes_lem : (n : ℕ) (test : ℕ → Bool) (b : ℕ) → for_bytes n test ≡ true → b < n → test b ≡ true
unfolding for_bytes
for_bytes_lem zero test b h lt = absurd (omega arith)
for_bytes_lem (suc n) test b h lt = ground (arith, for_bytes_lem n test b)

low_bits_table : for_bytes 256 (λ b. bit_and b 0x7f == b % 128) ≡ true
unfolding for_bytes
low_bits_table = refl

pub low_bits : (b : ℕ) → b < 256 → bit_and b 0x7f ≡ b % 128
low_bits b h = (==_iff _ _).0 (for_bytes_lem 256 _ b low_bits_table h)

top_bit_table : for_bytes 256 (λ b. bit_and b 0x80 == b / 128 * 128) ≡ true
unfolding for_bytes
top_bit_table = refl

pub top_bit : (b : ℕ) → b < 256 → bit_and b 0x80 ≡ b / 128 * 128
top_bit b h = (==_iff _ _).0 (for_bytes_lem 256 _ b top_bit_table h)

set_top_table : for_bytes 256 (λ b. bit_or 0x80 b == 128 + b % 128) ≡ true
unfolding for_bytes
set_top_table = refl

pub set_top : (b : ℕ) → b < 256 → bit_or 0x80 b ≡ 128 + b % 128
set_top b h = (==_iff _ _).0 (for_bytes_lem 256 _ b set_top_table h)

set_top_right_table : for_bytes 256 (λ b. bit_or b 0x80 == 128 + b % 128) ≡ true
unfolding for_bytes
set_top_right_table = refl

pub set_top_right : (b : ℕ) → b < 256 → bit_or b 0x80 ≡ 128 + b % 128
set_top_right b h = (==_iff _ _).0 (for_bytes_lem 256 _ b set_top_right_table h)

low_two_table : for_bytes 256 (λ b. bit_and b 0x03 == b % 4) ≡ true
unfolding for_bytes
low_two_table = refl

pub low_two : (b : ℕ) → b < 256 → bit_and b 0x03 ≡ b % 4
low_two b h = (==_iff _ _).0 (for_bytes_lem 256 _ b low_two_table h)

middle_five_table : for_bytes 256 (λ b. bit_and b 0x7c / 4 == b % 128 / 4) ≡ true
unfolding for_bytes
middle_five_table = refl

pub middle_five : (b : ℕ) → b < 256 → bit_and b 0x7c / 4 ≡ b % 128 / 4
middle_five b h = (==_iff _ _).0 (for_bytes_lem 256 _ b middle_five_table h)

-- The native operations by the lowest digit.
module _ (z : ℕ → ℕ) (f : ℕ → ℕ → ℕ) where
  enough_digits : (n m x y : ℕ) → x ≤ n → x ≤ m → digits z f n x y ≡ digits z f m x y
  enough_digits zero zero x y p q = refl
  enough_digits zero (suc m) zero y p q = refl
  enough_digits (suc n) zero zero y p q = refl
  enough_digits (suc n) (suc m) zero y p q = refl
  enough_digits (suc n) (suc m) (suc x) y p q =
      omega (arith, enough_digits n m (suc x / 2) (y / 2) (omega arith) (omega arith))
  enough_digits _ _ _ _ p q = absurd (omega arith)

  pub lowest_digit :
      ((y : ℕ) → z y ≡ z (y / 2) * 2 + f 0 (y % 2))
      → (x y : ℕ) → bitwise z f x y ≡ bitwise z f (x / 2) (y / 2) * 2 + f (x % 2) (y % 2)
  lowest_digit h zero y = h y
  lowest_digit h (suc x) y =
      omega (arith, enough_digits x (suc x / 2) (suc x / 2) (y / 2) (omega arith) (omega arith))

pub bit_or-zero_left : (y : ℕ) → bit_or 0 y ≡ y
bit_or-zero_left y = bit_or-bitwise 0 y

or_lowest : (x y : ℕ) → bit_or x y ≡ bit_or (x / 2) (y / 2) * 2 + max (x % 2) (y % 2)
or_lowest x y = omega (
  arith,
  bit_or-bitwise x y,
  bit_or-bitwise (x / 2) (y / 2),
  lowest_digit (λ d. d) max (λ y. omega arith) x y,
)

and_lowest : (x y : ℕ) → bit_and x y ≡ bit_and (x / 2) (y / 2) * 2 + min (x % 2) (y % 2)
and_lowest x y = omega (
  arith,
  bit_and-bitwise x y,
  bit_and-bitwise (x / 2) (y / 2),
  lowest_digit (λ d. 0) min (λ y. omega arith) x y,
)

and_zero : (bound x : ℕ) → x ≤ bound → bit_and x 0 ≡ 0
and_zero bound zero h = refl
and_zero zero (suc x) h = absurd (omega arith)
and_zero (suc bound) (suc x) h =
    omega (arith, and_lowest (suc x) 0, and_zero bound (suc x / 2) (omega arith))

pub bit_and-one : (x : ℕ) → bit_and x 1 ≡ x % 2
bit_and-one x = omega (arith, and_lowest x 1, and_zero (x / 2) (x / 2) (omega arith))

-- The mask of the seven low bits, at any number.
pub bit_and_seven_ones : (x : ℕ) → bit_and x 0x7f ≡ x % 128
bit_and_seven_ones x = omega (
  arith,
  and_lowest x 127,
  and_lowest (x / 2) 63,
  and_lowest (x / 2 / 2) 31,
  and_lowest (x / 2 / 2 / 2) 15,
  and_lowest (x / 2 / 2 / 2 / 2) 7,
  and_lowest (x / 2 / 2 / 2 / 2 / 2) 3,
  bit_and-one (x / 2 / 2 / 2 / 2 / 2 / 2),
)

xor_lowest : (x y : ℕ) → bit_xor x y ≡ bit_xor (x / 2) (y / 2) * 2 + differ (x % 2) (y % 2)
xor_lowest x y = omega (
  arith,
  bit_xor-bitwise x y,
  bit_xor-bitwise (x / 2) (y / 2),
  lowest_digit (λ d. d) differ (λ y. omega arith) x y,
)

pub bit_xor-zero : (bound x : ℕ) → x ≤ bound → bit_xor x 0 ≡ x
bit_xor-zero bound zero h = refl
bit_xor-zero zero (suc x) h = absurd (omega arith)
bit_xor-zero (suc bound) (suc x) h = omega (
  arith,
  xor_lowest (suc x) 0,
  same_digit (suc x % 2),
  bit_xor-zero bound (suc x / 2) (omega arith),
)
  where
    same_digit : (d : ℕ) → differ d 0 ≡ d
    same_digit zero = refl
    same_digit (suc d) = refl

flip_digit : (d : ℕ) → d < 2 → differ d 1 + d ≡ 1
flip_digit zero h = refl
flip_digit (suc zero) h = refl
flip_digit (suc (suc d)) h = absurd (omega arith)

-- Exclusive or with a word of ones is the complement.
pub bit_xor_ones : (k x : ℕ) → x < 2 ^ k → bit_xor x (2 ^ k - 1) + x ≡ 2 ^ k - 1
bit_xor_ones zero x h = omega (arith, bit_xor-zero x x (omega arith))
bit_xor_ones (suc k) x h = omega (
  arith,
  pow-succ' 2 k,
  one-le-pow k 2 (omega arith),
  xor_lowest x (2 ^ suc k - 1),
  ap (bit_xor (x / 2)) half,
  ap (differ (x % 2)) odd,
  flip_digit (x % 2) (omega arith),
  bit_xor_ones k (x / 2) (omega (arith, pow-succ' 2 k)),
)
  where
    half : (2 ^ suc k - 1) / 2 ≡ 2 ^ k - 1
    half = omega (arith, pow-succ' 2 k, one-le-pow k 2 (omega arith))

    odd : (2 ^ suc k - 1) % 2 ≡ 1
    odd = omega (arith, pow-succ' 2 k, one-le-pow k 2 (omega arith))

-- Parts that share no digit add up.
pub bit_or-shifted : (k low high : ℕ) → low < 2 ^ k → bit_or low (high * 2 ^ k) ≡ low + high * 2 ^ k
bit_or-shifted zero low high h =
    omega (arith, ap (λ x. bit_or x (high * 1)) (zero_of low h), bit_or-zero_left (high * 1))
  where
    zero_of : (x : ℕ) → x < 1 → x ≡ 0
    zero_of x p = omega arith
bit_or-shifted (suc k) low high h = omega (
  arith,
  or_lowest low (high * 2 ^ suc k),
  even,
  double,
  ap (λ x. bit_or (low / 2) x) half,
  bit_or-shifted k (low / 2) high (omega (arith, pow-succ' 2 k)),
)
  where
    double : high * 2 ^ suc k ≡ 2 * (high * 2 ^ k)
    double = ap (λ t. high * t) (pow-succ' 2 k) ∙ swap high (2 ^ k)
      where
        swap : (a b : ℕ) → a * (2 * b) ≡ 2 * (a * b)
        swap a b = omega arith

    half : high * 2 ^ suc k / 2 ≡ high * 2 ^ k
    half = omega (arith, double)

    even : high * 2 ^ suc k % 2 ≡ 0
    even = omega (arith, double)

or_zero : (bound x : ℕ) → x ≤ bound → bit_or x 0 ≡ x
or_zero bound zero h = bit_or-zero_left 0
or_zero zero (suc x) h = absurd (omega arith)
or_zero (suc bound) (suc x) h =
    omega (arith, or_lowest (suc x) 0, or_zero bound (suc x / 2) (omega arith))

-- A last digit put behind a number.
pub bit_or_last : (x d : ℕ) → d < 2 → bit_or (x * 2) d ≡ x * 2 + d
bit_or_last x d h =
    omega (arith, or_lowest (x * 2) d, ap₂ bit_or (half x) (none d h), or_zero x x (omega arith))
  where
    half : (y : ℕ) → y * 2 / 2 ≡ y
    half y = omega arith

    none : (e : ℕ) → e < 2 → e / 2 ≡ 0
    none e p = omega arith
