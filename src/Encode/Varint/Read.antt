-- ===== src/Encode/Varint/Read.antt =====
-- `decode_var`: it reads exactly the varints of the format whose value fits in 64 bits.
use Prim.Native.Nat.{zero, suc, bit_and, bit_or}
use native.Mathlib.Nat.{pow-succ', mul-le-mul_right}
use sxt_proof_of_sql.Shared.{
  ℕ, ◌+◌, ◌-◌, ◌*◌, ◌%◌, ◌^◌, ◌≤◌, ◌<◌, some, List, [], ◌∷◌, ◌++◌, length, ◌≡◌, ◌∙◌, ap, ap₂, subst,
  arith,
}
use sxt_proof_of_sql.Encode.Bits.{low_bits, top_bit, bit_or-shifted}
use sxt_proof_of_sql.Encode.Varint.{decode_loop, drop_msb}
use sxt_proof_of_sql.Encode.Varint.Groups.{value_of, IsVarint, pow_seven}

pub shifted_lt : (s w x : ℕ) → x < 2 ^ w → x * 2 ^ s < 2 ^ (s + w)
shifted_lt zero w x h = omega (arith, ap (λ u. 2 ^ u) (zero_add w))
  where
    zero_add : (u : ℕ) → 0 + u ≡ u
    zero_add u = omega arith
shifted_lt (suc s) w x h = omega (
  arith,
  ap (λ t. x * t) (pow-succ' 2 s),
  twice (2 ^ s),
  ap (λ u. 2 ^ u) (next s),
  pow-succ' 2 (s + w),
  shifted_lt s w x h,
)
  where
    twice : (t : ℕ) → x * (2 * t) ≡ 2 * (x * t)
    twice t = omega arith

    next : (u : ℕ) → suc u + w ≡ suc (u + w)
    next u = omega arith

below_word : (x : ℕ) → x < 2 ^ 64 → x % 2 ^ 64 ≡ x
below_word x h = omega arith

-- What one byte adds to the result, where it does not overflow.
pub take_in :
    (b r s : ℕ)
    → b < 256
    → r < 2 ^ s
    → b % 128 * 2 ^ s < 2 ^ 64
    → bit_or r (bit_and b drop_msb * 2 ^ s % 2 ^ 64) ≡ r + b % 128 * 2 ^ s
take_in b r s hb hr fits =
    ap (λ t. bit_or r (t * 2 ^ s % 2 ^ 64)) (low_bits b hb)
    ∙ ap (bit_or r) (below_word (b % 128 * 2 ^ s) fits)
    ∙ bit_or-shifted s r (b % 128) hr

no_overflow : (b s w : ℕ) → s + w ≡ 64 → b % 128 < 2 ^ w → b % 128 * 2 ^ s < 2 ^ 64
no_overflow b s w hw h = subst (λ u. b % 128 * 2 ^ s < 2 ^ u) hw (shifted_lt s w (b % 128) h)

-- The round on the last byte and on one before it.
pub last_round :
    (b : ℕ) (rest : List ℕ) (r s w j : ℕ)
    → b < 128
    → s + w ≡ 64
    → s ≡ 7 * j
    → j ≤ 9
    → b < 2 ^ w
    → r < 2 ^ s
    → decode_loop (b ∷ rest) r s ≡ some (r + b * 2 ^ s, j + 1)
unfolding decode_loop
last_round b rest r s w j hb hw hs hj fits hr = ground (
  arith,
  take_in b r s (omega arith) hr (no_overflow b s w hw (omega arith)),
  top_bit b (omega arith),
  ap (λ t. t * 2 ^ s) small,
  at_end,
)
  where
    small : b % 128 ≡ b
    small = omega arith

    at_end : (63 < s + 7) → b < 2
    at_end p = subst (λ u. b < 2 ^ u) one_bit fits
      where
        one_bit : w ≡ 1
        one_bit = omega arith

pub inner_round :
    (b : ℕ) (rest : List ℕ) (r s w : ℕ)
    → 128 ≤ b
    → b < 256
    → s + w ≡ 64
    → s + 7 ≤ 63
    → b % 128 < 2 ^ w
    → r < 2 ^ s
    → decode_loop (b ∷ rest) r s ≡ decode_loop rest (r + b % 128 * 2 ^ s) (s + 7)
unfolding decode_loop
inner_round b rest r s w low high hw hs fits hr =
    ground (arith, take_in b r s high hr (no_overflow b s w hw fits), top_bit b high)

pub grown : (b r s : ℕ) → r < 2 ^ s → r + b % 128 * 2 ^ s < 2 ^ (s + 7)
grown b r s h =
    omega (arith, mul-le-mul_right {m = b % 128} {n = 127} (2 ^ s) (omega arith), pow_seven s)

pub regroup : (r x y p : ℕ) → r + x * p + y * (128 * p) ≡ r + (x + 128 * y) * p
regroup r x y p = omega arith

pub value-regroup : (r x y s : ℕ) → r + x * 2 ^ s + y * 2 ^ (s + 7) ≡ r + (x + 128 * y) * 2 ^ s
value-regroup r x y s = ap (λ p. r + x * 2 ^ s + y * p) (pow_seven s) ∙ regroup r x y (2 ^ s)

pub more_fits : (x y w : ℕ) → x < 128 → 7 ≤ w → y < 2 ^ (w - 7) → x + 128 * y < 2 ^ w
more_fits x y w hx h lt = subst (λ u. x + 128 * y < 2 ^ u) wide (omega (arith, pow_seven (w - 7)))
  where
    wide : w - 7 + 7 ≡ w
    wide = omega arith

last_group : (x y w : ℕ) → 7 ≤ w → x + 128 * y < 2 ^ w → y < 2 ^ (w - 7)
last_group x y w h lt = omega (arith, pow_seven (w - 7), subst (λ u. x + 128 * y < 2 ^ u) wide lt)
  where
    wide : w ≡ w - 7 + 7
    wide = omega arith

-- A varint of at most ten bytes whose value fits is read, whatever comes after it.
pub decode_loop-IsVarint :
    (bytes rest : List ℕ) (r s w j : ℕ)
    → IsVarint bytes
    → s + w ≡ 64
    → s ≡ 7 * j
    → j + length bytes ≤ 10
    → value_of bytes < 2 ^ w
    → r < 2 ^ s
    → decode_loop (bytes ++ rest) r s ≡ some (r + value_of bytes * 2 ^ s, j + length bytes)
decode_loop-IsVarint [] rest r s w j v hw hs short fits hr = absurd v
decode_loop-IsVarint (b ∷ []) rest r s w j v hw hs short fits hr =
    last_round b rest r s w j v hw hs (omega arith) (omega arith) hr
    ∙ ap (λ t. some (r + t * 2 ^ s, j + 1)) same
  where
    same : b ≡ b % 128 + 0
    same = omega arith
decode_loop-IsVarint (b ∷ c ∷ bytes) rest r s w j (low, high, v) hw hs short fits hr =
    inner_round b (c ∷ (bytes ++ rest)) r s w low high hw (omega arith) low_fits hr
    ∙ decode_loop-IsVarint (c ∷ bytes) rest (r + b % 128 * 2 ^ s) (s + 7) (w - 7) (j + 1) v
        (omega arith) (omega arith) (omega arith)
        (last_group (b % 128) (value_of (c ∷ bytes)) w (omega arith) fits) (grown b r s hr)
    ∙ ap₂ (λ t n. some (t, n)) (value-regroup r (b % 128) (value_of (c ∷ bytes)) s) (omega arith)
  where
    low_fits : b % 128 < 2 ^ w
    low_fits = omega arith
