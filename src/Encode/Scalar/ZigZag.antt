-- ===== src/Encode/Scalar/ZigZag.antt =====
-- The zigzag encoding of scalars: the nearer of `x` and `-x` to zero, doubled.
use Prim.Native.Nat.{bit_and, bit_or}
use sxt_proof_of_sql.Shared.{ℕ, ◌+◌, ◌*◌, ◌/◌, ◌%◌, ◌^◌, ◌<◌, ltb, ◌≡◌, ◌∙◌, ap, arith}
use sxt_proof_of_sql.Encode.Bits.{bit_or-shifted, bit_and-one, bit_or_last}
use sxt_proof_of_sql.Encode.U256.{U256, to_nat, IsWords}
use sxt_proof_of_sql.Encode.Scalar.{double, minus_one, plus_one, half, greater}

-- The operations on words, on the number that they stand for.
double_high :
    (high low : ℕ)
    → high < 2 ^ 127
    → low < 2 ^ 128
    → bit_or (high * 2 % 2 ^ 128) (low / 2 ^ 127) ≡ high * 2 + low / 2 ^ 127
double_high high low h k =
    ap (λ t. bit_or t (low / 2 ^ 127)) fits ∙ bit_or_last high (low / 2 ^ 127) (omega arith)
  where
    fits : high * 2 % 2 ^ 128 ≡ high * 2
    fits = omega arith

pub double_lem :
    (y : U256)
    → IsWords y
    → y.high < 2 ^ 127
    → (to_nat (double y) ≡ 2 * to_nat y) × IsWords (double y)
unfolding double
double_lem y w h =
    let e = double_high y.high y.low h w.0 in
    (omega (arith, e, w.0), (omega arith, omega (arith, e, w.0, h)))

pub minus_one_lem :
    (y : U256)
    → IsWords y
    → 0 < to_nat y
    → (to_nat (minus_one y) + 1 ≡ to_nat y) × IsWords (minus_one y)
unfolding minus_one
minus_one_lem y w h = (ground (arith, w.0, w.1), (ground (arith, w.0), ground (arith, w.1)))

pub plus_one_lem : (y : U256) → IsWords y → y.high < 2 ^ 127 → to_nat (plus_one y) ≡ to_nat y + 1
unfolding plus_one
plus_one_lem y w h = ground (arith, w.0)

half_low :
    (low high : ℕ)
    → low < 2 ^ 128
    → bit_or (low / 2) (bit_and high 1 * 2 ^ 127 % 2 ^ 128) ≡ low / 2 + high % 2 * 2 ^ 127
half_low low high h =
    ap (bit_or (low / 2)) top ∙ bit_or-shifted 127 (low / 2) (high % 2) (omega arith)
  where
    top : bit_and high 1 * 2 ^ 127 % 2 ^ 128 ≡ high % 2 * 2 ^ 127
    top = omega (arith, bit_and-one high)

pub half_lem :
    (y : U256)
    → IsWords y
    → (to_nat (half y) ≡ to_nat y / 2) × IsWords (half y) × ((half y).high < 2 ^ 127)
unfolding half
half_lem y w =
    let e = half_low y.low y.high w.0 in
    (omega (arith, e), (omega (arith, e, w.0), omega (arith, w.1)), omega (arith, w.1))

pub greater_lem : (x y : U256) → IsWords x → IsWords y → greater x y ≡ ltb (to_nat y) (to_nat x)
unfolding greater
greater_lem x y w v = ground (arith, w.0, v.0)
