-- ===== src/Encode/Scalar/RoundTrip.antt =====
-- Scalars through the zigzag encoding and through varints.
use Prim.Native.Nat.{bit_and}
use sxt_proof_of_sql.Shared.{
  ℕ, ◌+◌, ◌*◌, ◌/◌, ◌%◌, ◌^◌, ◌≤◌, ◌<◌, true, false, ◌==◌, ltb, List, ◌++◌, length, ◌≡◌, ◌∙◌, refl,
  sym, ap, arith, ◌⊎◌, inl, inr, Bool-cases, ltb→lt,
}
use sxt_proof_of_sql.Encode.Bits.{bit_or-shifted, bit_and-one}
use sxt_proof_of_sql.Encode.U256.{U256, to_nat, IsWords}
use sxt_proof_of_sql.Encode.U256.RoundTrip.{write_u256_varint-read_u256_varint}
use sxt_proof_of_sql.Encode.Sized.RoundTrip.{ReadsBack}
use sxt_proof_of_sql.Encode.Scalar.{
  MontScalar, double, plus_one, half, greater, to_u256, of_u256, zigzag, unzigzag,
  scalar_varint_size, write_scalar_varint, read_scalar_varint,
}
use sxt_proof_of_sql.Encode.Scalar.ZigZag.{
  double_lem, minus_one_lem, plus_one_lem, half_lem, greater_lem,
}

ltb_false→le : (a b : ℕ) → ltb a b ≡ false → b ≤ a
ltb_false→le a b h = ground arith

module _ (t : MontScalar) where
  open t use {Scalar, limbs, of_number, neg, modulus, representative}

  to_u256_lem :
      (x : Scalar)
      → (to_nat (to_u256 t x) ≡ representative x)
        × IsWords (to_u256 t x)
        × ((to_u256 t x).high < 2 ^ 127)
  unfolding to_u256
  to_u256_lem x =
      let (a, b, c, d) = t.limbs_lt x in
      let e = bit_or-shifted 64 (limbs x).0 (limbs x).1 a in
      let f = bit_or-shifted 64 (limbs x).2 (limbs x).3 c in
      (
        omega (arith, e, f, t.limbs_value x),
        (omega (arith, e, a, b), omega (arith, f, c, d)),
        omega (arith, f, t.limbs_value x, t.representative_lt x, t.modulus_le),
      )

  of_u256_lem : (v : U256) → to_nat v < modulus → representative (of_u256 t v) ≡ to_nat v
  unfolding of_u256
  of_u256_lem v h = t.representative_of_number (to_nat v) h

  low_bit : (v : U256) → bit_and v.low 1 ≡ to_nat v % 2
  low_bit v = omega (arith, bit_and-one v.low)

  nearer_neg :
      (x : Scalar)
      → greater (to_u256 t x) (to_u256 t (neg x)) ≡ true
      → representative (neg x) < representative x
  nearer_neg x h =
      let (e, w, u) = to_u256_lem x in
      let (f, v, g) = to_u256_lem (neg x) in
      omega (arith, ltb→lt _ _ (sym (greater_lem (to_u256 t x) (to_u256 t (neg x)) w v) ∙ h), e, f)

  nearer_self :
      (x : Scalar)
      → greater (to_u256 t x) (to_u256 t (neg x)) ≡ false
      → representative x ≤ representative (neg x)
  nearer_self x h =
      let (e, w, u) = to_u256_lem x in
      let (f, v, g) = to_u256_lem (neg x) in
      omega (
        arith,
        ltb_false→le _ _ (sym (greater_lem (to_u256 t x) (to_u256 t (neg x)) w v) ∙ h),
        e,
        f,
      )

  neg_positive :
      (x : Scalar) → representative (neg x) < representative x → 0 < representative (neg x)
  neg_positive x h = ground (arith, t.representative_neg x, t.representative_lt x)

  -- The negation of a scalar with the representative of `-x` is `x`.
  neg_back :
      (x y : Scalar)
      → representative (neg x) < representative x
      → representative y ≡ representative (neg x)
      → representative (neg y) ≡ representative x
  neg_back x y less h = ground (
    arith,
    t.representative_neg x,
    t.representative_neg y,
    t.representative_lt x,
    neg_positive x less,
  )

  to_nat-neg :
      (x : Scalar)
      → representative (neg x) < representative x
      → to_nat (zigzag t x) + 1 ≡ 2 * representative (neg x)
      → to_nat (half (zigzag t x)) ≡ to_nat (zigzag t x) / 2
      → to_nat (plus_one (half (zigzag t x))) ≡ to_nat (half (zigzag t x)) + 1
      → to_nat (plus_one (half (zigzag t x))) ≡ representative (neg x)
  to_nat-neg x less odd e k = omega (arith, neg_positive x less, odd, e, k)

  -- The zigzag code of `x` is twice its representative where that is at most the one of `-x`, and
  -- one less than twice the representative of `-x` where it is not; it has 256 bits.
  pub zigzag_cases :
      (x : Scalar)
      → IsWords (zigzag t x)
        × (((representative x ≤ representative (neg x))
              × (to_nat (zigzag t x) ≡ 2 * representative x))
            ⊎ ((representative (neg x) < representative x)
                × (to_nat (zigzag t x) + 1 ≡ 2 * representative (neg x))))
  unfolding zigzag
  zigzag_cases x =
      let (e, w, h) = to_u256_lem x in
      let (f, v, g) = to_u256_lem (neg x) in
      let (p, q) = double_lem (to_u256 t x) w h in
      let (r, s) = double_lem (to_u256 t (neg x)) v g in
      elim (Bool-cases (greater (to_u256 t x) (to_u256 t (neg x)))) [
        | inl y ↦
            let less = nearer_neg x y in
            let (m, n) =
              minus_one_lem (double (to_u256 t (neg x))) s
                (omega (arith, r, f, neg_positive x less)) in
            rw y (n, inr (less, m ∙ r ∙ ap (λ u. 2 * u) f))
        | inr y ↦ rw y (q, inl (nearer_self x y, p ∙ ap (λ u. 2 * u) e))
      ]

  -- Decoding the zigzag code of a scalar gives back the scalar.
  pub unzigzag-zigzag : (x : Scalar) → unzigzag t (zigzag t x) ≡ x
  unfolding unzigzag
  unzigzag-zigzag x =
      let (w, c) = zigzag_cases x in
      let (e, v, h) = half_lem (zigzag t x) w in
      elim c [
        | inl (le, even) ↦ rw (digit_is (zigzag t x) 0 (omega (arith, even))) (
            t.representative_injective _ x (
              of_u256_lem (half (zigzag t x)) (omega (arith, e, even, t.representative_lt x))
              ∙ omega (arith, e, even)))
        | inr (less, odd) ↦
            let k = plus_one_lem (half (zigzag t x)) v h in
            let n = to_nat-neg x less odd e k in
            rw (digit_is (zigzag t x) 1 (omega (arith, odd, neg_positive x less))) (
              t.representative_injective _ x (
                neg_back x (of_u256 t (plus_one (half (zigzag t x)))) less (
                  of_u256_lem (plus_one (half (zigzag t x)))
                    (omega (arith, n, t.representative_lt (neg x)))
                  ∙ n)))
      ]
    where
      digit_is : (v : U256) (d : ℕ) → to_nat v % 2 ≡ d → (bit_and v.low 1 == 1) ≡ (d == 1)
      digit_is v d h = ap (λ n. n == 1) (low_bit v ∙ h)

  -- A scalar in a buffer with room: `write_scalar_varint` replaces the first `scalar_varint_size`
  -- bytes by bytes from which `read_scalar_varint` reads the scalar back, whatever follows.
  pub read_scalar_varint-ReadsBack :
      (x : Scalar) (old rest : List ℕ)
      → length old ≡ scalar_varint_size t x
      → ReadsBack
          (write_scalar_varint t (old ++ rest) x)
          (read_scalar_varint t)
          (scalar_varint_size t x)
          x
          rest
  unfolding write_scalar_varint read_scalar_varint scalar_varint_size
  read_scalar_varint-ReadsBack x old rest room =
      let (w, c) = zigzag_cases x in
      let (bytes, p, l, short, r) =
        write_u256_varint-read_u256_varint (zigzag t x) old rest w room in
      (bytes, p, l, rw (r, unzigzag-zigzag x) refl)
