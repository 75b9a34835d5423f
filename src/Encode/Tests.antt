-- ===== src/Encode/Tests.antt =====
-- Runs of the encodings, and the theorems about them at small values.
use Prim.Native.Nat.{zero, suc}
use sxt_proof_of_sql.Shared.{
  ℕ, ◌+◌, ◌-◌, ◌*◌, ◌^◌, ◌≤◌, ◌<◌, ok, some, ◌==◌, List, [], ◌∷◌, ◌++◌, length, ◌≡◌, ◌↔◌, ◌⊎◌, refl,
  arith, if◌then◌else◌,
}
use sxt_proof_of_sql.Shared.Int.{pos, negsuc}
use sxt_proof_of_sql.Encode.BitLength.{leading_zeros, bit_length}
use sxt_proof_of_sql.Encode.Varint.{required_space, encode_var, decode_var}
use sxt_proof_of_sql.Encode.Varint.RoundTrip.{encode_var-decode_var, decode_var_iff, StartsWith}
use sxt_proof_of_sql.Encode.ZigZag.{zigzag_encode, as_unsigned, sign_bits}
use sxt_proof_of_sql.Encode.U256.{
  U256, write_u256_varint, read_u256_varint, u256_varint_size, to_nat, IsWords,
}
use sxt_proof_of_sql.Encode.U256.RoundTrip.{write_u256_varint-read_u256_varint}
use sxt_proof_of_sql.Encode.Sized.{
  decode_var_signed, required_space_i64, encode_var_i64, required_space_i128, encode_var_i128,
  decode_var_i128, required_space_u128, low_word,
}
use sxt_proof_of_sql.Encode.Sized.RoundTrip.{
  ReadsBack, decode_var_signed-ReadsBack, decode_var_i128-ReadsBack,
}
use sxt_proof_of_sql.Encode.Scalar.{
  MontScalar, zigzag, unzigzag, scalar_varint_size, write_scalar_varint, read_scalar_varint,
  to_u256, double, minus_one, greater,
}
use sxt_proof_of_sql.Encode.Scalar.RoundTrip.{
  zigzag_cases, unzigzag-zigzag, read_scalar_varint-ReadsBack,
}

abbrev two_bytes : List ℕ
two_bytes = 0 ∷ 0 ∷ []

abbrev tail : List ℕ
tail = 200 ∷ []

encode_var-decode_var_example :
    (bytes : List ℕ) × (encode_var 300 (two_bytes ++ tail) ≡ ok (bytes ++ tail, required_space 300))
    × (length bytes ≡ required_space 300)
    × (decode_var (bytes ++ tail) ≡ some (300, required_space 300))
unfolding required_space leading_zeros bit_length
encode_var-decode_var_example = encode_var-decode_var 300 two_bytes tail (omega arith) refl

decode_var_iff_example :
    (decode_var (172 ∷ 2 ∷ 200 ∷ []) ≡ some (300, 2))
    ↔ (StartsWith (172 ∷ 2 ∷ 200 ∷ []) 300 2 × (2 ≤ 10) × (300 < 2 ^ 64))
decode_var_iff_example =
    decode_var_iff (172 ∷ 2 ∷ 200 ∷ []) 300 2 (omega arith, (omega arith, (omega arith, tt)))

abbrev wide : U256
wide = record { low = 5; high = 3 }

abbrev nineteen_bytes : List ℕ
nineteen_bytes = 0 ∷ 0 ∷ 0 ∷ 0 ∷ 0 ∷ 0 ∷ 0 ∷ 0 ∷ 0 ∷ 0 ∷ 0 ∷ 0 ∷ 0 ∷ 0 ∷ 0 ∷ 0 ∷ 0 ∷ 0 ∷ 0 ∷ []

write_u256_varint-read_u256_varint_example :
    (bytes : List ℕ) × (write_u256_varint (nineteen_bytes ++ tail) wide
      ≡ ok (bytes ++ tail, u256_varint_size wide))
    × (length bytes ≡ u256_varint_size wide)
    × (u256_varint_size wide ≤ 37)
    × (read_u256_varint (bytes ++ tail) ≡ some (wide, u256_varint_size wide))
unfolding u256_varint_size leading_zeros bit_length
write_u256_varint-read_u256_varint_example =
    write_u256_varint-read_u256_varint wide nineteen_bytes tail (omega arith, omega arith) refl

abbrev three_hundred : List ℕ
three_hundred = 172 ∷ 2 ∷ []

decode_var_signed-ReadsBack_example :
    ReadsBack
      (encode_var_i64 (negsuc 99) (two_bytes ++ tail))
      (decode_var_signed (negsuc 127) (pos 127))
      (required_space_i64 (negsuc 99))
      (negsuc 99)
      tail
unfolding required_space_i64 required_space leading_zeros bit_length zigzag_encode as_unsigned
    sign_bits
decode_var_signed-ReadsBack_example =
    decode_var_signed-ReadsBack (negsuc 127) (pos 127) (negsuc 99) two_bytes tail (omega arith)
      (omega arith) (omega arith) refl

decode_var_i128-ReadsBack_example :
    ReadsBack
      (encode_var_i128 (negsuc 99) (two_bytes ++ tail))
      decode_var_i128
      (required_space_i128 (negsuc 99))
      (negsuc 99)
      tail
unfolding required_space_i128 required_space_u128 low_word u256_varint_size leading_zeros bit_length
    zigzag_encode as_unsigned sign_bits
decode_var_i128-ReadsBack_example =
    decode_var_i128-ReadsBack (negsuc 99) two_bytes tail (omega arith) refl

-- The field of three elements.
data Three : Type 0 where
  nought unit minus : Three

abbrev three_value : Three → ℕ
three_value nought = 0
three_value unit = 1
three_value minus = 2

abbrev three_of : ℕ → Three
three_of zero = nought
three_of (suc zero) = unit
three_of (suc (suc n)) = minus

abbrev three_neg : Three → Three
three_neg nought = nought
three_neg unit = minus
three_neg minus = unit

three_value_injective : (x y : Three) → three_value x ≡ three_value y → x ≡ y
three_value_injective nought nought h = refl
three_value_injective unit unit h = refl
three_value_injective minus minus h = refl
three_value_injective _ _ h = absurd (omega (arith, h))

three_value_of : (n : ℕ) → n < 3 → three_value (three_of n) ≡ n
three_value_of zero h = refl
three_value_of (suc zero) h = refl
three_value_of (suc (suc zero)) h = refl
three_value_of (suc (suc (suc n))) h = absurd (omega arith)

three_value_lt : (x : Three) → three_value x < 3
three_value_lt nought = omega arith
three_value_lt unit = omega arith
three_value_lt minus = omega arith

three_value_neg :
    (x : Three) → three_value (three_neg x) ≡ (if three_value x == 0 then 0 else 3 - three_value x)
three_value_neg nought = refl
three_value_neg unit = refl
three_value_neg minus = refl

abbrev three : MontScalar
three = record {
  Scalar = Three;
  modulus = 3;
  representative = three_value;
  limbs = λ x. (three_value x, 0, 0, 0);
  of_number = three_of;
  neg = three_neg;
  modulus_le = omega arith;
  representative_lt = three_value_lt;
  representative_injective = three_value_injective;
  limbs_lt = λ x. (omega (arith, three_value_lt x), omega arith, omega arith, omega arith);
  limbs_value = λ x. omega arith;
  representative_of_number = three_value_of;
  representative_neg = three_value_neg;
}

unzigzag-zigzag_example : unzigzag three (zigzag three minus) ≡ minus
unzigzag-zigzag_example = unzigzag-zigzag three minus

read_scalar_varint-ReadsBack_example :
    ReadsBack
      (write_scalar_varint three ((0 ∷ []) ++ tail) minus)
      (read_scalar_varint three)
      (scalar_varint_size three minus)
      minus
      tail
unfolding scalar_varint_size u256_varint_size leading_zeros bit_length zigzag to_u256 double
    minus_one greater
read_scalar_varint-ReadsBack_example = read_scalar_varint-ReadsBack three minus (0 ∷ []) tail refl

zigzag_cases_example :
    IsWords (zigzag three minus)
    × (((three_value minus ≤ three_value (three_neg minus))
          × (to_nat (zigzag three minus) ≡ 2 * three_value minus))
        ⊎ ((three_value (three_neg minus) < three_value minus)
            × (to_nat (zigzag three minus) + 1 ≡ 2 * three_value (three_neg minus))))
zigzag_cases_example = zigzag_cases three minus
