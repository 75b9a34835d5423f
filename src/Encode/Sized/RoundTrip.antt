-- ===== src/Encode/Sized/RoundTrip.antt =====
-- Round trips of the types that go through `u64` and `U256`.
use sxt_proof_of_sql.Shared.{
  ℕ, ◌^◌, ◌≤◌, ◌<◌, Result, ok, Option, some, Bool, true, false, ◌||◌, ltb, List, ◌++◌, length, ◌≡◌,
  ◌∙◌, refl, ap, arith,
}
use sxt_proof_of_sql.Shared.Int.{ℤ, ltb_ℤ, ◌≤ℤ◌}
use sxt_proof_of_sql.Encode.Varint.{required_space, encode_var}
use sxt_proof_of_sql.Encode.Varint.RoundTrip.{encode_var-decode_var}
use sxt_proof_of_sql.Encode.ZigZag.{zigzag_encode}
use sxt_proof_of_sql.Encode.ZigZag.RoundTrip.{IsWord, zigzag_decode-zigzag_encode}
use sxt_proof_of_sql.Encode.U256.RoundTrip.{write_u256_varint-read_u256_varint}
use sxt_proof_of_sql.Encode.Sized.{
  decode_var_unsigned, check_unsigned, check_bool, check_signed, check_u128, from_bool,
  required_space_bool, encode_var_bool, decode_var_bool, required_space_i64, encode_var_i64,
  decode_var_i64, decode_var_signed, low_word, required_space_u128, encode_var_u128,
  decode_var_u128, required_space_i128, encode_var_i128, decode_var_i128,
}

-- The outcome of writing replaces `size` bytes at the front by bytes from which the value is read
-- back.
abbrev pub ReadsBack :
    {A : Type 0} → Result ⊥ (List ℕ × ℕ) → (List ℕ → Option (A × ℕ)) → ℕ → A → List ℕ → Type 0
ReadsBack outcome decode size a rest =
    (bytes : List ℕ) × (outcome ≡ ok (bytes ++ rest, size))
    × (length bytes ≡ size)
    × (decode (bytes ++ rest) ≡ some (a, size))

-- A value of an unsigned type, whose maximum is below 2 ^ 64, is read back from the bytes that are
-- written for it on a slice with room.
pub decode_var_unsigned-ReadsBack :
    (max n : ℕ) (old rest : List ℕ)
    → max < 2 ^ 64
    → n ≤ max
    → length old ≡ required_space n
    → ReadsBack (encode_var n (old ++ rest)) (decode_var_unsigned max) (required_space n) n rest
unfolding decode_var_unsigned
decode_var_unsigned-ReadsBack max n old rest h le room =
    let (bytes, w, l, r) = encode_var-decode_var n old rest (omega arith) room in
    (bytes, w, l, ap (check_unsigned max) r ∙ rw (not_above max n le) refl)
  where
    not_above : (m k : ℕ) → k ≤ m → ltb m k ≡ false
    not_above m k p = ground arith

pub decode_var_bool-ReadsBack :
    (b : Bool) (old rest : List ℕ)
    → length old ≡ required_space_bool b
    → ReadsBack (encode_var_bool b (old ++ rest)) decode_var_bool (required_space_bool b) b rest
unfolding decode_var_bool encode_var_bool required_space_bool from_bool
decode_var_bool-ReadsBack true old rest room =
    let (bytes, w, l, r) = encode_var-decode_var 1 old rest (omega arith) room in
    (bytes, w, l, ap check_bool r)
decode_var_bool-ReadsBack false old rest room =
    let (bytes, w, l, r) = encode_var-decode_var 0 old rest (omega arith) room in
    (bytes, w, l, ap check_bool r)

pub decode_var_i64-ReadsBack :
    (n : ℤ) (old rest : List ℕ)
    → IsWord 63 n
    → length old ≡ required_space_i64 n
    → ReadsBack (encode_var_i64 n (old ++ rest)) decode_var_i64 (required_space_i64 n) n rest
unfolding decode_var_i64 encode_var_i64 required_space_i64
decode_var_i64-ReadsBack n old rest h room =
    let (back, fits) = zigzag_decode-zigzag_encode 63 n h in
    let (bytes, w, l, r) = encode_var-decode_var (zigzag_encode 63 n) old rest fits room in
    (bytes, w, l, rw (r, back) refl)

-- A value of 64 bits within the range of a signed type is read back from the bytes that are written
-- for it on a slice with room.
pub decode_var_signed-ReadsBack :
    (min max n : ℤ) (old rest : List ℕ)
    → IsWord 63 n
    → min ≤ℤ n
    → n ≤ℤ max
    → length old ≡ required_space_i64 n
    → ReadsBack
        (encode_var_i64 n (old ++ rest))
        (decode_var_signed min max)
        (required_space_i64 n)
        n
        rest
unfolding decode_var_signed
decode_var_signed-ReadsBack min max n old rest h low high room =
    let (bytes, w, l, r) = decode_var_i64-ReadsBack n old rest h room in
    (bytes, w, l, ap (check_signed min max) r ∙ rw inside refl)
  where
    inside : (ltb_ℤ max n || ltb_ℤ n min) ≡ false
    inside = ground arith

pub decode_var_u128-ReadsBack :
    (n : ℕ) (old rest : List ℕ)
    → n < 2 ^ 128
    → length old ≡ required_space_u128 n
    → ReadsBack (encode_var_u128 n (old ++ rest)) decode_var_u128 (required_space_u128 n) n rest
unfolding decode_var_u128 encode_var_u128 required_space_u128 low_word
decode_var_u128-ReadsBack n old rest h room =
    let (bytes, w, l, short, r) =
      write_u256_varint-read_u256_varint (record { low = n; high = 0 }) old rest (h, omega arith)
        room in
    (bytes, w, l, ap check_u128 r)

-- An `i128` is read back from the bytes that are written for it on a slice with room.
pub decode_var_i128-ReadsBack :
    (n : ℤ) (old rest : List ℕ)
    → IsWord 127 n
    → length old ≡ required_space_i128 n
    → ReadsBack (encode_var_i128 n (old ++ rest)) decode_var_i128 (required_space_i128 n) n rest
unfolding decode_var_i128 encode_var_i128 required_space_i128
decode_var_i128-ReadsBack n old rest h room =
    let (back, fits) = zigzag_decode-zigzag_encode 127 n h in
    let (bytes, w, l, r) = decode_var_u128-ReadsBack (zigzag_encode 127 n) old rest fits room in
    (bytes, w, l, rw (r, back) refl)
