-- ===== src/Encode/Varint/RoundTrip.antt =====
-- `encode_var` and `decode_var` against the format.
use sxt_proof_of_sql.Shared.{
  ℕ, ◌^◌, ◌≤◌, ◌<◌, ok, some, List, ◌++◌, length, All, ◌≡◌, ◌↔◌, ◌∙◌, refl, sym, ap, ap₂, arith,
}
use sxt_proof_of_sql.Encode.BitLength.{bit_length-le, leading_zeros}
use sxt_proof_of_sql.Encode.Varint.{encode_var, decode_var, required_space}
use sxt_proof_of_sql.Encode.Varint.Groups.{
  value_of, IsVarint, groups, value_of-groups, groups-IsVarint, length-groups,
}
use sxt_proof_of_sql.Encode.Varint.Write.{encode_var-groups, required_space-Takes}
use sxt_proof_of_sql.Encode.Varint.Read.{decode_loop-IsVarint}
use sxt_proof_of_sql.Encode.Varint.ReadFrom.{decode_loop-ReadFrom}

pub required_space-le : (n : ℕ) → required_space n ≤ 10
unfolding required_space leading_zeros
required_space-le n = omega (arith, bit_length-le 64 n)

-- A varint of the value `v` in `c` bytes stands at the front of `src`.
abbrev pub StartsWith : List ℕ → ℕ → ℕ → Type 0
StartsWith src v c =
    (bytes : List ℕ) × (rest : List ℕ) × (src ≡ bytes ++ rest)
    × IsVarint bytes
    × (value_of bytes ≡ v)
    × (length bytes ≡ c)

pub decode_var-IsVarint :
    (bytes rest : List ℕ)
    → IsVarint bytes
    → length bytes ≤ 10
    → value_of bytes < 2 ^ 64
    → decode_var (bytes ++ rest) ≡ some (value_of bytes, length bytes)
unfolding decode_var
decode_var-IsVarint bytes rest h short fits =
    decode_loop-IsVarint bytes rest 0 0 64 0 h refl refl (omega arith) fits (omega arith)
    ∙ ap₂ (λ v c. some (v, c)) (omega arith) (omega arith)

-- `decode_var` returns a value exactly where a varint of at most ten bytes stands at the front of
-- the bytes and its value fits in 64 bits; it returns that value and the number of bytes.
pub decode_var_iff :
    (src : List ℕ) (v c : ℕ)
    → All (λ b. b < 256) src
    → (decode_var src ≡ some (v, c)) ↔ (StartsWith src v c × (c ≤ 10) × (v < 2 ^ 64))
unfolding decode_var
decode_var_iff src v c hb = (read, write)
  where
    read : decode_var src ≡ some (v, c) → StartsWith src v c × (c ≤ 10) × (v < 2 ^ 64)
    read h =
        let (bytes, rest, e, f, fits, g, k, short) =
          decode_loop-ReadFrom src 0 0 64 0 (v, c) hb refl refl (omega arith) (omega arith) h in
        (
          (bytes, rest, e, f, omega (arith, g), omega (arith, k)),
          omega (arith, k),
          omega (arith, g),
        )

    write : StartsWith src v c × (c ≤ 10) × (v < 2 ^ 64) → decode_var src ≡ some (v, c)
    write ((bytes, rest, e, f, g, k), short, fits) =
        ap decode_var e
        ∙ decode_var-IsVarint bytes rest f (omega arith) (omega arith)
        ∙ ap₂ (λ v c. some (v, c)) g k

-- A `u64` on a slice with room: `encode_var` replaces the first `required_space` bytes and returns
-- their number; `decode_var` reads the number back from them, whatever follows.
pub encode_var-decode_var :
    (n : ℕ) (old rest : List ℕ)
    → n < 2 ^ 64
    → length old ≡ required_space n
    → (bytes : List ℕ) × (encode_var n (old ++ rest) ≡ ok (bytes ++ rest, required_space n))
      × (length bytes ≡ required_space n)
      × (decode_var (bytes ++ rest) ≡ some (n, required_space n))
encode_var-decode_var n old rest h room =
    let (k, takes, size) = required_space-Takes n h in
    let same = value_of-groups k n takes in
    (
      groups k n,
      encode_var-groups n k old rest takes size (room ∙ size)
          ∙ ap (λ c. ok (groups k n ++ rest, c)) (sym size),
      length-groups k n ∙ sym size,
      decode_var-IsVarint (groups k n) rest (groups-IsVarint k n takes)
            (omega (arith, length-groups k n, size, required_space-le n)) (omega (arith, same))
          ∙ ap₂ (λ v c. some (v, c)) same (length-groups k n ∙ sym size),
    )
