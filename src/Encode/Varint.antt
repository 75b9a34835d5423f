-- ===== src/Encode/Varint.antt =====
-- crates/proof-of-sql/src/base/encode/varint_trait.rs, the integers up to 64 bits. A byte is a
-- number below 256; a slice is a list, and what is written to it is returned with the count.
pub mod Groups
pub mod Write
pub mod Read
pub mod ReadFrom
pub mod RoundTrip
use Prim.Native.Nat.{max, bit_and, bit_or}
use sxt_proof_of_sql.Shared.{
  ℕ, ◌+◌, ◌-◌, ◌*◌, ◌/◌, ◌%◌, ◌^◌, Result, ok, err, panic, ◌>>=◌, Option, none, some, Bool, true,
  false, ◌==◌, ltb, leb, List, [], ◌∷◌, length, if◌then◌else◌,
}
use sxt_proof_of_sql.Encode.BitLength.{leading_zeros}

abbrev pub msb : ℕ
msb = 0x80

abbrev pub drop_msb : ℕ
drop_msb = 0x7f

unfoldable pub required_space : ℕ → ℕ
required_space n = let bits = 64 - leading_zeros 64 n in max 1 ((bits + 6) / 7)

-- One round of the loop in `encode_var`, from the index `i` on; an index past the end panics.
unfoldable pub encode_loop : ℕ → List ℕ → Result ⊥ (List ℕ × ℕ)
encode_loop n [] = panic
encode_loop n (b ∷ dst) =
    let rest = encode_loop (n / 2 ^ 7) dst in
    if leb 0x80 n
    then (do (written, i) ← rest; ok (bit_or msb (n % 256) ∷ written, i + 1))
    else ok (n % 256 ∷ dst, 1)

-- The assertion comes first.
unfoldable pub encode_var : ℕ → List ℕ → Result ⊥ (List ℕ × ℕ)
unfolding encode_loop
encode_var n dst = if leb (required_space n) (length dst) then encode_loop n dst else panic

-- The loop in `decode_var`; it ends at the `break`s, with or without success.
unfoldable pub decode_loop : List ℕ → ℕ → ℕ → Option (ℕ × ℕ)
decode_loop [] result shift = none
decode_loop (b ∷ src) result shift =
    let result' = bit_or result (bit_and b drop_msb * 2 ^ shift % 2 ^ 64) in
    let shift' = shift + 7 in
    let rest = decode_loop src result' shift' in
    if ltb (9 * 7) shift'
    then (if ltb b 2 then some (result', shift' / 7) else none)
    else if bit_and b msb == 0
    then some (result', shift' / 7)
    else rest

unfoldable pub decode_var : List ℕ → Option (ℕ × ℕ)
unfolding decode_loop
decode_var src = decode_loop src 0 0
