-- ===== src/Encode/ZigZag.antt =====
-- crates/proof-of-sql/src/base/encode/varint_trait.rs, the zigzag encoding of signed integers. The
-- words have `v + 1` bits: `v` is 63 for `zigzag_encode` and 127 for `zigzag_encode_i128`.
pub mod RoundTrip
use Prim.Native.Nat.{zero, suc, bit_and, bit_xor}
use sxt_proof_of_sql.Shared.{ℕ, ◌+◌, ◌-◌, ◌*◌, ◌/◌, ◌%◌, ◌^◌, Bool, true, false, ltb, if◌then◌else◌}
use sxt_proof_of_sql.Shared.Int.{ℤ, pos, negsuc}

-- The casts between a signed word and an unsigned one, in two's complement.
unfoldable pub as_unsigned : ℕ → ℤ → ℕ
as_unsigned v (pos n) = n % 2 ^ suc v
as_unsigned v (negsuc n) = 2 ^ suc v - 1 - n % 2 ^ suc v

unfoldable pub as_signed : ℕ → ℕ → ℤ
as_signed v n = if ltb n (2 ^ v) then pos n else negsuc (2 ^ suc v - 1 - n)

-- `from >> v`, an arithmetic shift: every bit is the sign.
unfoldable pub sign_bits : ℤ → ℤ
sign_bits (pos n) = pos 0
sign_bits (negsuc n) = negsuc 0

unfoldable pub negate : ℕ → ℤ
negate zero = pos 0
negate (suc n) = negsuc n

unfoldable pub zigzag_encode : ℕ → ℤ → ℕ
zigzag_encode v from = bit_xor (as_unsigned v from * 2 % 2 ^ suc v) (as_unsigned v (sign_bits from))

unfoldable pub zigzag_decode : ℕ → ℕ → ℤ
zigzag_decode v from = as_signed v (bit_xor (from / 2) (as_unsigned v (negate (bit_and from 1))))
