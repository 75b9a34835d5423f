-- ===== src/Encode/U256/RoundTrip.antt =====
-- The varint of a `U256`, written and read.
use sxt_proof_of_sql.Shared.{
  ℕ, ◌+◌, ◌*◌, ◌/◌, ◌%◌, ◌^◌, ◌≤◌, ◌<◌, ok, some, List, ◌++◌, length, ◌≡◌, ◌∙◌, refl, sym, ap, ap₂,
  arith,
}
use sxt_proof_of_sql.Encode.BitLength.{bit_length-le, leading_zeros}
use sxt_proof_of_sql.Encode.Varint.Groups.{
  value_of, IsVarint, groups, value_of-groups, groups-IsVarint, length-groups,
}
use sxt_proof_of_sql.Encode.U256.{
  U256, write_u256_varint, read_u256_varint, u256_varint_size, to_nat, of_nat, IsWords,
}
use sxt_proof_of_sql.Encode.U256.Write.{write_u256_varint-groups, u256_varint_size-Takes}
use sxt_proof_of_sql.Encode.U256.Read.{read_loop-IsVarint}

pub u256_varint_size-le : (x : U256) → IsWords x → u256_varint_size x ≤ 37
unfolding u256_varint_size leading_zeros
u256_varint_size-le x w = ground (arith, bit_length-le 128 x.low, bit_length-le 128 x.high)

of_nat-to_nat : (x : U256) → IsWords x → of_nat (to_nat x % 2 ^ 256) ≡ x
of_nat-to_nat x w =
    (λ i. record { low = low_part x.low x.high w.0 w.1 i; high = high_part x.low x.high w.0 w.1 i })
  where
    low_part : (l h : ℕ) → l < 2 ^ 128 → h < 2 ^ 128 → (l + h * 2 ^ 128) % 2 ^ 256 % 2 ^ 128 ≡ l
    low_part l h p q = omega arith

    high_part : (l h : ℕ) → l < 2 ^ 128 → h < 2 ^ 128 → (l + h * 2 ^ 128) % 2 ^ 256 / 2 ^ 128 ≡ h
    high_part l h p q = omega arith

-- A varint of at most 37 bytes at the front of a buffer is read, and 256 bits of its value are kept:
-- higher digits are ignored.
pub read_u256_varint-IsVarint :
    (bytes rest : List ℕ)
    → IsVarint bytes
    → length bytes ≤ 37
    → read_u256_varint (bytes ++ rest) ≡ some (of_nat (value_of bytes % 2 ^ 256), length bytes)
unfolding read_u256_varint
read_u256_varint-IsVarint bytes rest h short =
    read_loop-IsVarint bytes rest 0 0 0 h refl (omega arith) (omega arith)
    ∙ ap₂ (λ v c. some (of_nat (v % 2 ^ 256), c)) (omega arith) (omega arith)

-- A `U256` in a buffer with room: `write_u256_varint` replaces the first `u256_varint_size` bytes
-- and returns their number, which is at most 37; `read_u256_varint` reads the words back from them,
-- whatever follows.
pub write_u256_varint-read_u256_varint :
    (x : U256) (old rest : List ℕ)
    → IsWords x
    → length old ≡ u256_varint_size x
    → (bytes : List ℕ) × (write_u256_varint (old ++ rest) x
        ≡ ok (bytes ++ rest, u256_varint_size x))
      × (length bytes ≡ u256_varint_size x)
      × (u256_varint_size x ≤ 37)
      × (read_u256_varint (bytes ++ rest) ≡ some (x, u256_varint_size x))
write_u256_varint-read_u256_varint x old rest w room =
    let (k, takes, size) = u256_varint_size-Takes x w in
    let same = value_of-groups k (to_nat x) takes in
    let bytes = groups k (to_nat x) in
    let counted = length-groups k (to_nat x) ∙ sym size in
    (
      bytes,
      write_u256_varint-groups k x old rest w takes (room ∙ size)
          ∙ ap (λ c. ok (groups k (to_nat x) ++ rest, c)) (sym size),
      counted,
      u256_varint_size-le x w,
      read_u256_varint-IsVarint bytes rest (groups-IsVarint k (to_nat x) takes)
            (omega (arith, counted, u256_varint_size-le x w))
          ∙ ap₂ (λ v c. some (v, c)) (ap (λ v. of_nat (v % 2 ^ 256)) same ∙ of_nat-to_nat x w)
              counted,
    )
