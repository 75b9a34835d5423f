-- ===== src/Encode/Varint/Write.antt =====
-- `encode_var`: what it writes, and when it panics.
use Prim.Native.Nat.{zero, suc, bit_or}
use sxt_proof_of_sql.Shared.{
  ℕ, ◌+◌, ◌/◌, ◌%◌, ◌^◌, ◌≤◌, ◌<◌, ok, panic, true, leb, List, [], ◌∷◌, ◌++◌, length, length-append,
  ◌≡◌, refl, arith,
}
use sxt_proof_of_sql.Encode.Bits.{set_top}
use sxt_proof_of_sql.Encode.BitLength.{bit_length-le, leading_zeros}
use sxt_proof_of_sql.Encode.Varint.{encode_loop, encode_var, required_space}
use sxt_proof_of_sql.Encode.Varint.Groups.{Takes, groups, bit_length-Takes}

le→leb : (a b : ℕ) → a ≤ b → leb a b ≡ true
le→leb a b h = ground arith

pub top_of : (n : ℕ) → bit_or 0x80 (n % 256) ≡ 128 + n % 128
top_of n = omega (arith, set_top (n % 256) (omega arith))

pub one_more : (k : ℕ) → k + 1 ≡ suc k
one_more k = omega arith

-- The bytes of the format replace the first bytes of the slice.
pub encode_loop-groups :
    (k n : ℕ) (old rest : List ℕ)
    → Takes k n
    → length old ≡ suc k
    → encode_loop n (old ++ rest) ≡ ok (groups k n ++ rest, suc k)
unfolding encode_loop groups
encode_loop-groups k n [] rest h e = absurd (omega arith)
encode_loop-groups zero n (b ∷ []) rest h e = ground arith
encode_loop-groups zero n (b ∷ c ∷ old) rest h e = absurd (omega arith)
encode_loop-groups (suc k) n (b ∷ old) rest h e = rw (
  le→leb 128 n h.0,
  encode_loop-groups k (n / 128) old rest h.1 (omega arith),
  top_of n,
  one_more (suc k),
)

pub encode_loop_short :
    (k n : ℕ) (dst : List ℕ) → Takes k n → length dst ≤ k → encode_loop n dst ≡ panic
unfolding encode_loop
encode_loop_short k n [] h e = refl
encode_loop_short zero n (b ∷ dst) h e = absurd (omega arith)
encode_loop_short (suc k) n (b ∷ dst) h e =
    rw (le→leb 128 n h.0, encode_loop_short k (n / 128) dst h.1 (omega arith))

pub required_space-Takes : (n : ℕ) → n < 2 ^ 64 → (k : ℕ) × Takes k n × (required_space n ≡ suc k)
unfolding required_space leading_zeros
required_space-Takes n h =
    let (k, takes, size) = bit_length-Takes 64 64 n (omega arith) h in
    (k, takes, omega (arith, bit_length-le 64 n))

-- On a slice that has room `encode_var` does not panic: it replaces the first `required_space` bytes
-- by those of the format.
pub encode_var-groups :
    (n k : ℕ) (old rest : List ℕ)
    → Takes k n
    → required_space n ≡ suc k
    → length old ≡ suc k
    → encode_var n (old ++ rest) ≡ ok (groups k n ++ rest, suc k)
unfolding encode_var
encode_var-groups n k old rest takes size e = rw (
  le→leb (required_space n) (length (old ++ rest)) (omega (arith, length-append old rest)),
  encode_loop-groups k n old rest takes e,
)
