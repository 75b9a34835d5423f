-- ===== src/Shared/Powers.antt =====
-- Powers of two, the sizes `1 << n`.
use Prim.Native.Nat.{ℕ, suc, ◌+◌, ◌^◌}
use mathlib.Core.Path.{◌≡◌}
use native.Mathlib.Nat.{pow-succ'}
use native.Mathlib.Omega.{arith}

pub pow_double : (n : ℕ) → 2 ^ suc n ≡ 2 ^ n + 2 ^ n
pow_double n = rw pow-succ' (omega arith)
