-- ===== src/Prelude/Integers.antt =====
-- The integers over the native numbers, and what a conversion from 64 bits without a sign gives.
use Prim.Native.Nat.{ℕ, ◌-◌, ◌^◌, ◌<◌}
use mathlib.Core.Path.{◌≡◌}
use native.Mathlib.Omega.{arith}
use dgit.Prelude.Tests.{ltb, if◌then◌else◌}

-- `negsuc n` is -(n + 1).
pub data ℤ : Type 0 where
  pos : ℕ → ℤ
  negsuc : ℕ → ℤ

-- `int64(n)` for a `uint64`: from 2^63 on the number is n - 2^64.
unfoldable pub signed : ℕ → ℤ
signed n = if ltb n (2 ^ 63) then pos n else negsuc (2 ^ 64 - 1 - n)

pub signed_small : (n : ℕ) → n < 2 ^ 63 → signed n ≡ pos n
unfolding signed
signed_small n h = ground arith
