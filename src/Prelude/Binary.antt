-- ===== src/Prelude/Binary.antt =====
-- `encoding/binary` of the Go library in big-endian order.
use Prim.Native.Nat.{ℕ, zero, suc, ◌+◌, ◌*◌, ◌/◌, ◌%◌, ◌^◌, ◌<◌}
use mathlib.Core.Path.{◌≡◌}
use mathlib.Core.List.{[], ◌∷◌, ◌++◌}
use native.Mathlib.Omega.{arith}
use dgit.Prelude.Text.{Bytes}

abbrev pub be16 : ℕ → Bytes
be16 n = (n / 256 % 256) ∷ (n % 256) ∷ []

abbrev pub be32 : ℕ → Bytes
be32 n = (n / 2 ^ 24 % 256) ∷ (n / 2 ^ 16 % 256) ∷ (n / 256 % 256) ∷ (n % 256) ∷ []

abbrev pub be64 : ℕ → Bytes
be64 n = be32 (n / 2 ^ 32 % 2 ^ 32) ++ be32 (n % 2 ^ 32)

-- The number of the first bytes, that many.
abbrev pub number_from : ℕ → ℕ → Bytes → ℕ
number_from acc zero bs = acc
number_from acc (suc w) [] = acc
number_from acc (suc w) (b ∷ bs) = number_from (acc * 256 + b) w bs

abbrev pub number : ℕ → Bytes → ℕ
number w bs = number_from 0 w bs

pub number-be16 : (n : ℕ) (bs : Bytes) → n < 2 ^ 16 → number 2 (be16 n ++ bs) ≡ n
number-be16 n bs h = omega arith

pub number-be32 : (n : ℕ) (bs : Bytes) → n < 2 ^ 32 → number 4 (be32 n ++ bs) ≡ n
number-be32 n bs h = omega arith

pub number-be64 : (n : ℕ) (bs : Bytes) → n < 2 ^ 64 → number 8 (be64 n ++ bs) ≡ n
number-be64 n bs h = omega arith
