-- ===== src/PackIndex.antt =====
-- git/indexpack.go: the index of a pack file, in version 2. The three tables with one element for
-- each object stand as one list of rows, and each panic on an index out of range is an outcome.
pub mod Search
pub mod Build
pub mod Tables
pub mod Offsets
pub mod Sorted
pub mod Lookup
pub mod Indexed
pub mod Cached
pub mod File
pub mod FileTrip
pub mod Stored
use dgit.Prelude.{
  ℕ, zero, suc, ◌+◌, ◌-◌, ◌%◌, ◌^◌, Bool, true, false, List, [], ◌∷◌, ◌++◌, Bytes, bytes_eq, ltb,
  ◌==◌, if◌then◌else◌, bit_and, bit_or, length, take, drop, Option, none, some,
}

pub record Row : Type 0 where
  pub sha1 : Bytes
  pub crc32 : ℕ
  pub offset : ℕ

pub record PackIndex : Type 0 where
  pub fanout : List ℕ
  pub rows : List Row
  pub eight_byte_offsets : List ℕ

-- `s[0]` of an id, which has 20 bytes.
unfoldable pub first : Bytes → ℕ
first [] = 0
first (b ∷ s) = b

unfoldable pub element {ℓ} : {A : Type ℓ} → List A → ℕ → Option A
element [] n = none
element (x ∷ xs) zero = some x
element (x ∷ xs) (suc n) = element xs n

-- An element of the fanout table, which has 256.
unfoldable pub fanout_at : ℕ → List ℕ → ℕ
fanout_at n [] = 0
fanout_at zero (x ∷ xs) = x
fanout_at (suc n) (x ∷ xs) = fanout_at n xs
