-- ===== src/PackIndex/Cached.antt =====
-- git/indexpack.go: the offset that `v2PackIndexHasSha1` keeps in the object cache while it reads an
-- index.
use dgit.Prelude.{
  ℕ, ◌+◌, ◌-◌, ◌%◌, ◌^◌, ◌<◌, ◌≡◌, inl, inr, ap, ◌∙◌, List, ltb, ◌==◌, if◌then◌else◌, bit_and,
  bit_or, length, Bool-cases, arith,
}
use dgit.Prelude.Bits.{bit_or-shifted, bit_and-shifted}
use dgit.PackIndex.Build.{new_offset}

-- `offset` for a four byte offset, where `val` is what a read of eight bytes would give. In the outer
-- branch bit 31 is set, so `^ (1 << 31)` subtracts it.
unfoldable pub cached_offset : ℕ → ℕ → ℕ
cached_offset offset val =
    if bit_and offset (2 ^ 31) == 0
    then offset
    else if bit_and (offset - 2 ^ 31) (2 ^ 31) == 0
    then 0
    else val

small_cached : (n val : ℕ) → n < 2 ^ 31 → cached_offset n val ≡ n
unfolding cached_offset
small_cached n val h = ground (arith, bit_and-shifted 31 0 n 1 h)

large_cached : (n val : ℕ) → n < 2 ^ 31 → cached_offset (n + 2 ^ 31) val ≡ 0
unfolding cached_offset
large_cached n val h = ground (arith, bit_and-shifted 31 1 n 1 h, bit_and-shifted 31 0 n 1 h)

-- While an index is read, an object's location is cached as it is where it is below 2^31, and as 0
-- for all others, with less than 2^31 eight byte offsets and whatever the bytes behind are.
pub cached_offset-new_offset :
    (location val : ℕ) (eight : List ℕ)
    → length eight < 2 ^ 31
    → cached_offset (new_offset location eight) val
      ≡ (if ltb location (2 ^ 31) then location else 0)
unfolding new_offset
cached_offset-new_offset location val eight h = elim (Bool-cases (ltb location (2 ^ 31))) [
  | inl y ↦
      rw (y, new_offset)
        (ap (λ (t : ℕ). cached_offset t val) (ground arith)
          ∙ small_cached location val (ground arith))
  | inr n ↦
      rw (n, new_offset)
        (ap (λ (t : ℕ). cached_offset t val)
            (omega (arith, bit_or-shifted 31 (length eight) 1 h, ap (λ t. bit_or t (2 ^ 31)) small))
          ∙ large_cached (length eight) val h)
]
  where
    small : length eight % 2 ^ 32 ≡ length eight
    small = omega arith
