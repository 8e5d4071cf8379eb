-- ===== src/PackIndex/Search.antt =====
-- git/indexpack.go: `HasObject`, and `GetObject` up to the offset in the pack file.
use dgit.Prelude.{
  ℕ, zero, suc, ◌-◌, ◌^◌, Bool, true, false, List, Bytes, bytes_eq, ◌==◌, if◌then◌else◌, bit_and,
  Option, none, some,
}
use dgit.PackIndex.{Row, PackIndex, first, element, fanout_at}

-- `startIdx`
unfoldable pub start_index : PackIndex → Bytes → ℕ
start_index idx s =
    if fanout_at (first s) idx.fanout == 0 then 1 else fanout_at (first s) idx.fanout

-- The loop of `HasObject` with `i + 1`; `none` is the panic on an index out of range.
unfoldable pub has_down : List Row → Bytes → ℕ → Option Bool
has_down rows s zero = some false
has_down rows s (suc i) = elim (element rows i) [
  | none ↦ none
  | some r ↦ elim (first r.sha1 == first s) [
    | false ↦ some false
    | true ↦ elim (bytes_eq s r.sha1) [ true ↦ some true | false ↦ has_down rows s i ]
  ]
]

unfoldable pub has_object : PackIndex → Bytes → Option Bool
has_object idx s = has_down idx.rows s (start_index idx s)

pub data Find : Type 0 where
  found : ℕ → Find
  absent : Find
  out_of_range : Find

-- The loop of `GetObject` with `i + 1`. Its `i` is a uint32: below 0 comes 2^32 - 1, where no table
-- has a row.
unfoldable pub find_down : List Row → Bytes → ℕ → Find
find_down rows s zero = out_of_range
find_down rows s (suc i) = elim (element rows i) [
  | none ↦ out_of_range
  | some r ↦ elim (first r.sha1 == first s) [
    | false ↦ absent
    | true ↦ elim (bytes_eq s r.sha1) [ true ↦ found i | false ↦ find_down rows s i ]
  ]
]

-- Where an object lies in the pack file, in `GetObject` and `GetObjectMetadata`. In the branch of the
-- eight byte offsets bit 31 is set, so `^ (1 << 31)` subtracts it.
unfoldable pub offset_of : List ℕ → ℕ → Option ℕ
offset_of eight offset =
    if bit_and offset (2 ^ 31) == 0 then some offset else element eight (offset - 2 ^ 31)

pub data Located : Type 0 where
  at : ℕ → Located
  object_not_found : Located
  panic : Located

unfoldable pub locate : PackIndex → Bytes → Located
locate idx s = elim (find_down idx.rows s (start_index idx s)) [
  | absent ↦ object_not_found
  | out_of_range ↦ panic
  | found i ↦ elim (element idx.rows i) [
    | none ↦ panic
    | some r ↦ elim (offset_of idx.eight_byte_offsets r.offset) [ none ↦ panic | some n ↦ at n ]
  ]
]
