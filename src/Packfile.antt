-- ===== src/Packfile.antt =====
-- git/packfile.go: the headers of the entries of a pack file, and the numbers in them. `none` is
-- the panic at the end of the stream. What git/packobjects.go writes for an offset is in `Offset`.
pub mod Entry
pub mod Offset
pub mod DeltaEntry
use dgit.Prelude.{
  ℕ, zero, suc, ◌+◌, ◌-◌, ◌*◌, ◌/◌, ◌%◌, ◌^◌, List, [], ◌∷◌, ◌++◌, Bytes, ltb, leb, ◌==◌,
  if◌then◌else◌, length, take, drop, bit_and, bit_or, Option, none, some,
}
use dgit.Prelude.Integers.{ℤ, pos, signed}

abbrev pub obj_commit : ℕ
obj_commit = 1

abbrev pub obj_tree : ℕ
obj_tree = 2

abbrev pub obj_blob : ℕ
obj_blob = 3

abbrev pub obj_tag : ℕ
obj_tag = 4

abbrev pub obj_ofs_delta : ℕ
obj_ofs_delta = 6

abbrev pub obj_ref_delta : ℕ
obj_ref_delta = 7

-- The loop of `WriteVariable`: `last` is the last byte so far. Each round divides by 128, so `v`
-- rounds are enough.
unfoldable pub write_variable_loop : ℕ → ℕ → ℕ → Bytes
write_variable_loop zero last v = last ∷ []
write_variable_loop (suc fuel) last v =
    let more = bit_or last 0x80 ∷ write_variable_loop fuel (bit_and v 0x7f % 256) (v / 2 ^ 7) in
    if v == 0 then last ∷ [] else more

unfoldable pub write_variable : ℕ → ℕ → Bytes
write_variable v typ =
    write_variable_loop (v / 2 ^ 4) (bit_or (typ * 2 ^ 4 % 256) (bit_and v 0xf % 256)) (v / 2 ^ 4)

-- The loop of `ReadHeaderSize`: the type, the size, the bytes read and those that follow.
unfoldable pub read_header_loop : Bytes → ℕ → ℕ → ℕ → Bytes → Option (ℕ × ℕ × Bytes × Bytes)
read_header_loop [] i entrytype size dataread = none
read_header_loop (b ∷ src) i entrytype size dataread =
    let entrytype' = if i == 0 then bit_and b 0x70 / 2 ^ 4 else entrytype in
    let size' =
      if i == 0
      then bit_and b 0xf
      else bit_or size (bit_and b 0x7f * 2 ^ (4 + (i - 1) * 7) % 2 ^ 64) in
    let dataread' = dataread ++ (b ∷ []) in
    let more = read_header_loop src (i + 1) entrytype' size' dataread' in
    if ltb b 128 then some (entrytype', size', dataread', src) else more

-- The loop of `ReadDeltaOffset` behind a byte `b`, with the value so far and the bytes consumed.
unfoldable pub delta_offset_loop : ℕ → ℕ → Bytes → Bytes → Option (ℕ × Bytes × Bytes)
delta_offset_loop b val consumed [] = if bit_and b 128 == 0 then some (val, consumed, []) else none
delta_offset_loop b val consumed (c ∷ src) =
    let more =
      delta_offset_loop c (((val + 1) % 2 ^ 64 * 2 ^ 7 % 2 ^ 64 + bit_and c 127) % 2 ^ 64)
        (consumed ++ (c ∷ [])) src in
    if bit_and b 128 == 0 then some (val, consumed, c ∷ src) else more

unfoldable pub read_delta_offset : Bytes → Option (ℕ × Bytes × Bytes)
read_delta_offset [] = none
read_delta_offset (b ∷ src) = delta_offset_loop b (bit_and b 127) (b ∷ []) src

-- What `ReadHeaderSize` returns, and the stream behind it.
pub record Header : Type 0 where
  pub entrytype : ℕ
  pub size : ℕ
  pub ref_delta : Bytes
  pub offset : ℤ
  pub dataread : Bytes
  pub rest : Bytes

abbrev pub no_sha : Bytes
no_sha = 0 ∷ 0 ∷ 0 ∷ 0 ∷ 0 ∷ 0 ∷ 0 ∷ 0 ∷ 0 ∷ 0 ∷ 0 ∷ 0 ∷ 0 ∷ 0 ∷ 0 ∷ 0 ∷ 0 ∷ 0 ∷ 0 ∷ 0 ∷ []

-- The `switch entrytype` behind the loop, with the conversion of the offset to an `int` of 64 bits.
unfoldable pub read_base : ℕ → ℕ → Bytes → Bytes → Option Header
read_base entrytype size dataread src =
    if entrytype == obj_ref_delta
    then (if ltb (length src) 20
        then none
        else some (record {
          entrytype = entrytype;
          size = size;
          ref_delta = take 20 src;
          offset = pos 0;
          dataread = dataread ++ take 20 src;
          rest = drop 20 src;
        }))
    else if entrytype == obj_ofs_delta
    then elim (read_delta_offset src) [
      | none ↦ none
      | some (offset, raw, src') ↦ some (record {
        entrytype = entrytype;
        size = size;
        ref_delta = no_sha;
        offset = signed offset;
        dataread = dataread ++ raw;
        rest = src';
      })
    ]
    else some (record {
      entrytype = entrytype;
      size = size;
      ref_delta = no_sha;
      offset = pos 0;
      dataread = dataread;
      rest = src;
    })

unfoldable pub read_header_size : Bytes → Option Header
read_header_size src = elim (read_header_loop src 0 0 0 []) [
  | none ↦ none
  | some (entrytype, size, dataread, rest) ↦ read_base entrytype size dataread rest
]
