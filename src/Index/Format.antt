-- ===== src/Index/Format.antt =====
-- git/index.go: the index file, `WriteIndex`, `ReadIndex` and `ReadIndexEntry`. A file is its bytes;
-- what a failed write has put out is left out.
use dgit.Prelude.{
  ℕ, zero, suc, ◌+◌, ◌-◌, ◌%◌, ◌^◌, Bool, true, false, not, ◌||◌, List, [], ◌∷◌, ◌++◌, Bytes, codes,
  bytes_eq, ltb, ◌==◌, if◌then◌else◌, bit_and, length, take, drop, Option, none, some, be16, be32,
  be64, number,
}
use dgit.Index.Entry.{IndexEntry, Index, extended_flag, sort_by_path}

unfoldable pub zeros : ℕ → Bytes
zeros zero = []
zeros (suc n) = 0 ∷ zeros n

-- The fields of a `FixedIndexEntry` in order.
unfoldable pub fixed_bytes : IndexEntry → Bytes
fixed_bytes e =
    be32 e.ctime
    ++ (be32 e.ctimenano
        ++ (be64 e.mtime
            ++ (be32 e.dev
                ++ (be32 e.ino
                    ++ (be32 e.mode
                        ++ (be32 e.uid
                            ++ (be32 e.gid ++ (be32 e.fsize ++ (e.sha1 ++ be16 e.flags)))))))))

-- `8 - ((sz + nameLength + 4) % 8)`, with `sz` for the extended flag.
unfoldable pub padding : Bool → ℕ → ℕ
padding extended name_length =
    let sz : ℕ = if extended then 82 + 2 else 82 in 8 - (sz + name_length + 4) % 8

unfoldable pub name_bytes : IndexEntry → Bytes
name_bytes e = e.path_name ++ zeros (padding (extended_flag e.flags) (length e.path_name))

-- One round of the loop of `WriteIndex`; `none` is its error.
unfoldable pub write_entry : ℕ → IndexEntry → Option Bytes
write_entry version e =
    if extended_flag e.flags
    then if version == 2 then none else elim e.extensions [
      | none ↦ none
      | some x ↦ some (fixed_bytes e ++ (be16 x ++ name_bytes e))
    ]
    else some (fixed_bytes e ++ name_bytes e)

unfoldable pub write_entries : ℕ → List IndexEntry → Option Bytes
write_entries version [] = some []
write_entries version (e ∷ es) = elim (write_entry version e) [
  | none ↦ none
  | some b ↦ elim (write_entries version es) [ none ↦ none | some rest ↦ some (b ++ rest) ]
]

-- What is hashed, and then written in front of the hash.
unfoldable pub index_content : Index → Bytes → Bytes
index_content g entries =
    codes "DIRC" ++ (be32 g.version ++ (be32 (length g.objects % 2 ^ 32) ++ entries))

-- `hash` is SHA-1 of the Go library.
unfoldable pub write_index : (Bytes → Bytes) → Index → Option Bytes
write_index hash g = elim (write_entries g.version (sort_by_path g.objects)) [
  | none ↦ none
  | some entries ↦ some (index_content g entries ++ hash (index_content g entries))
]

-- A file that is read, and the bytes in front of the position.
pub record Cursor : Type 0 where
  pub consumed : ℕ
  pub rest : Bytes

-- A read or a seek to a later position.
unfoldable pub advance : ℕ → Cursor → Cursor
advance n c = record { consumed = c.consumed + n; rest = drop n c.rest }

pub data EntryRead : Type 0 where
  entry_read : IndexEntry → Cursor → EntryRead
  entry_error : Cursor → EntryRead
  entry_panic : EntryRead

-- `binary.Read` of a `FixedIndexEntry` from its 62 bytes.
unfoldable pub decode_fixed : Bytes → IndexEntry
decode_fixed bs = record {
  ctime = number 4 bs;
  ctimenano = number 4 (drop 4 bs);
  mtime = number 8 (drop 8 bs);
  dev = number 4 (drop 16 bs);
  ino = number 4 (drop 20 bs);
  mode = number 4 (drop 24 bs);
  uid = number 4 (drop 28 bs);
  gid = number 4 (drop 32 bs);
  fsize = number 4 (drop 36 bs);
  sha1 = take 20 (drop 40 bs);
  flags = number 2 (drop 20 (drop 40 bs));
  extensions = none;
  path_name = [];
}

-- The loop that reads a long name, with the name so far. `initial` is whether `nbyte` was never
-- written, so that it is 0 at the end of the file.
unfoldable pub read_long_name : Bool → Bytes → Bytes → Option (Bytes × Bytes)
read_long_name initial name [] = if initial then some (name, []) else none
read_long_name initial name (b ∷ rest) =
    if b == 0 then some (name, rest) else read_long_name false (name ++ (b ∷ [])) rest

unfoldable pub read_long : IndexEntry → Cursor → EntryRead
read_long f c = elim (read_long_name true [] c.rest) [
  | none ↦ entry_error (advance (length c.rest) c)
  | some (name, rest) ↦
      let off : ℕ = c.consumed + (length c.rest - length rest) in
      entry_read (record f { path_name = name })
        (advance (8 - (off + 4) % 8) (record { consumed = off; rest = rest }))
]

unfoldable pub read_short : IndexEntry → ℕ → Cursor → EntryRead
read_short f name_length c =
    if ltb (length c.rest) name_length
    then entry_panic
    else entry_read (record f { path_name = take name_length c.rest })
        (advance (padding (extended_flag f.flags) name_length) (advance name_length c))

unfoldable pub read_name : IndexEntry → Cursor → EntryRead
read_name f c =
    if bit_and f.flags 0xfff == 0xfff then read_long f c else read_short f (bit_and f.flags 0xfff) c

unfoldable pub read_extension : ℕ → IndexEntry → Cursor → EntryRead
read_extension version f c =
    if not (extended_flag f.flags)
    then read_name f c
    else if ltb version 3
    then entry_error c
    else if ltb (length c.rest) 2
    then entry_error (advance (length c.rest) c)
    else read_name (record f { extensions = some (number 2 c.rest) }) (advance 2 c)

unfoldable pub read_index_entry : ℕ → Cursor → EntryRead
read_index_entry version c =
    if ltb version 2 || ltb 3 version
    then entry_error c
    else if ltb (length c.rest) 62
    then entry_error (advance (length c.rest) c)
    else read_extension version (decode_fixed c.rest) (advance 62 c)

-- The loop of `ReadIndex`: an entry with an error stays a nil pointer. `none` is a panic.
unfoldable pub read_entries : ℕ → ℕ → Cursor → Option (List (Option IndexEntry))
read_entries zero version c = some []
read_entries (suc n) version c = elim (read_index_entry version c) [
  | entry_panic ↦ none
  | entry_error d ↦ elim (read_entries n version d) [ none ↦ none | some es ↦ some (none ∷ es) ]
  | entry_read e d ↦ elim (read_entries n version d) [ none ↦ none | some es ↦ some (some e ∷ es) ]
]

pub data IndexRead : Type 0 where
  index_read : ℕ → ℕ → List (Option IndexEntry) → IndexRead
  invalid_index : IndexRead
  index_panic : IndexRead

-- Version, number of entries and objects of the file, where there is one. A short header is not
-- decoded, and has no signature.
unfoldable pub read_index : Option Bytes → IndexRead
read_index none = index_read 2 0 []
read_index (some file) =
    if ltb (length file) 12 || not (bytes_eq (take 4 file) (codes "DIRC"))
    then invalid_index
    else if ltb (number 4 (drop 4 file)) 2 || ltb 4 (number 4 (drop 4 file))
    then invalid_index
    else elim (read_entries (number 4 (drop 8 file)) (number 4 (drop 4 file))
        (record { consumed = 12; rest = drop 12 file })) [
          | none ↦ index_panic
          | some es ↦ index_read (number 4 (drop 4 file)) (number 4 (drop 8 file)) es
        ]
