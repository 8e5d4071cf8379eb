-- ===== src/Index/EntryTrip.antt =====
-- One entry of the index file, written and read back.
use dgit.Prelude.{
  if◌then◌else◌, ℕ, ◌+◌, ◌%◌, ◌^◌, ◌<◌, ◌≡◌, inl, inr, refl, sym, ap, ◌∙◌, subst, true, false, ◌||◌,
  [], ◌++◌, append_assoc, Bytes, ltb, ◌==◌, length, length-append, drop, Bool-cases, none, some,
  some_inj, arith, be16, number-be16,
}
use dgit.Index.Entry.{IndexEntry, extended_flag}
use dgit.Index.Format.{
  fixed_bytes, name_bytes, write_entry, Cursor, advance, entry_read, read_name, read_extension,
  read_index_entry,
}
use dgit.Index.Decoding.{
  Fits, length-fixed_bytes, decode_fixed-fixed_bytes, entry_skipped, advance_over,
}
use dgit.Index.LongName.{read_name-name_bytes}

-- An entry whose flag is set has an extension, of 16 bits.
abbrev pub ExtensionFits : IndexEntry → Type 0
ExtensionFits e = extended_flag e.flags ≡ true → (x : ℕ) × (x < 2 ^ 16) × (e.extensions ≡ some x)

-- What the file keeps of an entry: no extension without the flag.
unfoldable pub kept : IndexEntry → IndexEntry
kept e = if extended_flag e.flags then e else record e { extensions = none }

kept-plain :
    (e : IndexEntry) → extended_flag e.flags ≡ false → kept e ≡ record e { extensions = none }
unfolding kept
kept-plain e n = rw n refl

kept-extended : (e : IndexEntry) → extended_flag e.flags ≡ true → kept e ≡ e
unfolding kept
kept-extended e y = rw y refl

-- The extension is there exactly if the flag says so.
pub record HasExtension (e : IndexEntry) : Type 0 where
  pub some_flags : ExtensionFits e
  pub no_flags : extended_flag e.flags ≡ false → e.extensions ≡ none

-- An entry with an extension exactly if the flag says so is kept whole.
pub kept_whole : (e : IndexEntry) → HasExtension e → kept e ≡ e
kept_whole e h = elim (Bool-cases (extended_flag e.flags)) [
  | inl y ↦ kept-extended e y
  | inr n ↦ kept-plain e n ∙ (λ i. record e { extensions = sym (h.no_flags n) i })
]

no_extension :
    (version : ℕ) (f : IndexEntry) (c : Cursor)
    → extended_flag f.flags ≡ false
    → read_extension version f c ≡ read_name f c
unfolding read_extension
no_extension version f c n = rw (n, read_extension)

an_extension :
    (version : ℕ) (f : IndexEntry) (k x : ℕ) (tail : Bytes)
    → extended_flag f.flags ≡ true
    → ltb version 3 ≡ false
    → x < 2 ^ 16
    → read_extension version f (record { consumed = k; rest = be16 x ++ tail })
      ≡ read_name (record f { extensions = some x }) (record { consumed = k + 2; rest = tail })
unfolding read_extension advance
an_extension version f k x tail y three l =
    rw (y, three, two, read_extension)
      (λ i.
        read_name (record f { extensions = some (number-be16 x tail l i) })
          (record { consumed = k + 2; rest = tail }))
  where
    two : ltb (length (be16 x ++ tail)) 2 ≡ false
    two = ground arith

module _ (e : IndexEntry) (k version : ℕ) (rest : Bytes) (fits : Fits e)
    (extension : ExtensionFits e) (aligned : k % 8 ≡ 4) where
  enough : (tail : Bytes) → ltb (length (fixed_bytes e ++ tail)) 62 ≡ false
  enough tail = ground (arith, length-append (fixed_bytes e) tail, length-fixed_bytes e fits)

  fixed :
      (tail : Bytes)
      → (ltb version 2 || ltb 3 version) ≡ false
      → read_index_entry version (record { consumed = k; rest = fixed_bytes e ++ tail })
        ≡ read_extension version
            (record e { extensions = none; path_name = [] })
            (record { consumed = k + 62; rest = tail })
  unfolding read_index_entry
  fixed tail v =
      rw (v, enough tail, read_index_entry)
        (λ i.
          read_extension version (decode_fixed-fixed_bytes e tail fits i)
            (advance_over k 62 (fixed_bytes e) tail (length-fixed_bytes e fits) i))

  -- Behind the fixed part and the extension.
  abbrev Read : IndexEntry → Bytes → Type 0
  Read got b =
      read_index_entry version (record { consumed = k; rest = b ++ rest })
      ≡ entry_read got
          (record { consumed = k + length b + entry_skipped e; rest = drop (entry_skipped e) rest })

  plain_Read :
      (ltb version 2 || ltb 3 version) ≡ false
      → extended_flag e.flags ≡ false
      → Read (record e { extensions = none }) (fixed_bytes e ++ name_bytes e)
  plain_Read v n =
      ap (λ t. read_index_entry version (record { consumed = k; rest = t }))
        (append_assoc (fixed_bytes e) (name_bytes e) rest)
      ∙ fixed (name_bytes e ++ rest) v
      ∙ no_extension version (record e { extensions = none; path_name = [] })
          (record { consumed = k + 62; rest = name_bytes e ++ rest }) n
      ∙ read_name-name_bytes (record e { extensions = none; path_name = [] }) e (k + 62) rest refl
          fits (ground (arith, aligned))
      ∙ (λ i.
          entry_read (record e { extensions = none })
            (record { consumed = position i; rest = drop (entry_skipped e) rest }))
    where
      position :
          k + 62 + length (name_bytes e) + entry_skipped e
          ≡ k + length (fixed_bytes e ++ name_bytes e) + entry_skipped e
      position =
          omega (arith, length-append (fixed_bytes e) (name_bytes e), length-fixed_bytes e fits)

  extended_Read :
      (ltb version 2 || ltb 3 version) ≡ false
      → extended_flag e.flags ≡ true
      → (version == 2) ≡ false
      → (x : ℕ) → x < 2 ^ 16
      → e.extensions ≡ some x
      → Read e (fixed_bytes e ++ (be16 x ++ name_bytes e))
  extended_Read v y n x l known =
      ap (λ t. read_index_entry version (record { consumed = k; rest = t }))
        (append_assoc (fixed_bytes e) (be16 x ++ name_bytes e) rest)
      ∙ fixed (be16 x ++ (name_bytes e ++ rest)) v
      ∙ an_extension version (record e { extensions = none; path_name = [] }) (k + 62) x
          (name_bytes e ++ rest) y three l
      ∙ read_name-name_bytes (record e { extensions = some x; path_name = [] }) e (k + 62 + 2) rest
          refl fits (ground (arith, aligned))
      ∙ (λ i.
          entry_read (record e { extensions = sym known i })
            (record { consumed = position i; rest = drop (entry_skipped e) rest }))
    where
      three : ltb version 3 ≡ false
      three = ground (arith, v, n)

      position :
          k + 62 + 2 + length (name_bytes e) + entry_skipped e
          ≡ k + length (fixed_bytes e ++ (be16 x ++ name_bytes e)) + entry_skipped e
      position =
          omega (
            arith,
            length-append (fixed_bytes e) (be16 x ++ name_bytes e),
            length-fixed_bytes e fits,
          )

  -- An entry whose fields fit their types, whose flags have the length of the name and that has an
  -- extension if the flag for it is set, as `WriteIndex` writes it in version 2 or 3 at a position that
  -- leaves 4 by 8, is read back. If the flag is not set, an extension that the entry has is not
  -- written, and the entry is read without it. The reader stands behind the entry; only behind a long
  -- name that a single NUL pads it has gone 8 bytes too far.
  pub read_index_entry-write_entry :
      (ltb version 2 || ltb 3 version) ≡ false
      → {b : Bytes} → write_entry version e ≡ some b
      → read_index_entry version (record { consumed = k; rest = b ++ rest })
        ≡ entry_read (kept e) (record {
          consumed = k + length b + entry_skipped e;
          rest = drop (entry_skipped e) rest;
        })
  unfolding write_entry
  read_index_entry-write_entry v {b} w = elim (Bool-cases (extended_flag e.flags)) [
    | inr n ↦
        subst (λ (got : IndexEntry). Read got b) (sym (kept-plain e n))
          (subst (Read (record e { extensions = none })) (some_inj (rw (n, write_entry) at w))
            (plain_Read v n))
    | inl y ↦ elim (Bool-cases (version == 2)) [
      | inl z ↦ cc (rw (y, z, write_entry) at w)
      | inr z ↦
          let (x, l, known) = extension y in
          subst (λ (got : IndexEntry). Read got b) (sym (kept-extended e y))
            (subst (Read e) (some_inj (rw (y, z, known, write_entry) at w))
              (extended_Read v y z x l known))
    ]
  ]
