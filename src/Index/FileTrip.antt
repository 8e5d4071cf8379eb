-- ===== src/Index/FileTrip.antt =====
-- The index file as a whole, written and read back.
use dgit.Prelude.{
  ℕ, suc, ◌+◌, ◌%◌, ◌^◌, ◌<◌, ◌≡◌, inl, inr, refl, sym, ap, ◌∙◌, subst, false, ◌||◌, List, [], ◌∷◌,
  ◌++◌, map, append_assoc, Bytes, codes, bytes_eq, ltb, ◌==◌, length, length-append, drop,
  Bool-cases, Option, Option-cases, some, some_inj, All, arith, be16, be32, number-be32,
}
use dgit.Index.Entry.{IndexEntry, Index, extended_flag, sort_by_path}
use dgit.Index.Format.{
  zeros, fixed_bytes, padding, name_bytes, write_entry, write_entries, index_content, write_index,
  entry_read, read_index_entry, read_entries, index_read, read_index,
}
use dgit.Index.Decoding.{length-zeros, Fits, length-fixed_bytes, entry_skipped}
use dgit.Index.EntryTrip.{HasExtension, kept_whole, read_index_entry-write_entry}
use dgit.Index.Sorted.{All-sort_by_path}
use dgit.Index.Adding.{length-sort_by_path}

-- An entry that the file format can hold, and whose padding a reader does not miss.
pub record IsStorable (e : IndexEntry) : Type 0 where
  pub fits : Fits e
  pub extension : HasExtension e
  pub nothing_skipped : entry_skipped e ≡ 0

length-name_bytes :
    (e : IndexEntry)
    → length (name_bytes e)
      ≡ length e.path_name + padding (extended_flag e.flags) (length e.path_name)
unfolding name_bytes
length-name_bytes e = omega (
  arith,
  length-append e.path_name (zeros (padding (extended_flag e.flags) (length e.path_name))),
  length-zeros (padding (extended_flag e.flags) (length e.path_name)),
)

-- Every entry takes a multiple of 8 bytes.
length-write_entry :
    (version : ℕ) (e : IndexEntry)
    → Fits e
    → HasExtension e
    → {b : Bytes} → write_entry version e ≡ some b
    → length b % 8 ≡ 0
unfolding write_entry padding
length-write_entry version e fits extension w = elim (Bool-cases (extended_flag e.flags)) [
  | inr n ↦
      subst (λ (t : Bytes). length t % 8 ≡ 0) (some_inj (rw (n, write_entry) at w))
        (ground (
          arith,
          length-append (fixed_bytes e) (name_bytes e),
          length-fixed_bytes e fits,
          length-name_bytes e,
        ))
  | inl y ↦ elim (Bool-cases (version == 2)) [
    | inl z ↦ cc (rw (y, z, write_entry) at w)
    | inr z ↦
        let (x, l, known) = extension.some_flags y in
        subst (λ (t : Bytes). length t % 8 ≡ 0) (some_inj (rw (y, z, known, write_entry) at w))
          (ground (
            arith,
            length-append (fixed_bytes e) (be16 x ++ name_bytes e),
            length-fixed_bytes e fits,
            length-name_bytes e,
          ))
  ]
]

read_entries-write_entries :
    (version : ℕ) (es : List IndexEntry) (k : ℕ) (rest : Bytes)
    → (ltb version 2 || ltb 3 version) ≡ false
    → All IsStorable es
    → k % 8 ≡ 4
    → {b : Bytes} → write_entries version es ≡ some b
    → read_entries (length es) version (record { consumed = k; rest = b ++ rest })
      ≡ some (map some es)
unfolding write_entries read_entries
read_entries-write_entries version [] k rest v h a w = refl
read_entries-write_entries version (e ∷ es) k rest v (s, h) a w =
    elim (Option-cases (write_entry version e)) [
      | inl n ↦ cc (rw (n, write_entries) at w)
      | inr (x, f) ↦ elim (Option-cases (write_entries version es)) [
        | inl n ↦ cc (rw (f, n, write_entries) at w)
        | inr (y, g) ↦
            let next =
              read_entries-write_entries version es (k + length x) rest v h
                (omega (arith, a, length-write_entry version e s.fits s.extension f)) g in
            subst
              (λ (t : Bytes).
                read_entries (suc (length es)) version (record { consumed = k; rest = t ++ rest })
                ≡ some (map some (e ∷ es)))
              (some_inj (rw (f, g, write_entries) at w))
              (ap (λ t. read_entries (suc (length es)) version (record { consumed = k; rest = t }))
                  (append_assoc x y rest)
                ∙ rw (one version e k (y ++ rest) v s a f, next, read_entries))
      ]
    ]
  where
    one :
        (version : ℕ) (e : IndexEntry) (k : ℕ) (tail : Bytes)
        → (ltb version 2 || ltb 3 version) ≡ false
        → IsStorable e
        → k % 8 ≡ 4
        → {x : Bytes} → write_entry version e ≡ some x
        → read_index_entry version (record { consumed = k; rest = x ++ tail })
          ≡ entry_read e (record { consumed = k + length x; rest = tail })
    one version e k tail v s a {x} f =
        read_index_entry-write_entry e k version tail s.fits s.extension.some_flags a v f ∙ (λ i.
          entry_read (kept_whole e s.extension i)
            (record { consumed = exact i; rest = drop (s.nothing_skipped i) tail }))
      where
        exact : k + length x + entry_skipped e ≡ k + length x
        exact = omega (arith, s.nothing_skipped)

read_header :
    (version n : ℕ) (tail : Bytes) (es : List (Option IndexEntry))
    → (ltb version 2 || ltb 3 version) ≡ false
    → n < 2 ^ 32
    → read_entries n version (record { consumed = 12; rest = tail }) ≡ some es
    → read_index (some (codes "DIRC" ++ (be32 version ++ (be32 n ++ tail))))
      ≡ index_read version n es
unfolding read_index bytes_eq
read_header version n tail es v l e =
    rw
      (
        short,
        number-be32 version (be32 n ++ tail) (ground (arith, v)),
        number-be32 n tail l,
        known,
        e,
        read_index,
      )
      (λ i.
        index_read (number-be32 version (be32 n ++ tail) (ground (arith, v)) i)
          (number-be32 n tail l i) es)
  where
    short : ltb (length (codes "DIRC" ++ (be32 version ++ (be32 n ++ tail)))) 12 ≡ false
    short = ground arith

    known : (ltb version 2 || ltb 4 version) ≡ false
    known = ground (arith, v)

module _ (hash : Bytes → Bytes) (g : Index) where
  -- For an index of version 2 or 3 and less than 2^32 entries, each of which the format can hold and whose
  -- padding a reader does not miss, what `WriteIndex` writes with any hash, `ReadIndex` reads back: the
  -- version, the number of entries, and the entries in the order of path and stage.
  pub read_index-write_index :
      (ltb g.version 2 || ltb 3 g.version) ≡ false
      → length g.objects < 2 ^ 32
      → All IsStorable g.objects
      → {file : Bytes} → write_index hash g ≡ some file
      → read_index (some file)
        ≡ index_read g.version (length g.objects) (map some (sort_by_path g.objects))
  unfolding write_index index_content
  read_index-write_index v l h w =
      elim (Option-cases (write_entries g.version (sort_by_path g.objects))) [
        | inl n ↦ cc (rw (n, write_index) at w)
        | inr (b, f) ↦
            subst
              (λ (t : Bytes).
                read_index (some t)
                ≡ index_read g.version (length g.objects) (map some (sort_by_path g.objects)))
              (some_inj (rw (f, write_index) at w))
              (ap
                  (λ n. read_index (
                    some (
                      codes "DIRC"
                      ++ (be32 g.version ++ (be32 n ++ (b ++ hash (index_content g b)))))))
                  small
                ∙ read_header g.version (length g.objects) (b ++ hash (index_content g b))
                    (map some (sort_by_path g.objects)) v l
                    (ap
                        (λ n.
                          read_entries n g.version
                            (record { consumed = 12; rest = b ++ hash (index_content g b) }))
                        (sym (length-sort_by_path g.objects))
                      ∙ read_entries-write_entries g.version (sort_by_path g.objects) 12
                          (hash (index_content g b)) v (All-sort_by_path IsStorable g.objects h)
                          (omega arith) f))
      ]
    where
      small : length g.objects % 2 ^ 32 ≡ length g.objects
      small = omega (arith, l)
