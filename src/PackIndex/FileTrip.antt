-- ===== src/PackIndex/FileTrip.antt =====
-- The file of a pack index is read back.
use dgit.Prelude.{
  ℕ, suc, ◌^◌, ◌<◌, ◌≡◌, inl, inr, refl, sym, ap, ◌∙◌, Bool, false, List, [], ◌∷◌, ◌++◌,
  append_assoc, Bytes, be32, be64, number, number-be32, number-be64, ltb, length, length-append,
  take, drop, take-append, drop-append, Bool-cases, Option, none, some, All, if◌then◌else◌, arith,
}
use dgit.PackIndex.{Row, PackIndex, fanout_at}
use dgit.PackIndex.File.{
  PackIndexFile, write_many, ids_of, crcs_of, offsets_of, write_pack_index, read_bytes, read_word,
  read_many, then_read, read_long, is_long, read_longs, rows_of, read_tables, read_pack_index,
}

-- The tables fit their fields, and each long offset has its place.
abbrev pub long_count : List ℕ → ℕ
long_count [] = 0
long_count (o ∷ os) = if is_long o then suc (long_count os) else long_count os

abbrev pub FitsRow : Row → Type 0
FitsRow r = (length r.sha1 ≡ 20) × (r.crc32 < 2 ^ 32) × (r.offset < 2 ^ 32)

pub record Fits (t : PackIndex) : Type 0 where
  pub fanout_length : length t.fanout ≡ 256
  pub fanout_words : All (λ n. n < 2 ^ 32) t.fanout
  pub row_count : fanout_at 255 t.fanout ≡ length t.rows
  pub row_fields : All FitsRow t.rows
  pub longs : long_count (offsets_of t.rows) ≡ length t.eight_byte_offsets
  pub long_words : All (λ n. n < 2 ^ 64) t.eight_byte_offsets

otherwise {ℓ} : {A : Type ℓ} (b : Bool) (x y : A) → b ≡ false → (if b then x else y) ≡ y
otherwise b x y e = rw e refl

read_bytes-append : (s t : Bytes) (n : ℕ) → length s ≡ n → read_bytes n (s ++ t) ≡ some (s, t)
unfolding read_bytes
read_bytes-append s t n e =
    ap (λ k. read_bytes k (s ++ t)) (sym e)
    ∙ otherwise (ltb (length (s ++ t)) (length s)) none
        (some (take (length s) (s ++ t), drop (length s) (s ++ t)))
        (ground (arith, length-append s t))
    ∙ λ i. some (take-append s t i, drop-append s t i)

read_word-be32 : (n : ℕ) (t : Bytes) → n < 2 ^ 32 → read_word (be32 n ++ t) ≡ some (n, t)
unfolding read_word
read_word-be32 n t h =
    otherwise (ltb (length (be32 n ++ t)) 4) none (some (number 4 (be32 n ++ t), t)) (ground arith)
    ∙ λ i. some (number-be32 n t h i, t)

read_long-be64 : (n : ℕ) (t : Bytes) → n < 2 ^ 64 → read_long (be64 n ++ t) ≡ (n, t)
unfolding read_long
read_long-be64 n t h =
    otherwise (ltb (length (be64 n ++ t)) 8) (0, []) (number 8 (be64 n ++ t), t) (ground arith)
    ∙ λ i. (number-be64 n t h i, t)

module _ {ℓ} {A : Type ℓ} (write : A → Bytes) (p : Bytes → Option (A × Bytes)) (Ok : A → Type 0)
    (one : (x : A) (t : Bytes) → Ok x → p (write x ++ t) ≡ some (x, t)) where
  read_many-write_many :
      (xs : List A) (n : ℕ) (t : Bytes)
      → n ≡ length xs
      → All Ok xs
      → read_many p n (write_many write xs ++ t) ≡ some (xs, t)
  unfolding read_many write_many
  read_many-write_many [] n t e h = ap (λ k. read_many p k t) e
  read_many-write_many (x ∷ xs) n t e (h, hs) =
      ap (λ k. read_many p k ((write x ++ write_many write xs) ++ t)) e
      ∙ ap (read_many p (suc (length xs))) (append_assoc (write x) (write_many write xs) t)
      ∙ rw
          (
            one x (write_many write xs ++ t) h,
            read_many-write_many xs (length xs) t refl hs,
            read_many,
          )
          refl

-- One offset of eight bytes, by what is said of the rest.
stored :
    (o : ℕ) (offsets : List ℕ) (t : Bytes)
    → ((l : List ℕ)
        → long_count offsets ≡ length l
        → All (λ n. n < 2 ^ 64) l
        → read_longs offsets (write_many be64 l ++ t) ≡ l)
    → (longs : List ℕ) → suc (long_count offsets) ≡ length longs
    → All (λ n. n < 2 ^ 64) longs
    → (read_long (write_many be64 longs ++ t)).0
        ∷ read_longs offsets (read_long (write_many be64 longs ++ t)).1
      ≡ longs
unfolding write_many
stored o offsets t rest [] e h = absurd (omega (arith, e))
stored o offsets t rest (x ∷ longs) e (h, hs) =
    ap (λ (r : ℕ × Bytes). r.0 ∷ read_longs offsets r.1)
      (ap read_long (append_assoc (be64 x) (write_many be64 longs) t)
        ∙ read_long-be64 x (write_many be64 longs ++ t) h)
    ∙ ap (◌∷◌ x) (rest longs (omega (arith, e)) hs)

read_longs-write_many :
    (offsets longs : List ℕ) (t : Bytes)
    → long_count offsets ≡ length longs
    → All (λ n. n < 2 ^ 64) longs
    → read_longs offsets (write_many be64 longs ++ t) ≡ longs
unfolding read_longs write_many
read_longs-write_many [] [] t e h = refl
read_longs-write_many [] (x ∷ longs) t e h = absurd (omega (arith, e))
read_longs-write_many (o ∷ offsets) longs t e h = elim (Bool-cases (is_long o)) [
  | inr n ↦ rw (n, read_longs) (read_longs-write_many offsets longs t (rw n at e) h)
  | inl y ↦
      rw (y, read_longs)
        (stored o offsets t (λ l f g. read_longs-write_many offsets l t f g) longs (rw y at e) h)
]

rows_of_lem : (rows : List Row) → rows_of (ids_of rows) (crcs_of rows) (offsets_of rows) ≡ rows
unfolding rows_of ids_of crcs_of offsets_of
rows_of_lem [] = refl
rows_of_lem (r ∷ rows) = ap (◌∷◌ r) (rows_of_lem rows)

length-ids_of : (rows : List Row) → length (ids_of rows) ≡ length rows
unfolding ids_of
length-ids_of [] = refl
length-ids_of (r ∷ rows) = ap suc (length-ids_of rows)

length-crcs_of : (rows : List Row) → length (crcs_of rows) ≡ length rows
unfolding crcs_of
length-crcs_of [] = refl
length-crcs_of (r ∷ rows) = ap suc (length-crcs_of rows)

length-offsets_of : (rows : List Row) → length (offsets_of rows) ≡ length rows
unfolding offsets_of
length-offsets_of [] = refl
length-offsets_of (r ∷ rows) = ap suc (length-offsets_of rows)

record Fields (rows : List Row) : Type 0 where
  ids : All (λ s. length s ≡ 20) (ids_of rows)
  crcs : All (λ n. n < 2 ^ 32) (crcs_of rows)
  offsets : All (λ n. n < 2 ^ 32) (offsets_of rows)

every-Fields : (rows : List Row) → All FitsRow rows → Fields rows
unfolding ids_of crcs_of offsets_of
every-Fields [] h = record { ids = tt; crcs = tt; offsets = tt }
every-Fields (r ∷ rows) ((i, c, o), h) =
    let rest = every-Fields rows h in
    record { ids = (i, rest.ids); crcs = (c, rest.crcs); offsets = (o, rest.offsets) }

module _ (t : PackIndex) (fits : Fits t) where
  counted : (n : ℕ) → n ≡ length t.rows → fanout_at 255 t.fanout ≡ n
  counted n e = fits.row_count ∙ sym e

  read_tables-written :
      (rest : Bytes)
      → read_tables t.fanout (
          write_many (λ s. s) (ids_of t.rows)
          ++ (write_many be32 (crcs_of t.rows)
              ++ (write_many be32 (offsets_of t.rows)
                  ++ (write_many be64 t.eight_byte_offsets ++ rest))))
        ≡ some t
  unfolding read_tables then_read
  read_tables-written rest =
      let f = every-Fields t.rows fits.row_fields in
      rw
        (
          read_many-write_many (λ s. s) (read_bytes 20) (λ s. length s ≡ 20)
              (λ s u e. read_bytes-append s u 20 e) (ids_of t.rows) (fanout_at 255 t.fanout)
              (write_many be32 (crcs_of t.rows)
                ++ (write_many be32 (offsets_of t.rows)
                    ++ (write_many be64 t.eight_byte_offsets ++ rest)))
              (counted (length (ids_of t.rows)) (length-ids_of t.rows)) f.ids,
          read_many-write_many be32 read_word (λ n. n < 2 ^ 32) read_word-be32 (crcs_of t.rows)
              (fanout_at 255 t.fanout)
              (write_many be32 (offsets_of t.rows)
                ++ (write_many be64 t.eight_byte_offsets ++ rest))
              (counted (length (crcs_of t.rows)) (length-crcs_of t.rows)) f.crcs,
          read_many-write_many be32 read_word (λ n. n < 2 ^ 32) read_word-be32 (offsets_of t.rows)
              (fanout_at 255 t.fanout) (write_many be64 t.eight_byte_offsets ++ rest)
              (counted (length (offsets_of t.rows)) (length-offsets_of t.rows)) f.offsets,
        )
        (λ i. some (record t {
          rows = rows_of_lem t.rows i;
          eight_byte_offsets =
              read_longs-write_many (offsets_of t.rows) t.eight_byte_offsets rest fits.longs
                fits.long_words i;
        }))

-- A pack index that is written with its trailer or without is read back, if its magic has four
-- bytes, its numbers and ids fit their fields, its fanout table has 256 elements of which the last
-- counts the rows, and it has an eight byte offset for each row with bit 31 set.
pub read_pack_index-write_pack_index :
    (with_trailer : Bool) (f : PackIndexFile)
    → length f.magic ≡ 4
    → f.version < 2 ^ 32
    → Fits f.tables
    → read_pack_index (write_pack_index with_trailer f) ≡ some f.tables
unfolding read_pack_index write_pack_index then_read
read_pack_index-write_pack_index with_trailer f m v fits =
    rw
      (
        read_bytes-append f.magic (be32 f.version ++ (write_many be32 f.tables.fanout ++ tail)) 4 m,
        read_word-be32 f.version (write_many be32 f.tables.fanout ++ tail) v,
        read_many-write_many be32 read_word (λ n. n < 2 ^ 32) read_word-be32 f.tables.fanout 256
            tail (sym fits.fanout_length) fits.fanout_words,
      )
      (read_tables-written f.tables fits (f.packfile ++ (if with_trailer then f.idx_file else [])))
  where
    tail : Bytes
    tail =
        write_many (λ s. s) (ids_of f.tables.rows)
        ++ (write_many be32 (crcs_of f.tables.rows)
            ++ (write_many be32 (offsets_of f.tables.rows)
                ++ (write_many be64 f.tables.eight_byte_offsets
                    ++ (f.packfile ++ (if with_trailer then f.idx_file else [])))))
