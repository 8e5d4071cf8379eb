-- ===== src/PackIndex/Stored.antt =====
-- git/indexpack.go: the index that `IndexPack` builds, through its file.
use dgit.Prelude.{
  ℕ, zero, suc, ◌+◌, ◌%◌, ◌^◌, ◌≤◌, ◌<◌, ◌≡◌, inl, inr, refl, sym, ap, ◌∙◌, subst, Bool, true,
  false, List, [], ◌∷◌, Bytes, ltb, bit_or, length, length-append, All-append, Bool-cases, Option,
  some, All, if◌then◌else◌, arith,
}
use dgit.Prelude.Bits.{bit_or-shifted, bit_and-shifted}
use dgit.PackIndex.{Row, PackIndex, first}
use dgit.PackIndex.Build.{
  PackObject, replicate, bump, new_offset, new_eight, less_id, insert_row, sort_rows, index_pack,
}
use dgit.PackIndex.Tables.{rows_from, eight_from, bumps, length-rows_from}
use dgit.PackIndex.Sorted.{All-sort_rows, length-sort_rows, length-replicate, fanout_at-count}
use dgit.PackIndex.Indexed.{holds, At, count_all, AllIds, index_pack-tables, locate-index_pack}
use dgit.PackIndex.Offsets.{length-new_eight}
use dgit.PackIndex.Search.{Located, locate}
use dgit.PackIndex.File.{offsets_of, write_pack_index, is_long, read_pack_index, locate_in_file}
use dgit.PackIndex.FileTrip.{long_count, FitsRow, Fits, read_pack_index-write_pack_index}

-- What the pack and the hash give for each object.
pub record FitsObject (o : PackObject) : Type 0 where
  pub id : length o.oid ≡ 20
  pub byte : first o.oid < 256
  pub location : o.location < 2 ^ 64
  pub crc : o.crc32 < 2 ^ 32

length-bump : (j : ℕ) (xs : List ℕ) → length (bump j xs) ≡ length xs
unfolding bump
length-bump j [] = refl
length-bump zero (x ∷ xs) = ap suc (length-bump zero xs)
length-bump (suc j) (x ∷ xs) = ap suc (length-bump j xs)

bump_words : (j : ℕ) (xs : List ℕ) → All (λ n. n < 2 ^ 32) xs → All (λ n. n < 2 ^ 32) (bump j xs)
unfolding bump
bump_words j [] h = tt
bump_words zero (x ∷ xs) (h, hs) = (omega arith, bump_words zero xs hs)
bump_words (suc j) (x ∷ xs) (h, hs) = (h, bump_words j xs hs)

bumps_words :
    (xs : List ℕ) (os : List PackObject)
    → All (λ n. n < 2 ^ 32) xs
    → All (λ n. n < 2 ^ 32) (bumps xs os)
bumps_words xs [] h = h
bumps_words xs (o ∷ os) h = bumps_words (bump (first o.oid) xs) os (bump_words (first o.oid) xs h)

length-bumps : (xs : List ℕ) (os : List PackObject) → length (bumps xs os) ≡ length xs
length-bumps xs [] = refl
length-bumps xs (o ∷ os) = length-bumps (bump (first o.oid) xs) os ∙ length-bump (first o.oid) xs

zeros_words : (n : ℕ) → All (λ k. k < 2 ^ 32) (replicate n 0)
unfolding replicate
zeros_words zero = tt
zeros_words (suc n) = (omega arith, zeros_words n)

small_short : (n : ℕ) → n < 2 ^ 31 → is_long n ≡ false
unfolding is_long
small_short n h = ground (arith, bit_and-shifted 31 0 n 1 h)

large_long : (n : ℕ) → n < 2 ^ 31 → is_long (n + 2 ^ 31) ≡ true
unfolding is_long
large_long n h = ground (arith, bit_and-shifted 31 1 n 1 h)

large_offset :
    (location : ℕ) (eight : List ℕ)
    → length eight < 2 ^ 31
    → ltb location (2 ^ 31) ≡ false
    → new_offset location eight ≡ length eight + 2 ^ 31
unfolding new_offset
large_offset location eight l n =
    let small : length eight % 2 ^ 32 ≡ length eight = omega arith in
    rw (n, new_offset)
      (omega (arith, bit_or-shifted 31 (length eight) 1 l, ap (λ t. bit_or t (2 ^ 31)) small))

new_offset_word :
    (location : ℕ) (eight : List ℕ) → length eight < 2 ^ 31 → new_offset location eight < 2 ^ 32
unfolding new_offset
new_offset_word location eight l = elim (Bool-cases (ltb location (2 ^ 31))) [
  | inl y ↦ rw (y, new_offset) (omega arith)
  | inr n ↦ omega (arith, large_offset location eight l n)
]

-- One more row and its eight byte offset, if it has one.
long_step :
    (location : ℕ) (eight : List ℕ) (k : ℕ)
    → length eight < 2 ^ 31
    → (if is_long (new_offset location eight) then suc k else k) + length eight
      ≡ k + length (new_eight location eight)
unfolding new_eight new_offset
long_step location eight k l = elim (Bool-cases (ltb location (2 ^ 31))) [
  | inl y ↦
      let same : new_offset location eight ≡ location = rw (y, new_offset) (ground arith) in
      let short : is_long (new_offset location eight) ≡ false =
        ap is_long same ∙ small_short location (ground arith) in
      let kept : length (new_eight location eight) ≡ length eight = rw (y, new_eight) refl in
      ground (arith, kept)
  | inr n ↦
      let long : is_long (new_offset location eight) ≡ true =
        ap is_long (large_offset location eight l n) ∙ large_long (length eight) l in
      let more : length (new_eight location eight) ≡ length eight + 1 =
        rw (n, new_eight) (length-append eight ((location % 2 ^ 64) ∷ [])) in
      ground (arith, more)
]

long_count-rows_from :
    (os : List PackObject) (eight : List ℕ)
    → length eight + length os ≤ 2 ^ 31
    → long_count (offsets_of (rows_from eight os)) + length eight ≡ length (eight_from eight os)
unfolding offsets_of
long_count-rows_from [] eight l = omega arith
long_count-rows_from (o ∷ os) eight l =
    let rest : List ℕ = new_eight o.location eight in
    let k : ℕ = long_count (offsets_of (rows_from rest os)) in
    let fits : length rest + length os ≤ 2 ^ 31 =
      omega (arith, l, length-new_eight o.location eight) in
    long_step o.location eight k (omega (arith, l)) ∙ long_count-rows_from os rest fits

long_count-insert_row :
    (r : Row) (rows : List Row)
    → long_count (offsets_of (insert_row r rows)) ≡ long_count (offsets_of (r ∷ rows))
unfolding insert_row offsets_of
long_count-insert_row r [] = refl
long_count-insert_row r (x ∷ rows) = elim (Bool-cases (less_id r.sha1 x.sha1)) [
  | inl y ↦ rw (y, insert_row) refl
  | inr n ↦ rw (n, insert_row) (ground (arith, long_count-insert_row r rows))
]

long_count-sort_rows :
    (rows : List Row) → long_count (offsets_of (sort_rows rows)) ≡ long_count (offsets_of rows)
unfolding sort_rows offsets_of
long_count-sort_rows [] = refl
long_count-sort_rows (r ∷ rows) =
    long_count-insert_row r (sort_rows rows)
    ∙ ap (λ k. if is_long r.offset then suc k else k) (long_count-sort_rows rows)

rows_from-FitsRow :
    (os : List PackObject) (eight : List ℕ)
    → All FitsObject os
    → length eight + length os ≤ 2 ^ 31
    → All FitsRow (rows_from eight os)
rows_from-FitsRow [] eight h l = tt
rows_from-FitsRow (o ∷ os) eight (h, hs) l = (
  (h.id, h.crc, new_offset_word o.location eight (omega (arith, l))),
  rows_from-FitsRow os (new_eight o.location eight) hs
      (omega (arith, l, length-new_eight o.location eight)),
)

eight_from_words :
    (os : List PackObject) (eight : List ℕ)
    → All (λ n. n < 2 ^ 64) eight
    → All (λ n. n < 2 ^ 64) (eight_from eight os)
unfolding new_eight
eight_from_words [] eight h = h
eight_from_words (o ∷ os) eight h =
    eight_from_words os (new_eight o.location eight) (grown o.location)
  where
    grown : (location : ℕ) → All (λ n. n < 2 ^ 64) (new_eight location eight)
    grown location = elim (Bool-cases (ltb location (2 ^ 31))) [
      | inl y ↦ rw (y, new_eight) h
      | inr n ↦ rw (n, new_eight) (All-append _ eight _ h (omega arith, tt))
    ]

ids_of_objects : (os : List PackObject) → All FitsObject os → AllIds os
ids_of_objects [] h = tt
ids_of_objects (o ∷ os) (h, hs) = ((omega (arith, h.id), h.byte), ids_of_objects os hs)

locations_of_objects :
    (os : List PackObject) → All FitsObject os → All (λ (o : PackObject). o.location < 2 ^ 64) os
locations_of_objects [] h = tt
locations_of_objects (o ∷ os) (h, hs) = (h.location, locations_of_objects os hs)

index_pack-Fits :
    (os : List PackObject) → All FitsObject os → length os ≤ 2 ^ 31 → Fits (index_pack os)
index_pack-Fits os h l = subst Fits (sym (index_pack-tables os ids (omega (arith, l)))) (record {
  fanout_length = length-bumps (replicate 256 0) os ∙ length-replicate 256;
  fanout_words = bumps_words (replicate 256 0) os (zeros_words 256);
  row_count =
      fanout_at-count 255 os (omega arith) (omega (arith, l))
      ∙ count_all [] os ids
      ∙ sym (length-sort_rows (rows_from [] os) ∙ length-rows_from [] os);
  row_fields =
      All-sort_rows FitsRow (rows_from [] os) (rows_from-FitsRow os [] h (omega (arith, l)));
  longs =
      long_count-sort_rows (rows_from [] os)
      ∙ (let e = long_count-rows_from os [] (omega (arith, l)) in omega (arith, e));
  long_words = eight_from_words os [] tt;
})
  where
    ids : AllIds os
    ids = ids_of_objects os h

read_file :
    (s file : Bytes) {idx : PackIndex}
    → read_pack_index file ≡ some idx
    → locate_in_file s file ≡ some (locate idx s)
unfolding locate_in_file
read_file s file e = rw (e, locate_in_file) refl

-- The file is read, and one of the objects has the id and lies where the search says.
pub record FoundAt (os : List PackObject) (s : Bytes) (r : Option Located) : Type 0 where
  pub place : Located
  pub read : r ≡ some place
  pub right : At os s place

-- Through the file: for a pack of 1 to 2^31 objects with ids of 20 bytes, locations below 2^64 and
-- check sums below 2^32, the index that is built, written with its trailer or without, and read back by `GetObject` leads
-- every id that objects have to the location of one of them.
pub locate_in_file-write_pack_index :
    (os : List PackObject) (s magic packfile idx_file : Bytes) (version : ℕ) (with_trailer : Bool)
    → All FitsObject os
    → 0 < length os
    → length os ≤ 2 ^ 31
    → first s < 256
    → length magic ≡ 4
    → version < 2 ^ 32
    → holds s os ≡ true
    → FoundAt os s (
        locate_in_file s (
          write_pack_index with_trailer (record {
            magic = magic;
            version = version;
            tables = index_pack os;
            packfile = packfile;
            idx_file = idx_file;
          })))
locate_in_file-write_pack_index os s magic packfile idx_file version with_trailer h n l b m v held =
    record {
      place = locate (index_pack os) s;
      read =
          read_file s _
            (read_pack_index-write_pack_index with_trailer _ m v (index_pack-Fits os h l));
      right = locate-index_pack os (ids_of_objects os h) (locations_of_objects os h) n l s b held;
    }
