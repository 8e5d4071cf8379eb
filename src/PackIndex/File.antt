-- ===== src/PackIndex/File.antt =====
-- git/indexpack.go: the file of a pack index, as `writeIndex` writes it and `getPackFileObject` reads
-- it.
use dgit.Prelude.{
  ℕ, zero, suc, ◌^◌, Bool, true, false, List, [], ◌∷◌, ◌++◌, map, Bytes, be32, be64, number, ltb,
  ◌==◌, if◌then◌else◌, not, bit_and, length, take, drop, Option, none, some,
}
use dgit.PackIndex.{Row, PackIndex, fanout_at}
use dgit.PackIndex.Search.{Located, locate}

-- The tables with what stands before and behind them.
pub record PackIndexFile : Type 0 where
  pub magic : Bytes
  pub version : ℕ
  pub tables : PackIndex
  pub packfile : Bytes
  pub idx_file : Bytes

unfoldable pub write_many {ℓ} : {A : Type ℓ} → (A → Bytes) → List A → Bytes
write_many f [] = []
write_many f (x ∷ xs) = f x ++ write_many f xs

unfoldable pub ids_of : List Row → List Bytes
ids_of = map (λ (r : Row). r.sha1)

unfoldable pub crcs_of : List Row → List ℕ
crcs_of = map (λ (r : Row). r.crc32)

unfoldable pub offsets_of : List Row → List ℕ
offsets_of = map (λ (r : Row). r.offset)

unfoldable pub write_pack_index : Bool → PackIndexFile → Bytes
write_pack_index with_trailer f =
    f.magic
    ++ (be32 f.version
        ++ (write_many be32 f.tables.fanout
            ++ (write_many (λ s. s) (ids_of f.tables.rows)
                ++ (write_many be32 (crcs_of f.tables.rows)
                    ++ (write_many be32 (offsets_of f.tables.rows)
                        ++ (write_many be64 f.tables.eight_byte_offsets
                            ++ (f.packfile ++ (if with_trailer then f.idx_file else []))))))))

-- `binary.Read`: `none` is its error.
unfoldable pub read_bytes : ℕ → Bytes → Option (Bytes × Bytes)
read_bytes n s = if ltb (length s) n then none else some (take n s, drop n s)

unfoldable pub read_word : Bytes → Option (ℕ × Bytes)
read_word s = if ltb (length s) 4 then none else some (number 4 s, drop 4 s)

module _ {ℓ} {A : Type ℓ} where
  unfoldable pub read_many : (Bytes → Option (A × Bytes)) → ℕ → Bytes → Option (List A × Bytes)
  read_many p zero s = some ([], s)
  read_many p (suc n) s = elim (p s) [
    | none ↦ none
    | some (x, t) ↦ elim (read_many p n t) [ none ↦ none | some (xs, u) ↦ some (x ∷ xs, u) ]
  ]

  unfoldable pub then_read {κ} :
      {B : Type κ} → Option (A × Bytes) → (A → Bytes → Option B) → Option B
  then_read none f = none
  then_read (some (x, s)) f = f x s

-- The eight byte offsets, where an error leaves 0.
unfoldable pub read_long : Bytes → ℕ × Bytes
read_long s = if ltb (length s) 8 then (0, []) else (number 8 s, drop 8 s)

unfoldable pub is_long : ℕ → Bool
is_long offset = not (bit_and offset (2 ^ 31) == 0)

unfoldable pub read_longs : List ℕ → Bytes → List ℕ
read_longs [] s = []
read_longs (o ∷ os) s = elim (is_long o) [
  | true ↦ (read_long s).0 ∷ read_longs os (read_long s).1
  | false ↦ read_longs os s
]

-- The three tables have as many elements each as the fanout table says.
unfoldable pub rows_of : List Bytes → List ℕ → List ℕ → List Row
rows_of (s ∷ ids) (c ∷ crcs) (o ∷ offsets) =
    record { sha1 = s; crc32 = c; offset = o } ∷ rows_of ids crcs offsets
rows_of _ _ _ = []

unfoldable pub read_tables : List ℕ → Bytes → Option PackIndex
read_tables fanout s = then_read (read_many (read_bytes 20) (fanout_at 255 fanout) s) λ ids t.
    then_read (read_many read_word (fanout_at 255 fanout) t) λ crcs u.
      then_read (read_many read_word (fanout_at 255 fanout) u) λ offsets v. some (record {
        fanout = fanout;
        rows = rows_of ids crcs offsets;
        eight_byte_offsets = read_longs offsets v;
      })

unfoldable pub read_pack_index : Bytes → Option PackIndex
read_pack_index s = then_read (read_bytes 4 s) λ magic t.
    then_read (read_word t)
      λ version u. then_read (read_many read_word 256 u) λ fanout v. read_tables fanout v

-- `getPackFileObject` up to the offset of the object in the pack file.
unfoldable pub locate_in_file : Bytes → Bytes → Option Located
locate_in_file s file = elim (read_pack_index file) [ none ↦ none | some idx ↦ some (locate idx s) ]
