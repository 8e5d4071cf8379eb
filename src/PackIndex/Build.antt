-- ===== src/PackIndex/Build.antt =====
-- git/indexpack.go: how `IndexPack` builds an index, for objects that come one after the other
-- with their ids.
use dgit.Prelude.{
  ℕ, zero, suc, ◌+◌, ◌%◌, ◌^◌, Bool, true, false, List, [], ◌∷◌, ◌++◌, Bytes, ltb, if◌then◌else◌,
  bit_or, length, take, drop,
}
use dgit.PackIndex.{Row, PackIndex, first, fanout_at}

pub record PackObject : Type 0 where
  pub location : ℕ
  pub crc32 : ℕ
  pub oid : Bytes

unfoldable pub replicate {ℓ} : {A : Type ℓ} → ℕ → A → List A
replicate zero x = []
replicate (suc n) x = x ∷ replicate n x

abbrev pub zero_row : Row
zero_row = record { sha1 = replicate 20 0; crc32 = 0; offset = 0 }

-- The index before the first object of `n`.
unfoldable pub init_index : ℕ → PackIndex
init_index n = record {
  fanout = replicate 256 0;
  rows = replicate n zero_row;
  eight_byte_offsets = [];
}

-- An assignment to row `i`, which is below the number of objects.
unfoldable pub set_row : ℕ → (Row → Row) → List Row → List Row
set_row i f [] = []
set_row zero f (r ∷ rows) = f r ∷ rows
set_row (suc i) f (r ∷ rows) = r ∷ set_row i f rows

-- The loop of `updateFanout`, from `j` on.
unfoldable pub bump : ℕ → List ℕ → List ℕ
bump j [] = []
bump zero (x ∷ xs) = ((x + 1) % 2 ^ 32) ∷ bump zero xs
bump (suc j) (x ∷ xs) = x ∷ bump j xs

unfoldable pub update_fanout : ℕ → Bytes → PackIndex → PackIndex
update_fanout i val idx = record idx {
  fanout = bump (first val) idx.fanout;
  rows = set_row i (λ r. record r { sha1 = val }) idx.rows;
}

-- The four byte offset of a location, and the eight byte offsets behind it.
unfoldable pub new_offset : ℕ → List ℕ → ℕ
new_offset location eight =
    if ltb location (2 ^ 31) then location % 2 ^ 32 else bit_or (length eight % 2 ^ 32) (2 ^ 31)

unfoldable pub new_eight : ℕ → List ℕ → List ℕ
new_eight location eight =
    if ltb location (2 ^ 31) then eight else eight ++ ((location % 2 ^ 64) ∷ [])

unfoldable pub store_location : ℕ → ℕ → PackIndex → PackIndex
store_location i location idx = record idx {
  rows = set_row i (λ r. record r { offset = new_offset location idx.eight_byte_offsets }) idx.rows;
  eight_byte_offsets = new_eight location idx.eight_byte_offsets;
}

unfoldable pub store_crc32 : ℕ → ℕ → PackIndex → PackIndex
store_crc32 i crc idx = record idx { rows = set_row i (λ r. record r { crc32 = crc }) idx.rows }

unfoldable pub add_object : ℕ → PackObject → PackIndex → PackIndex
add_object i o idx = store_crc32 i o.crc32 (update_fanout i o.oid (store_location i o.location idx))

unfoldable pub add_objects : ℕ → List PackObject → PackIndex → PackIndex
add_objects i [] idx = idx
add_objects i (o ∷ objects) idx = add_objects (i + 1) objects (add_object i o idx)

-- The loop of `Less`.
unfoldable pub less_id : Bytes → Bytes → Bool
less_id [] t = false
less_id (x ∷ s) [] = false
less_id (x ∷ s) (y ∷ t) = if ltb x y then true else if ltb y x then false else less_id s t

unfoldable pub insert_row : Row → List Row → List Row
insert_row r [] = r ∷ []
insert_row r (x ∷ rows) = if less_id r.sha1 x.sha1 then r ∷ (x ∷ rows) else x ∷ insert_row r rows

-- `sort.Sort` with `Less` and `Swap`: among rows of different ids there is one sorted order.
unfoldable pub sort_rows : List Row → List Row
sort_rows [] = []
sort_rows (r ∷ rows) = insert_row r (sort_rows rows)

-- `sort.Sort(indexfile)`, over the first `Len()` rows.
unfoldable pub sort_index : PackIndex → PackIndex
sort_index idx =
    let n : ℕ = fanout_at 255 idx.fanout in
    record idx { rows = sort_rows (take n idx.rows) ++ drop n idx.rows }

unfoldable pub index_pack : List PackObject → PackIndex
index_pack objects = sort_index (add_objects 0 objects (init_index (length objects)))
