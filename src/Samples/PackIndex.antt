-- ===== src/Samples/PackIndex.antt =====
-- A pack of three objects, one of which lies behind 2^31.
use dgit.Prelude.{◌+◌, ◌^◌, ◌≡◌, refl, false, List, [], ◌∷◌, bytes_eq, some, arith}
use dgit.PackIndex.{element, first, fanout_at}
use dgit.PackIndex.Build.{
  PackObject, index_pack, replicate, init_index, set_row, bump, update_fanout, new_offset,
  new_eight, store_location, store_crc32, add_object, add_objects, less_id, insert_row, sort_rows,
  sort_index,
}
use dgit.PackIndex.Search.{start_index, has_object, find_down, offset_of, locate, at}
use dgit.PackIndex.Indexed.{holds, has_object-index_pack}
use dgit.PackIndex.Cached.{cached_offset, cached_offset-new_offset}

abbrev far : PackObject
far = record { location = 2 ^ 31 + 5; crc32 = 1; oid = 9 ∷ 1 ∷ [] }

abbrev near : PackObject
near = record { location = 12; crc32 = 2; oid = 9 ∷ 0 ∷ [] }

abbrev zero_id : PackObject
zero_id = record { location = 70; crc32 = 3; oid = 0 ∷ 7 ∷ [] }

abbrev objects : List PackObject
objects = far ∷ near ∷ zero_id ∷ []

locate_far : locate (index_pack objects) (9 ∷ 1 ∷ []) ≡ at (2 ^ 31 + 5)
unfolding locate offset_of find_down start_index fanout_at element first index_pack sort_index
    sort_rows insert_row less_id add_objects add_object store_crc32 store_location new_eight
    new_offset update_fanout bump set_row init_index replicate bytes_eq
locate_far = refl

has_object-index_pack_example : has_object (index_pack objects) (9 ∷ 2 ∷ []) ≡ some false
unfolding holds first bytes_eq
has_object-index_pack_example =
    has_object-index_pack objects
      ((omega arith, omega arith), ((omega arith, omega arith), ((omega arith, omega arith), tt)))
      (omega arith, (omega arith, (omega arith, tt))) (omega arith) (omega arith) (9 ∷ 2 ∷ [])
      (omega arith)

cached_offset-new_offset_example : cached_offset (new_offset (2 ^ 31 + 5) []) 7 ≡ 0
cached_offset-new_offset_example = cached_offset-new_offset (2 ^ 31 + 5) 7 [] (omega arith)
