-- ===== src/Samples/PackFile.antt =====
-- The index of a pack of two objects, one behind 2^31, through its file.
use dgit.Prelude.{◌+◌, ◌^◌, refl, true, List, [], ◌∷◌, Bytes, bytes_eq, arith}
use dgit.PackIndex.{first}
use dgit.PackIndex.Build.{PackObject, index_pack}
use dgit.PackIndex.Indexed.{holds}
use dgit.PackIndex.File.{write_pack_index, locate_in_file}
use dgit.PackIndex.Stored.{FitsObject, FoundAt, locate_in_file-write_pack_index}

abbrev id_of : Bytes → Bytes
id_of s =
    7
    ∷ (0
        ∷ (0
            ∷ (0
                ∷ (0
                    ∷ (0
                        ∷ (0
                            ∷ (0
                                ∷ (0
                                    ∷ (0
                                        ∷ (0 ∷ (0 ∷ (0 ∷ (0 ∷ (0 ∷ (0 ∷ (0 ∷ (0 ∷ s)))))))))))))))))

abbrev far : PackObject
far = record { location = 2 ^ 31 + 5; crc32 = 1; oid = id_of (1 ∷ (2 ∷ [])) }

abbrev near : PackObject
near = record { location = 12; crc32 = 2; oid = id_of (0 ∷ (9 ∷ [])) }

abbrev objects : List PackObject
objects = far ∷ (near ∷ [])

far_fits : FitsObject far
unfolding first
far_fits = record { id = refl; byte = omega arith; location = omega arith; crc = omega arith }

near_fits : FitsObject near
unfolding first
near_fits = record { id = refl; byte = omega arith; location = omega arith; crc = omega arith }

locate_in_file-write_pack_index_example : FoundAt objects (id_of (1 ∷ (2 ∷ []))) (
    locate_in_file (id_of (1 ∷ (2 ∷ []))) (
      write_pack_index true (record {
        magic = 255 ∷ (116 ∷ (79 ∷ (99 ∷ [])));
        version = 2;
        tables = index_pack objects;
        packfile = [];
        idx_file = [];
      })))
unfolding holds first bytes_eq
locate_in_file-write_pack_index_example =
    locate_in_file-write_pack_index objects (id_of (1 ∷ (2 ∷ []))) (255 ∷ (116 ∷ (79 ∷ (99 ∷ []))))
      [] [] 2 true (far_fits, (near_fits, tt)) (omega arith) (omega arith) (omega arith) refl
      (omega arith) refl
