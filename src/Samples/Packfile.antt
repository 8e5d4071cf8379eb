-- ===== src/Samples/Packfile.antt =====
-- Headers of entries of a pack file, written and read.
use dgit.Prelude.{ℕ, ◌≡◌, ◌≢◌, refl, [], ◌∷◌, ◌++◌, Bytes, arith, some}
use dgit.Prelude.Integers.{pos}
use dgit.Packfile.{
  write_variable, write_variable_loop, read_header_size, read_delta_offset, delta_offset_loop,
  no_sha, obj_blob, obj_ref_delta, obj_ofs_delta,
}
use dgit.Packfile.Entry.{read_header_size-write_variable}
use dgit.Packfile.DeltaEntry.{
  read_header_size-write_variable_ref, read_header_size-write_variable_ofs,
}
use dgit.Packfile.Offset.{
  offset_bytes, read_delta_offset-offset_bytes, read_delta_offset-write_var_int_ne,
}
use dgit.Delta.Instruction.{write_var_int}

abbrev base : Bytes
base = 1 ∷ 2 ∷ 3 ∷ 4 ∷ 5 ∷ 6 ∷ 7 ∷ 8 ∷ 9 ∷ 10 ∷ 11 ∷ 12 ∷ 13 ∷ 14 ∷ 15 ∷ 16 ∷ 17 ∷ 18 ∷ 19 ∷ 20 ∷ []

write_variable_blob : write_variable 300 obj_blob ≡ 0xbc ∷ 0x12 ∷ []
unfolding write_variable write_variable_loop
write_variable_blob = refl

read_delta_offset_two : read_delta_offset (0x81 ∷ 0x00 ∷ []) ≡ some (256, 0x81 ∷ 0x00 ∷ [], [])
unfolding read_delta_offset delta_offset_loop
read_delta_offset_two = refl

read_header_size-write_variable_example :
    read_header_size (write_variable 300 obj_blob ++ (5 ∷ []))
    ≡ some (record {
      entrytype = obj_blob;
      size = 300;
      ref_delta = no_sha;
      offset = pos 0;
      dataread = write_variable 300 obj_blob;
      rest = 5 ∷ [];
    })
read_header_size-write_variable_example =
    read_header_size-write_variable 300 obj_blob (5 ∷ []) (omega arith) (omega arith) (omega arith)
      (omega arith)

read_header_size-write_variable_ref_example :
    read_header_size (write_variable 70 obj_ref_delta ++ (base ++ (9 ∷ [])))
    ≡ some (record {
      entrytype = obj_ref_delta;
      size = 70;
      ref_delta = base;
      offset = pos 0;
      dataread = write_variable 70 obj_ref_delta ++ base;
      rest = 9 ∷ [];
    })
read_header_size-write_variable_ref_example =
    read_header_size-write_variable_ref 70 base (9 ∷ []) refl (omega arith)

read_header_size-write_variable_ofs_example :
    read_header_size (write_variable 70 obj_ofs_delta ++ (offset_bytes 1000 ++ (9 ∷ [])))
    ≡ some (record {
      entrytype = obj_ofs_delta;
      size = 70;
      ref_delta = no_sha;
      offset = pos 1000;
      dataread = write_variable 70 obj_ofs_delta ++ offset_bytes 1000;
      rest = 9 ∷ [];
    })
read_header_size-write_variable_ofs_example =
    read_header_size-write_variable_ofs 70 1000 (9 ∷ []) (omega arith) (omega arith)

read_delta_offset-offset_bytes_example :
    read_delta_offset (offset_bytes 1000 ++ (9 ∷ [])) ≡ some (1000, offset_bytes 1000, 9 ∷ [])
read_delta_offset-offset_bytes_example = read_delta_offset-offset_bytes 1000 (9 ∷ []) (omega arith)

read_delta_offset-write_var_int_ne_example :
    (m : ℕ) × (read_delta_offset (write_var_int 1000 ++ (9 ∷ []))
      ≡ some (m, write_var_int 1000, 9 ∷ []))
    × (m ≢ 1000)
read_delta_offset-write_var_int_ne_example =
    read_delta_offset-write_var_int_ne 1000 (9 ∷ []) (omega arith) (omega arith)
