-- ===== src/Packfile/DeltaEntry.antt =====
-- The header of a delta entry, with the reference to its base.
use dgit.Prelude.{
  ℕ, ◌^◌, ◌<◌, ◌≡◌, ◌++◌, Bytes, arith, length-append, take-append, drop-append, length, take, drop,
  some, false, ltb,
}
use dgit.Prelude.Integers.{pos, signed_small}
use dgit.Packfile.{
  write_variable, read_base, read_header_size, no_sha, obj_ref_delta, obj_ofs_delta,
}
use dgit.Packfile.Entry.{read_header_loop-write_variable}
use dgit.Packfile.Offset.{offset_bytes, read_delta_offset-offset_bytes}

-- A REF_DELTA header with a size below 2^64 is read back, with the 20 bytes of its base.
pub read_header_size-write_variable_ref :
    (v : ℕ) (base rest : Bytes)
    → length base ≡ 20
    → v < 2 ^ 64
    → read_header_size (write_variable v obj_ref_delta ++ (base ++ rest))
      ≡ some (record {
        entrytype = obj_ref_delta;
        size = v;
        ref_delta = base;
        offset = pos 0;
        dataread = write_variable v obj_ref_delta ++ base;
        rest = rest;
      })
unfolding read_header_size read_base
read_header_size-write_variable_ref v base rest h hv =
    let start : take 20 (base ++ rest) ≡ base = rw h at (take-append base rest) in
    let behind : drop 20 (base ++ rest) ≡ rest = rw h at (drop-append base rest) in
    let enough : ltb (length (base ++ rest)) 20 ≡ false = ground (arith, length-append base rest) in
    rw
      (
        read_header_loop-write_variable v obj_ref_delta (base ++ rest) (omega arith) hv,
        read_header_size,
      )
      (ground (arith, start, behind, enough))

-- An OFS_DELTA header with a size below 2^64 is read back, with the offset of its base below
-- 2^63 in git's format.
pub read_header_size-write_variable_ofs :
    (v n : ℕ) (rest : Bytes)
    → v < 2 ^ 64
    → n < 2 ^ 63
    → read_header_size (write_variable v obj_ofs_delta ++ (offset_bytes n ++ rest))
      ≡ some (record {
        entrytype = obj_ofs_delta;
        size = v;
        ref_delta = no_sha;
        offset = pos n;
        dataread = write_variable v obj_ofs_delta ++ offset_bytes n;
        rest = rest;
      })
unfolding read_header_size read_base
read_header_size-write_variable_ofs v n rest hv hn =
    rw
      (
        read_header_loop-write_variable v obj_ofs_delta (offset_bytes n ++ rest) (omega arith) hv,
        read_header_size,
      )
      (rw (read_delta_offset-offset_bytes n rest (omega arith), signed_small n hn))
