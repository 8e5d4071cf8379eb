-- ===== src/Delta/Instruction.antt =====
-- git/delta/calculator.go: the instructions of a delta and how they are written to the stream.
-- A `uint32` is a number below 2 ^ 32. The writer is a buffer in memory, which takes every write.
use dgit.Prelude.{
  ℕ, zero, suc, ◌/◌, ◌%◌, ◌^◌, Bool, false, not, ◌&&◌, List, [], ◌∷◌, ◌++◌, Bytes, ltb, ◌==◌,
  if◌then◌else◌, length, take, drop, bit_and, bit_or, bytes_eq,
}

pub data Instruction : Type 0 where
  insert : Bytes → Instruction
  copyinst : ℕ → ℕ → Instruction

-- `insert.equals` and `copyinst.equals`
unfoldable pub equals : Instruction → Instruction → Bool
equals (insert i) (insert i2) = bytes_eq i i2
equals (copyinst o l) (copyinst o2 l2) = o2 == o && l2 == l
equals (insert i) (copyinst o l) = false
equals (copyinst o l) (insert i) = false

-- The loop of `insert.write`, with fuel.
unfoldable pub write_insert_loop : ℕ → Bytes → Bytes
write_insert_loop zero remaining = []
write_insert_loop (suc fuel) remaining =
    let long = 127 ∷ (take 127 remaining ++ write_insert_loop fuel (drop 127 remaining)) in
    if length remaining == 0
    then []
    else if ltb (length remaining) 128
    then length remaining ∷ remaining
    else long

unfoldable pub write_insert : Bytes → Bytes
write_insert i = write_insert_loop (length i) i

-- `if c { instbyte |= mask }`
unfoldable pub set_flag : Bool → ℕ → ℕ → ℕ
set_flag c mask instbyte = if c then bit_or instbyte mask else instbyte

unfoldable pub offset_flags : ℕ → ℕ → ℕ
offset_flags offset instbyte = set_flag (not (bit_and offset 0xff000000 == 0)) 0x08 (
    set_flag (not (bit_and offset 0xff0000 == 0)) 0x04 (
      set_flag (not (bit_and offset 0xff00 == 0)) 0x02
        (set_flag (not (bit_and offset 0xff == 0)) 0x01 instbyte)))

-- Nothing is set for a length above 0xffffff (a FIXME of the source), nor for 0x10000.
unfoldable pub length_flags : ℕ → ℕ → ℕ
length_flags len instbyte =
    if ltb 0xffffff len
    then instbyte
    else if len == 0x10000
    then instbyte
    else set_flag (not (bit_and len 0xff0000 == 0)) 0x40 (
        set_flag (not (bit_and len 0xff00 == 0)) 0x20
          (set_flag (not (bit_and len 0xff == 0)) 0x10 instbyte))

-- `byte(x >> k & 0xff)`
unfoldable pub byte_at : ℕ → ℕ → ℕ
byte_at k x = bit_and (x / 2 ^ k) 0xff % 256

-- `if val := …; val != 0 { buf.WriteByte(val) }`
unfoldable pub put_byte : ℕ → Bytes
put_byte val = if val == 0 then [] else val ∷ []

unfoldable pub write_copy : ℕ → ℕ → Bytes
write_copy offset len =
    length_flags len (offset_flags offset 0x80)
    ∷ (put_byte (byte_at 0 offset)
        ++ (put_byte (byte_at 8 offset)
            ++ (put_byte (byte_at 16 offset)
                ++ (put_byte (byte_at 24 offset)
                    ++ (if len == 0x10000
                        then []
                        else put_byte (byte_at 0 len)
                          ++ (put_byte (byte_at 8 len) ++ put_byte (byte_at 16 len)))))))

unfoldable pub write : Instruction → Bytes
write (insert i) = write_insert i
write (copyinst offset len) = write_copy offset len

unfoldable pub write_all : List Instruction → Bytes
write_all [] = []
write_all (i ∷ is) = write i ++ write_all is

-- `binary.PutUvarint` on a `uint64`. Each round divides by 128, so `x` rounds are enough.
unfoldable pub put_uvarint_loop : ℕ → ℕ → Bytes
put_uvarint_loop zero x = x % 256 ∷ []
put_uvarint_loop (suc fuel) x =
    let more = bit_or (x % 256) 0x80 ∷ put_uvarint_loop fuel (x / 2 ^ 7) in
    if ltb x 0x80 then x % 256 ∷ [] else more

unfoldable pub write_var_int : ℕ → Bytes
write_var_int val = put_uvarint_loop val val
