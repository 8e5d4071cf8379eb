-- ===== src/Delta/Operands.antt =====
-- A copy instruction that fits 24 bits of length and 32 of offset is read back with its operands.
mod FirstByte
use dgit.Prelude.{
  ℕ, zero, suc, ◌+◌, ◌*◌, ◌/◌, ◌%◌, ◌^◌, ◌≤◌, ◌<◌, ◌≡◌, ◌≢◌, refl, ap, sym, ◌∙◌, Bool, true, false,
  not, ◌&&◌, if◌then◌else◌, ◌==◌, ==_iff, ==-false→ne, Bool-cases, List, [], ◌∷◌, ◌++◌,
  append_assoc, Bytes, ltb, inl, inr, arith, bit_and, bit_or, Option, some,
}
use dgit.Prelude.Bits.{bit_or-shifted, bit_and_mask, bit_and-shifted, zero-bit_or}
use dgit.Delta.Instruction.{set_flag, offset_flags, length_flags, byte_at, put_byte, write_copy}
use dgit.Delta.Reader.{read_operand, copy_offset, copy_length, copy_operands}
use dgit.Delta.Operands.FirstByte.{
  instbyte, Tests, instbyte-Tests, byte_at-eq, test_0, test_8, test_16, test_24,
}

add_zero_times : (v p val : ℕ) → v ≡ 0 → val ≡ val + v * p
add_zero_times v p val e = grind arith

-- One operand byte, which is in the stream exactly if it is not 0.
read_operand-put_byte :
    (i mask k val v : ℕ) (rest : Bytes)
    → (bit_and i mask == 0) ≡ not (not (v == 0))
    → val < 2 ^ k
    → read_operand i mask k val (put_byte v ++ rest) ≡ some (val + v * 2 ^ k, rest)
unfolding read_operand put_byte
read_operand-put_byte i mask k val v rest test small = elim (Bool-cases (v == 0)) [
  | inl zero_byte ↦
      rw (test, zero_byte)
        (ap (λ (t : ℕ). some (t, rest)) (add_zero_times v (2 ^ k) val ((==_iff v 0).0 zero_byte)))
  | inr other ↦ rw (test, other) (ap (λ (t : ℕ). some (t, rest)) (bit_or-shifted k val v small))
]

-- No operand byte is read where the flag is not set.
read_operand_none :
    (i mask k val : ℕ) (rest : Bytes)
    → (bit_and i mask == 0) ≡ true
    → read_operand i mask k val rest ≡ some (val, rest)
unfolding read_operand
read_operand_none i mask k val rest test = rw test

-- The bytes of an offset of 32 bits and of a length of 24 bits.
abbrev offset_bytes : ℕ → Bytes → Bytes
offset_bytes o tail =
    put_byte (byte_at 0 o)
    ++ (put_byte (byte_at 8 o) ++ (put_byte (byte_at 16 o) ++ (put_byte (byte_at 24 o) ++ tail)))

abbrev length_bytes : ℕ → Bytes → Bytes
length_bytes l tail =
    put_byte (byte_at 0 l) ++ (put_byte (byte_at 8 l) ++ (put_byte (byte_at 16 l) ++ tail))

abbrev flag : ℕ → ℕ → Bool
flag k x = not (byte_at k x == 0)

-- The bytes add up.
offset_sum :
    (o : ℕ)
    → o < 2 ^ 32
    → byte_at 0 o + byte_at 8 o * 2 ^ 8 + byte_at 16 o * 2 ^ 16 + byte_at 24 o * 2 ^ 24 ≡ o
offset_sum o h = omega (arith, byte_at-eq 0 o, byte_at-eq 8 o, byte_at-eq 16 o, byte_at-eq 24 o)

length_sum : (l : ℕ) → l < 2 ^ 24 → byte_at 0 l + byte_at 8 l * 2 ^ 8 + byte_at 16 l * 2 ^ 16 ≡ l
length_sum l h = omega (arith, byte_at-eq 0 l, byte_at-eq 8 l, byte_at-eq 16 l)

byte_at-lt : (k x : ℕ) → byte_at k x < 256
byte_at-lt k x = omega (arith, byte_at-eq k x)

module _ (i : ℕ) (a b c d e f g : Bool) (tests : Tests i a b c d e f g) where
  copy_offset-bytes :
      (o : ℕ) (tail : Bytes)
      → o < 2 ^ 32
      → a ≡ flag 0 o
      → b ≡ flag 8 o
      → c ≡ flag 16 o
      → d ≡ flag 24 o
      → copy_offset i (offset_bytes o tail) ≡ some (o, tail)
  unfolding copy_offset
  copy_offset-bytes o tail fits ea eb ec ed =
      let v0 = byte_at 0 o in
      let v1 = v0 + byte_at 8 o * 2 ^ 8 in
      let v2 = v1 + byte_at 16 o * 2 ^ 16 in
      let s4 = put_byte (byte_at 24 o) ++ tail in
      let s3 = put_byte (byte_at 16 o) ++ s4 in
      let s2 = put_byte (byte_at 8 o) ++ s3 in
      ground (
        arith,
        offset_sum o fits,
        byte_at-lt 0 o,
        byte_at-lt 8 o,
        byte_at-lt 16 o,
        read_operand-put_byte i 0x01 0 0 (byte_at 0 o) s2 (cc (tests.t1, ea)),
        read_operand-put_byte i 0x02 8 v0 (byte_at 8 o) s3 (cc (tests.t2, eb)),
        read_operand-put_byte i 0x04 16 v1 (byte_at 16 o) s4 (cc (tests.t3, ec)),
        read_operand-put_byte i 0x08 24 v2 (byte_at 24 o) tail (cc (tests.t4, ed)),
      )

  copy_length-bytes :
      (l : ℕ) (tail : Bytes)
      → 0 < l
      → l < 2 ^ 24
      → e ≡ flag 0 l
      → f ≡ flag 8 l
      → g ≡ flag 16 l
      → copy_length i (length_bytes l tail) ≡ some (l, tail)
  unfolding copy_length
  copy_length-bytes l tail positive fits ee ef eg =
      let v0 = byte_at 0 l in
      let v1 = v0 + byte_at 8 l * 2 ^ 8 in
      let s3 = put_byte (byte_at 16 l) ++ tail in
      let s2 = put_byte (byte_at 8 l) ++ s3 in
      ground (
        arith,
        length_sum l fits,
        byte_at-lt 0 l,
        byte_at-lt 8 l,
        read_operand-put_byte i 0x10 0 0 (byte_at 0 l) s2 (cc (tests.t5, ee)),
        read_operand-put_byte i 0x20 8 v0 (byte_at 8 l) s3 (cc (tests.t6, ef)),
        read_operand-put_byte i 0x40 16 v1 (byte_at 16 l) tail (cc (tests.t7, eg)),
      )

  -- No length byte stands for 0x10000.
  copy_length_none :
      (tail : Bytes) → e ≡ false → f ≡ false → g ≡ false → copy_length i tail ≡ some (0x10000, tail)
  unfolding copy_length
  copy_length_none tail ee ef eg = ground (
    arith,
    read_operand_none i 0x10 0 0 tail (ground arith),
    read_operand_none i 0x20 8 0 tail (ground arith),
    read_operand_none i 0x40 16 0 tail (ground arith),
  )

copy_operands-bytes :
    (i o l : ℕ) (tail rest : Bytes)
    → copy_offset i (offset_bytes o tail) ≡ some (o, tail)
    → copy_length i tail ≡ some (l, rest)
    → copy_operands i (offset_bytes o tail) ≡ some (o, l, rest)
unfolding copy_operands
copy_operands-bytes i o l tail rest p q = rw (p, q)

-- The header that `write_copy` builds.
header-eq :
    (o l : ℕ)
    → l < 2 ^ 24
    → l ≢ 0x10000
    → length_flags l (offset_flags o 0x80)
      ≡ instbyte (flag 0 o) (flag 8 o) (flag 16 o) (flag 24 o) (flag 0 l) (flag 8 l) (flag 16 l)
unfolding length_flags offset_flags instbyte
header-eq o l fits ne =
    rw (test_0 o, test_8 o, test_16 o, test_24 o, test_0 l, test_8 l, test_16 l)
      (rw (no_ltb, no_eq))
  where
    no_ltb : ltb 0xffffff l ≡ false
    no_ltb = ground arith

    no_eq : (l == 0x10000) ≡ false
    no_eq = ground arith

header-eq_big :
    (o : ℕ)
    → length_flags 0x10000 (offset_flags o 0x80)
      ≡ instbyte (flag 0 o) (flag 8 o) (flag 16 o) (flag 24 o) false false false
unfolding length_flags offset_flags instbyte
header-eq_big o = rw (test_0 o, test_8 o, test_16 o, test_24 o)

-- A copy as it stands in the stream: a first byte of 128 or more, and operands that are read back.
pub record Reads (o l : ℕ) (rest : Bytes) : Type 0 where
  pub header : ℕ
  pub body : Bytes
  pub written : write_copy o l ++ rest ≡ header ∷ body
  pub above : 127 < header
  pub operands : copy_operands header body ≡ some (o, l, rest)

small_Reads :
    (o l : ℕ) (rest : Bytes)
    → o < 2 ^ 32
    → 0 < l
    → l < 2 ^ 24
    → (l == 0x10000) ≡ false
    → Reads o l rest
unfolding write_copy
small_Reads o l rest ho lo hl other =
    let tests =
      instbyte-Tests (flag 0 o) (flag 8 o) (flag 16 o) (flag 24 o) (flag 0 l) (flag 8 l)
        (flag 16 l) in
    let i =
      instbyte (flag 0 o) (flag 8 o) (flag 16 o) (flag 24 o) (flag 0 l) (flag 8 l) (flag 16 l) in
    let tail = length_bytes l rest in
    record {
      header = i;
      body = offset_bytes o tail;
      written = rw (header-eq o l hl (==-false→ne l 0x10000 other), other) (simp append_assoc);
      above = tests.above;
      operands =
          copy_operands-bytes i o l tail rest
            (copy_offset-bytes i _ _ _ _ _ _ _ tests o tail ho refl refl refl refl)
            (copy_length-bytes i _ _ _ _ _ _ _ tests l rest lo hl refl refl refl);
    }

big_Reads : (o : ℕ) (rest : Bytes) → o < 2 ^ 32 → Reads o 0x10000 rest
unfolding write_copy
big_Reads o rest ho =
    let tests = instbyte-Tests (flag 0 o) (flag 8 o) (flag 16 o) (flag 24 o) false false false in
    let i = instbyte (flag 0 o) (flag 8 o) (flag 16 o) (flag 24 o) false false false in
    record {
      header = i;
      body = offset_bytes o rest;
      written = rw (header-eq_big o) (simp append_assoc);
      above = tests.above;
      operands =
          copy_operands-bytes i o 0x10000 rest rest
            (copy_offset-bytes i _ _ _ _ _ _ _ tests o rest ho refl refl refl refl)
            (copy_length_none i _ _ _ _ _ _ _ tests rest refl refl refl);
    }

pub write_copy-Reads : (o l : ℕ) (rest : Bytes) → o < 2 ^ 32 → 0 < l → l < 2 ^ 24 → Reads o l rest
write_copy-Reads o l rest ho lo hl = elim (Bool-cases (l == 0x10000)) [
  | inl big ↦ rw ((==_iff l 0x10000).0 big) (big_Reads o rest ho)
  | inr other ↦ small_Reads o l rest ho lo hl other
]
