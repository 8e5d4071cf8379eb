-- ===== src/Delta/Variable.antt =====
-- The sizes at the head of a delta: what `writeVarInt` writes, `readVariable` reads.
use dgit.Prelude.{
  ℕ, zero, suc, ◌+◌, ◌*◌, ◌/◌, ◌%◌, ◌^◌, ◌≤◌, ◌<◌, ◌≡◌, ap, ◌∙◌, Bool-cases, ◌∷◌, ◌++◌, Bytes, ltb,
  ltb-false→le, ltb→lt, inl, inr, arith, bit_or, some,
}
use dgit.Prelude.Bits.{bit_or-shifted, bit_and_mask, set_top_bit}
use dgit.Delta.Instruction.{put_uvarint_loop, write_var_int}
use dgit.Delta.Reader.{read_variable_loop, read_variable}
use native.Mathlib.Numerals.{towards_suc}
use native.Mathlib.Nat.{div-add-mod, mod-eq_of_lt}

-- One group of seven bits, or-ed in above what was read.
add_group :
    (val w i : ℕ)
    → val < 2 ^ (i * 7)
    → w < 128
    → val + w * 2 ^ (i * 7) < 2 ^ 64
    → bit_or val (w * 2 ^ (i * 7) % 2 ^ 64) ≡ val + w * 2 ^ (i * 7)
add_group val w i small hw fits =
    rw (mod-eq_of_lt {n = w * 2 ^ (i * 7)} {m = 2 ^ 64} (omega arith))
      (bit_or-shifted (i * 7) val w small)

next_shift : (i : ℕ) → 2 ^ ((i + 1) * 7) ≡ 128 * 2 ^ (i * 7)
next_shift i = shift (i * 7) ((i + 1) * 7) (omega arith)
  where
    shift : (s t : ℕ) → t ≡ s + 7 → 2 ^ t ≡ 128 * 2 ^ s
    shift s t e = rw e (simp towards_suc (omega arith))

split_group : (x p : ℕ) → x * p ≡ x % 128 * p + x / 128 * (128 * p)
split_group x p = omega (arith, ap (λ (t : ℕ). t * p) (div-add-mod x 128))

group_small : (val w p : ℕ) → val < p → w < 128 → val + w * p < 128 * p
group_small val w p h k = grind arith

last_byte :
    (x val i : ℕ) (rest : Bytes)
    → x < 128
    → val < 2 ^ (i * 7)
    → val + x * 2 ^ (i * 7) < 2 ^ 64
    → read_variable_loop (x % 256 ∷ rest) val i ≡ some (val + x * 2 ^ (i * 7), rest)
unfolding read_variable_loop
last_byte x val i rest hx small fits =
    ground (arith, bit_and_mask 7 (x % 256), add_group val x i small hx fits)

inner_byte :
    (x val i : ℕ) (rest : Bytes)
    → val < 2 ^ (i * 7)
    → val + x % 128 * 2 ^ (i * 7) < 2 ^ 64
    → read_variable_loop (bit_or (x % 256) 0x80 ∷ rest) val i
      ≡ read_variable_loop rest (val + x % 128 * 2 ^ (i * 7)) (i + 1)
unfolding read_variable_loop
inner_byte x val i rest small fits = ground (
  arith,
  set_top_bit (x % 256) (omega arith),
  bit_and_mask 7 (bit_or (x % 256) 0x80),
  add_group val (x % 128) i small (omega arith) fits,
)

read_variable_loop-put :
    (fuel x val i : ℕ) (rest : Bytes)
    → x ≤ fuel
    → val < 2 ^ (i * 7)
    → val + x * 2 ^ (i * 7) < 2 ^ 64
    → read_variable_loop (put_uvarint_loop fuel x ++ rest) val i
      ≡ some (val + x * 2 ^ (i * 7), rest)
unfolding put_uvarint_loop
read_variable_loop-put zero x val i rest h small fits =
    last_byte x val i rest (omega arith) small fits
read_variable_loop-put (suc fuel) x val i rest h small fits = elim (Bool-cases (ltb x 0x80)) [
  | inl last ↦ rw last (last_byte x val i rest (ltb→lt _ _ last) small fits)
  | inr more ↦ rw more (
      inner_byte x val i _ small (omega (arith, split_group x (2 ^ (i * 7))))
      ∙ read_variable_loop-put fuel (x / 2 ^ 7) (val + x % 128 * 2 ^ (i * 7)) (i + 1) rest
          (omega (arith, ltb-false→le _ _ more))
          (rw next_shift (group_small val (x % 128) (2 ^ (i * 7)) small (omega arith)))
          (rw next_shift (omega (arith, split_group x (2 ^ (i * 7)))))
      ∙ rw next_shift (ground (arith, split_group x (2 ^ (i * 7)))))
]

-- Every 64-bit size is read back, and what follows it is left in the stream.
pub read_variable-write_var_int :
    (val : ℕ) (rest : Bytes)
    → val < 2 ^ 64
    → read_variable (write_var_int val ++ rest) ≡ some (val, rest)
unfolding read_variable write_var_int
read_variable-write_var_int val rest h =
    read_variable_loop-put val val 0 0 rest (omega arith) (omega arith) (omega arith) ∙ ground arith
