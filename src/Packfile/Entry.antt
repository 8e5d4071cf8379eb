-- ===== src/Packfile/Entry.antt =====
-- An entry header that `WriteVariable` wrote is read back by `ReadHeaderSize`.
use dgit.Prelude.{
  ℕ, zero, suc, ◌+◌, ◌-◌, ◌*◌, ◌/◌, ◌%◌, ◌^◌, ◌≤◌, ◌<◌, ◌≡◌, ◌≢◌, refl, ap, ◌∙◌, [], ◌∷◌, ◌++◌,
  append_assoc, Bytes, ◌==◌, ==_iff, ==-false→ne, Bool-cases, inl, inr, arith, bit_and, bit_or,
  some,
}
use dgit.Prelude.Bits.{bit_and_mask, set_top_bit, bit_or-shifted, bit_or_nibbles, middle_bits}
use native.Mathlib.Numerals.{towards_suc}
use native.Mathlib.Nat.{div-add-mod, mod-eq_of_lt}
use dgit.Prelude.Integers.{pos}
use dgit.Packfile.{
  write_variable_loop, write_variable, read_header_loop, read_base, read_header_size, no_sha,
  obj_ref_delta, obj_ofs_delta,
}

-- The first byte: the type above the low four bits of the size.
first_byte :
    (typ v : ℕ) → typ < 8 → bit_or (typ * 2 ^ 4 % 256) (bit_and v 0xf % 256) ≡ typ * 16 + v % 16
first_byte typ v h =
    nibbles (typ * 16 + v % 16) (omega arith) (omega arith) (omega (arith, bit_and_mask 4 v))
  where
    nibbles :
        (x : ℕ)
        → x < 256
        → x / 16 * 16 ≡ typ * 16 % 256
        → x % 16 ≡ bit_and v 0xf % 256
        → bit_or (typ * 16 % 256) (bit_and v 0xf % 256) ≡ x
    nibbles x k e f = rw (← e, ← f) (bit_or_nibbles x k)

shift_at : ℕ → ℕ
shift_at i = 2 ^ (4 + (i - 1) * 7)

shift_at-suc : (i : ℕ) → 0 < i → shift_at (i + 1) ≡ 128 * shift_at i
unfolding shift_at
shift_at-suc i h = shift (4 + (i - 1) * 7) (4 + (i + 1 - 1) * 7) (omega arith)
  where
    shift : (s t : ℕ) → t ≡ s + 7 → 2 ^ t ≡ 128 * 2 ^ s
    shift s t e = rw e (simp towards_suc (omega arith))

-- One group, or-ed in above the size so far.
add_group :
    (size w i : ℕ)
    → size < shift_at i
    → size + w * shift_at i < 2 ^ 64
    → bit_or size (w * shift_at i % 2 ^ 64) ≡ size + w * shift_at i
unfolding shift_at
add_group size w i small fits =
    rw (mod-eq_of_lt {n = w * 2 ^ (4 + (i - 1) * 7)} {m = 2 ^ 64} (omega arith))
      (bit_or-shifted (4 + (i - 1) * 7) size w small)

group_small : (size w p : ℕ) → size < p → w < 128 → size + w * p < 128 * p
group_small size w p h k = grind arith

read_last :
    (w i typ size : ℕ) (dataread rest : Bytes)
    → w < 128
    → 0 < i
    → size < shift_at i
    → size + w * shift_at i < 2 ^ 64
    → read_header_loop (w ∷ rest) i typ size dataread
      ≡ some (typ, size + w * shift_at i, dataread ++ (w ∷ []), rest)
unfolding read_header_loop shift_at
read_last w i typ size dataread rest h p small fits =
    ground (arith, bit_and_mask 7 w, add_group size w i small fits)

read_inner :
    (w i typ size : ℕ) (dataread rest : Bytes)
    → w < 128
    → 0 < i
    → size < shift_at i
    → size + w * shift_at i < 2 ^ 64
    → read_header_loop ((w + 128) ∷ rest) i typ size dataread
      ≡ read_header_loop rest (i + 1) typ (size + w * shift_at i) (dataread ++ ((w + 128) ∷ []))
unfolding read_header_loop shift_at
read_inner w i typ size dataread rest h p small fits =
    ground (arith, bit_and_mask 7 (w + 128), add_group size w i small fits)

regroup :
    (size last v p : ℕ)
    → size + last * p + (v % 128 + v / 128 * 128) * (128 * p) ≡ size + (last + v * 128) * p
regroup size last v p = omega (arith, ap (λ (t : ℕ). t * p) (div-add-mod v 128))

only_last : (last v : ℕ) → v ≡ 0 → last + v * 128 ≡ last
only_last last v e = omega arith

top : (last : ℕ) → last < 128 → bit_or last 0x80 ≡ last + 128
top last h = omega (arith, set_top_bit last)

low_group : (v : ℕ) → bit_and v 0x7f % 256 ≡ v % 128
low_group v = omega (arith, bit_and_mask 7 v)

-- What the writer puts from byte `i` on adds up, where `last` is the group at hand and `v` the rest.
read_header_loop-write :
    (fuel last v i typ size : ℕ) (dataread rest : Bytes)
    → last < 128
    → v ≤ fuel
    → 0 < i
    → size < shift_at i
    → size + (last + v * 128) * shift_at i < 2 ^ 64
    → read_header_loop (write_variable_loop fuel last v ++ rest) i typ size dataread
      ≡ some (
        typ,
        size + (last + v * 128) * shift_at i,
        dataread ++ write_variable_loop fuel last v,
        rest,
      )
unfolding write_variable_loop
read_header_loop-write zero last v i typ size dataread rest a b c d e =
    let z = only_last last v (omega arith) in
    rw z (read_last last i typ size dataread rest a c d (rw z at e))
read_header_loop-write (suc fuel) last v i typ size dataread rest a b c d e =
    elim (Bool-cases (v == 0)) [
      | inl done ↦ rw done (
          let z = only_last last v ((==_iff v 0).0 done) in
          rw z (read_last last i typ size dataread rest a c d (rw z at e)))
      | inr more ↦ rw more (
          let p = shift_at i in
          let next = shift_at-suc i c in
          rw (top last a, low_group v)
            (read_inner last i typ size dataread _ a c d (omega (arith, regroup size last v p))
              ∙ read_header_loop-write fuel (v % 128) (v / 128) (i + 1) typ (size + last * p)
                  (dataread ++ ((last + 128) ∷ [])) rest (omega arith)
                  (omega (arith, ==-false→ne v 0 more)) (omega arith)
                  (rw next (group_small size last p d a)) (rw (next, regroup) e)
              ∙ rw (next, regroup, append_assoc)))
    ]

first_last :
    (b : ℕ) (rest : Bytes)
    → b < 128
    → read_header_loop (b ∷ rest) 0 0 0 [] ≡ some (b / 16, b % 16, b ∷ [], rest)
unfolding read_header_loop
first_last b rest h = ground (arith, bit_and_mask 4 b, middle_bits b)

first_inner :
    (b : ℕ) (rest : Bytes)
    → b < 128
    → read_header_loop ((b + 128) ∷ rest) 0 0 0 []
      ≡ read_header_loop rest 1 (b / 16) (b % 16) ((b + 128) ∷ [])
unfolding read_header_loop
first_inner b rest h = ground (arith, bit_and_mask 4 (b + 128), middle_bits (b + 128))

read_header_loop-first :
    (fuel b w : ℕ) (rest : Bytes)
    → b < 128
    → w ≤ fuel
    → b % 16 + w * 16 < 2 ^ 64
    → read_header_loop (write_variable_loop fuel b w ++ rest) 0 0 0 []
      ≡ some (b / 16, b % 16 + w * 16, write_variable_loop fuel b w, rest)
unfolding write_variable_loop
read_header_loop-first zero b w rest h k fits =
    first_last b rest h ∙ ap (λ (t : ℕ). some (b / 16, t, b ∷ [], rest)) (omega arith)
read_header_loop-first (suc fuel) b w rest h k fits = elim (Bool-cases (w == 0)) [
  | inl done ↦ rw done (
      first_last b rest h
      ∙ ap (λ (t : ℕ). some (b / 16, t, b ∷ [], rest)) (omega (arith, (==_iff w 0).0 done)))
  | inr more ↦ rw more (
      let sixteen : shift_at 1 ≡ 16 = unfold shift_at in refl in
      let sum : b % 16 + (w % 128 + w / 128 * 128) * 16 ≡ b % 16 + w * 16 = omega arith in
      rw (top b h, low_group w)
        (first_inner b _ h
          ∙ read_header_loop-write fuel (w % 128) (w / 128) 1 (b / 16) (b % 16) ((b + 128) ∷ [])
              rest (omega arith) (omega (arith, ==-false→ne w 0 more)) (omega arith)
              (rw sixteen (omega arith)) (rw (sixteen, sum) fits)
          ∙ rw (sixteen, sum)))
]

-- The type and the size come back, with the bytes that were read.
pub read_header_loop-write_variable :
    (v typ : ℕ) (rest : Bytes)
    → typ < 8
    → v < 2 ^ 64
    → read_header_loop (write_variable v typ ++ rest) 0 0 0 []
      ≡ some (typ, v, write_variable v typ, rest)
unfolding write_variable
read_header_loop-write_variable v typ rest ht hv =
    let b = typ * 16 + v % 16 in
    let kind : b / 16 ≡ typ = omega arith in
    let sum : b % 16 + v / 16 * 16 ≡ v = omega arith in
    rw (first_byte typ v ht) (
      read_header_loop-first (v / 16) b (v / 16) rest (omega arith) (omega arith) (omega arith)
      ∙ ap
          (λ (t : ℕ). some (t, b % 16 + v / 16 * 16, write_variable_loop (v / 16) b (v / 16), rest))
          kind
      ∙ ap (λ (t : ℕ). some (typ, t, write_variable_loop (v / 16) b (v / 16), rest)) sum)

-- The header of an entry of a type below 8 that is no delta is read back: the type, a size
-- below 2^64 and the bytes read.
pub read_header_size-write_variable :
    (v typ : ℕ) (rest : Bytes)
    → typ < 8
    → typ ≢ obj_ref_delta
    → typ ≢ obj_ofs_delta
    → v < 2 ^ 64
    → read_header_size (write_variable v typ ++ rest)
      ≡ some (record {
        entrytype = typ;
        size = v;
        ref_delta = no_sha;
        offset = pos 0;
        dataread = write_variable v typ;
        rest = rest;
      })
unfolding read_header_size read_base
read_header_size-write_variable v typ rest ht not_ref not_ofs hv =
    ground (arith, read_header_loop-write_variable v typ rest ht hv)
