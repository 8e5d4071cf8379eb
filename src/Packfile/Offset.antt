-- ===== src/Packfile/Offset.antt =====
-- The offset of an OFS_DELTA entry: what `ReadDeltaOffset` reads, against git's own format and
-- against the `binary.PutUvarint` that git/packobjects.go writes it by.
use dgit.Prelude.{
  ℕ, zero, suc, ◌+◌, ◌-◌, ◌*◌, ◌/◌, ◌%◌, ◌^◌, ◌≤◌, ◌<◌, ◌≡◌, ◌≢◌, refl, ap, ◌∙◌, [], ◌∷◌, ◌++◌,
  append_assoc, Bytes, ◌==◌, ==_iff, ==-false→ne, Bool-cases, inl, inr, arith, if◌then◌else◌,
  Option, none, some,
}
use dgit.Prelude.Bits.{bit_and_mask, set_top_bit, top_bit}
use dgit.Delta.Instruction.{put_uvarint_loop, write_var_int}
use dgit.Packfile.{delta_offset_loop, read_delta_offset}

-- Git's format (gitformat-pack): groups of seven bits, the highest first, the top bit set on all
-- but the last; each group but the last counts one more than it says.
unfoldable pub offset_front : ℕ → ℕ → Bytes
offset_front zero n = []
offset_front (suc fuel) n =
    let more = offset_front fuel ((n - 1) / 128) ++ ((128 + (n - 1) % 128) ∷ []) in
    if n == 0 then [] else more

unfoldable pub offset_bytes : ℕ → Bytes
offset_bytes n = offset_front (n / 128) (n / 128) ++ (n % 128 ∷ [])

-- The loop from before a byte, with one more than the groups before it are worth.
read_from : ℕ → Bytes → Bytes → Option (ℕ × Bytes × Bytes)
read_from m consumed [] = none
read_from m consumed (c ∷ src) =
    delta_offset_loop c ((m * 128 + c % 128) % 2 ^ 64) (consumed ++ (c ∷ [])) src

read_from-inner :
    (m c : ℕ) (consumed src : Bytes)
    → 128 ≤ c
    → c < 256
    → m * 128 + c % 128 + 1 < 2 ^ 64
    → read_from m consumed (c ∷ src) ≡ read_from (m * 128 + c % 128 + 1) (consumed ++ (c ∷ [])) src
unfolding read_from delta_offset_loop
read_from-inner m c consumed [] h k fits = ground (arith, top_bit c)
read_from-inner m c consumed (d ∷ src) h k fits = ground (arith, top_bit c, bit_and_mask 7 d)

read_from-last :
    (m c : ℕ) (consumed src : Bytes)
    → c < 128
    → m * 128 + c < 2 ^ 64
    → read_from m consumed (c ∷ src) ≡ some (m * 128 + c, consumed ++ (c ∷ []), src)
unfolding read_from delta_offset_loop
read_from-last m c consumed [] h fits = ground (arith, top_bit c)
read_from-last m c consumed (d ∷ src) h fits = ground (arith, top_bit c)

read_delta_offset-read_from : (src : Bytes) → read_delta_offset src ≡ read_from 0 [] src
unfolding read_delta_offset read_from
read_delta_offset-read_from [] = refl
read_delta_offset-read_from (c ∷ src) = ground (arith, bit_and_mask 7 c)

read_from-offset_front :
    (fuel n : ℕ) (src : Bytes)
    → n ≤ fuel
    → n < 2 ^ 57
    → read_from 0 [] (offset_front fuel n ++ src) ≡ read_from n (offset_front fuel n) src
unfolding offset_front
read_from-offset_front zero n src h fits = let e : n ≡ 0 = omega arith in rw e refl
read_from-offset_front (suc fuel) n src h fits = elim (Bool-cases (n == 0)) [
  | inl done ↦ rw done (let e : n ≡ 0 = (==_iff n 0).0 done in rw e refl)
  | inr more ↦ rw more (
      let q = (n - 1) / 128 in
      let x = 128 + (n - 1) % 128 in
      let nonzero = ==-false→ne n 0 more in
      let e : q * 128 + x % 128 + 1 ≡ n = omega arith in
      rw append_assoc (
        read_from-offset_front fuel q (x ∷ src) (omega arith) (omega arith)
        ∙ read_from-inner q x (offset_front fuel q) src (omega arith) (omega arith) (omega arith)
        ∙ ap (λ (t : ℕ). read_from t (offset_front fuel q ++ (x ∷ [])) src) e))
]

-- An offset below 2^64 in git's format is read back, with the bytes that it took.
pub read_delta_offset-offset_bytes :
    (n : ℕ) (rest : Bytes)
    → n < 2 ^ 64
    → read_delta_offset (offset_bytes n ++ rest) ≡ some (n, offset_bytes n, rest)
unfolding offset_bytes
read_delta_offset-offset_bytes n rest h =
    let front = offset_front (n / 128) (n / 128) in
    let e : n / 128 * 128 + n % 128 ≡ n = omega arith in
    read_delta_offset-read_from _
    ∙ rw append_assoc (
        read_from-offset_front (n / 128) (n / 128) (n % 128 ∷ rest) (omega arith) (omega arith)
        ∙ read_from-last (n / 128) (n % 128) front rest (omega arith) (omega arith)
        ∙ ap (λ (t : ℕ). some (t, front ++ (n % 128 ∷ []), rest)) e)

-- git/packobjects.go writes the offset by `binary.PutUvarint`, lowest group first.
two_rounds :
    (fuel n : ℕ)
    → 2 ≤ fuel
    → 128 ≤ n
    → n < 2 ^ 14
    → put_uvarint_loop fuel n ≡ (n % 128 + 128) ∷ (n / 128 ∷ [])
unfolding put_uvarint_loop
two_rounds zero n f lo hi = absurd (omega arith)
two_rounds (suc zero) n f lo hi = absurd (omega arith)
two_rounds (suc (suc fuel)) n f lo hi = ground (arith, set_top_bit (n % 256))

-- An offset from 128 to 2^14 - 1, written as git/packobjects.go writes it, is read as another
-- number, with the bytes that were written.
pub read_delta_offset-write_var_int_ne :
    (n : ℕ) (rest : Bytes)
    → 128 ≤ n
    → n < 2 ^ 14
    → (m : ℕ) × (read_delta_offset (write_var_int n ++ rest) ≡ some (m, write_var_int n, rest))
      × (m ≢ n)
unfolding write_var_int
read_delta_offset-write_var_int_ne n rest lo hi =
    let a = n % 128 + 128 in
    let b = n / 128 in
    let m = (0 * 128 + a % 128 + 1) * 128 + b in
    (
      m,
      rw (two_rounds n n (omega arith) lo hi) (
          read_delta_offset-read_from _
          ∙ read_from-inner 0 a [] (b ∷ rest) (omega arith) (omega arith) (omega arith)
          ∙ read_from-last (0 * 128 + a % 128 + 1) b (a ∷ []) rest (omega arith) (omega arith)),
      λ e. absurd (omega arith),
    )
