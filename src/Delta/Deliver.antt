-- ===== src/Delta/Deliver.antt =====
-- One call of `Read`: what it delivers from the cache, from an insert and from a copy.
use dgit.Prelude.{
  ℕ, zero, suc, ◌+◌, ◌≤◌, ◌<◌, ◌≡◌, refl, true, Bool-cases, inl, inr, List, [], ◌∷◌, ◌++◌, Bytes,
  ltb, leb, leb→le, ltb→lt, ltb-false→le, length, length-append, length-take, length-drop, take,
  drop, take_all, take-append, drop-append, min, arith,
}
use dgit.Delta.Instruction.{write_copy}
use dgit.Delta.Operands.{Reads}
use dgit.Delta.Reader.{
  Reader, ReadResult, got, fail, eof, read_full, full, read_cached, read_insert, read_copy,
  read_instruction, read,
}

drop_all {ℓ} : {A : Type ℓ} (n : ℕ) (xs : List A) → length xs ≤ n → drop n xs ≡ []
drop_all zero [] h = refl
drop_all zero (x ∷ xs) h = absurd (omega arith)
drop_all (suc n) [] h = refl
drop_all (suc n) (x ∷ xs) h = drop_all n xs (omega arith)

min_le : (a b : ℕ) → a ≤ b → min a b ≡ a
min_le a b h = omega arith

min_ge : (a b : ℕ) → b ≤ a → min a b ≡ b
min_ge a b h = omega arith

read_full_there : (n : ℕ) (s : Bytes) → n ≤ length s → read_full n s ≡ full (take n s) (drop n s)
unfolding read_full
read_full_there n s h = ground arith

read_full-append : (bytes rest : Bytes) → read_full (length bytes) (bytes ++ rest) ≡ full bytes rest
unfolding read_full
read_full-append bytes rest =
    ground (arith, length-append bytes rest, take-append bytes rest, drop-append bytes rest)

module _ (base : Bytes) (sz : ℕ) where
  -- The reader with `cached` before the stream `src`.
  abbrev pub reader : Bytes → Bytes → Reader
  reader cached src = record { src = src; base = base; sz = sz; cached = cached }

  -- It delivers what fits a buffer of `n` bytes, and keeps the rest.
  abbrev pub delivered : Bytes → Bytes → ℕ → ReadResult
  delivered bytes src n = got (take n bytes) (reader (drop n bytes) src)

  read_cached_lem : (c src : Bytes) (n : ℕ) → read_cached (reader c src) n ≡ delivered c src n
  unfolding read_cached
  read_cached_lem c src n = elim (Bool-cases (ltb n (length c))) [
    | inl less ↦
        rw (min_le n (length c) (omega (arith, ltb→lt n (length c) less)))
          (ground (arith, ltb→lt n (length c) less))
    | inr more ↦
        let h = ltb-false→le n (length c) more in
        rw (min_ge n (length c) h)
          (ground (arith, take_all n c h, take_all (length c) c (omega arith), drop_all n c h))
  ]

  pub read-cached :
      (x : ℕ) (xs src : Bytes) (n : ℕ) → read (reader (x ∷ xs) src) n ≡ delivered (x ∷ xs) src n
  unfolding read
  read-cached x xs src n = ground (arith, read_cached_lem (x ∷ xs) src n)

  fits_buffer :
      (bytes src : Bytes) (n : ℕ)
      → leb (length bytes) n ≡ true
      → got bytes (reader [] src) ≡ delivered bytes src n
  fits_buffer bytes src n h = let le = leb→le _ _ h in rw (take_all n bytes le, drop_all n bytes le)

  read_insert_lem :
      (bytes rest : Bytes) (n : ℕ)
      → read_insert (reader [] (bytes ++ rest)) (length bytes) n ≡ delivered bytes rest n
  unfolding read_insert
  read_insert_lem bytes rest n = elim (Bool-cases (leb (length bytes) n)) [
    | inl fits ↦ rw (fits, read_full-append bytes rest) (fits_buffer bytes rest n fits)
    | inr over ↦ rw (over, read_full-append bytes rest) (read_cached_lem bytes rest n)
  ]

  read_copy_lem :
      (o l n : ℕ) (src : Bytes)
      → o + l ≤ length base
      → read_copy (reader [] src) o l n ≡ delivered (take l (drop o base)) src n
  unfolding read_copy
  read_copy_lem o l n src h =
      let bytes = take l (drop o base) in
      let len : length bytes ≡ l = omega (arith, length-take l (drop o base), length-drop o base) in
      let there : read_full l (drop o base) ≡ full bytes (drop l (drop o base)) =
        read_full_there l (drop o base) (omega (arith, length-drop o base)) in
      elim (Bool-cases (leb l n)) [
        | inl fits ↦ rw (fits, there) (fits_buffer bytes src n (rw len fits))
        | inr over ↦ rw (over, there) (read_cached_lem bytes src n)
      ]

  pub read-chunk :
      (bytes rest : Bytes) (n : ℕ)
      → 0 < length bytes
      → length bytes < 128
      → read (reader [] (length bytes ∷ (bytes ++ rest))) n ≡ delivered bytes rest n
  unfolding read read_instruction
  read-chunk bytes rest n h k = ground (arith, read_insert_lem bytes rest n)

  pub read-copy :
      (o l n : ℕ) (rest : Bytes)
      → o + l ≤ length base
      → Reads o l rest
      → read (reader [] (write_copy o l ++ rest)) n ≡ delivered (take l (drop o base)) rest n
  unfolding read read_instruction
  read-copy o l n rest h w =
      rw w.written (ground (arith, w.above, w.operands, read_copy_lem o l n rest h))

  pub read-end : (n : ℕ) → read (reader [] []) n ≡ fail eof
  unfolding read read_instruction
  read-end n = refl
