-- ===== src/Delta/Resolve.antt =====
-- Reading a delta that was written, through buffers of any sizes.
use dgit.Prelude.{
  ℕ, zero, suc, ◌+◌, ◌^◌, ◌≤◌, ◌<◌, ◌≡◌, refl, ap, sym, ◌∙◌, true, false, Bool-cases, inl, inr,
  List, [], ◌∷◌, ◌++◌, append_assoc, append-nil, Bytes, ltb, ltb→lt, ltb-false→le, ◌==◌, length,
  length-append, length-take, length-drop, take, drop, take-append-drop, All, arith,
}
use dgit.Delta.Instruction.{
  Instruction, insert, copyinst, write_insert_loop, write_insert, write, write_all,
}
use dgit.Delta.Operands.{write_copy-Reads}
use dgit.Delta.Deliver.{reader, delivered, read-cached, read-chunk, read-copy, read-end}
use dgit.Delta.Reader.{Reader, all, read, read_all}

-- What a list of instructions makes of a base.
abbrev pub apply : Bytes → List Instruction → Bytes
apply base [] = []
apply base (insert i ∷ is) = i ++ apply base is
apply base (copyinst o l ∷ is) = take l (drop o base) ++ apply base is

-- A copy lies within the base, and its operands fit their fields.
abbrev pub FitsBase : Bytes → Instruction → Type 0
FitsBase base (insert i) = Unit {0}
FitsBase base (copyinst o l) = (o + l ≤ length base) × (0 < l) × (l < 2 ^ 24) × (o < 2 ^ 32)

-- What `insert.write` puts first for bytes that are not used up: a chunk under its length.
record Chunk (fuel : ℕ) (r : Bytes) : Type 0 where
  bytes : Bytes
  left : Bytes
  fuel' : ℕ
  written : write_insert_loop fuel r ≡ length bytes ∷ (bytes ++ write_insert_loop fuel' left)
  whole : bytes ++ left ≡ r
  some_bytes : 0 < length bytes
  few_bytes : length bytes < 128
  enough : length left ≤ fuel'

write_insert_loop-nil : (fuel : ℕ) → write_insert_loop fuel [] ≡ []
unfolding write_insert_loop
write_insert_loop-nil zero = refl
write_insert_loop-nil (suc fuel) = refl

module _ (fuel : ℕ) (r : Bytes) (used : (length r == 0) ≡ false) where
  write_insert_loop-last : ltb (length r) 128 ≡ true → write_insert_loop (suc fuel) r ≡ length r ∷ r
  unfolding write_insert_loop
  write_insert_loop-last h = rw (used, h)

  write_insert_loop-long :
      ltb (length r) 128 ≡ false
      → write_insert_loop (suc fuel) r ≡ 127 ∷ (take 127 r ++ write_insert_loop fuel (drop 127 r))
  unfolding write_insert_loop
  write_insert_loop-long h = rw (used, h)

not_zero : (n : ℕ) → 0 < n → (n == 0) ≡ false
not_zero n h = ground arith

chunk : (fuel : ℕ) (r : Bytes) → 0 < length r → length r ≤ fuel → Chunk fuel r
chunk zero r p h = absurd (omega arith)
chunk (suc fuel) r p h = elim (Bool-cases (ltb (length r) 128)) [
  | inl last ↦ record {
    bytes = r;
    left = [];
    fuel' = fuel;
    written =
        write_insert_loop-last fuel r (not_zero _ p) last ∙ rw (write_insert_loop-nil, append-nil);
    whole = append-nil r;
    some_bytes = p;
    few_bytes = ltb→lt _ _ last;
    enough = omega arith;
  }
  | inr long ↦
      let many = ltb-false→le (length r) 128 long in
      let len : length (take 127 r) ≡ 127 = omega (arith, length-take 127 r) in
      record {
        bytes = take 127 r;
        left = drop 127 r;
        fuel' = fuel;
        written =
            write_insert_loop-long fuel r (not_zero _ p) long
            ∙ ap (λ (t : ℕ). t ∷ (take 127 r ++ write_insert_loop fuel (drop 127 r))) (sym len);
        whole = take-append-drop 127 r;
        some_bytes = omega (arith, len);
        few_bytes = omega (arith, len);
        enough = omega (arith, length-drop 127 r);
      }
]

regroup :
    (n : ℕ) (out bytes rest : Bytes)
    → (out ++ take n bytes) ++ (drop n bytes ++ rest) ≡ out ++ (bytes ++ rest)
regroup n out bytes rest =
    append_assoc out (take n bytes) _
    ∙ ap (λ (t : Bytes). out ++ t)
        (sym (append_assoc (take n bytes) (drop n bytes) rest)
          ∙ ap (λ (t : Bytes). t ++ rest) (take-append-drop n bytes))

module _ (base : Bytes) (sz : ℕ) (sizes : ℕ → ℕ) (positive : (k : ℕ) → 0 < sizes k) where
  -- The reader before the bytes `c` that are cached, what is left of an insert, and the rest.
  abbrev state : Bytes → ℕ → Bytes → List Instruction → Reader
  state c k r is = reader base sz c (write_insert_loop k r ++ write_all is)

  -- Where a `Read` delivers from `bytes`, reading on gives what reading on from the new cache gives.
  read_all-delivered :
      (fuel : ℕ) (d : Reader) (bytes src out rest : Bytes)
      → read d (sizes fuel) ≡ delivered base sz bytes src (sizes fuel)
      → read_all fuel sizes
          (reader base sz (drop (sizes fuel) bytes) src)
          (out ++ take (sizes fuel) bytes)
        ≡ all ((out ++ take (sizes fuel) bytes) ++ (drop (sizes fuel) bytes ++ rest))
      → read_all (suc fuel) sizes d out ≡ all (out ++ (bytes ++ rest))
  unfolding read_all
  read_all-delivered fuel d bytes src out rest e h =
      rw (e, read_all) (h ∙ ap all (regroup (sizes fuel) out bytes rest))

  read_all-end :
      (fuel : ℕ) (out : Bytes)
      → read_all (suc fuel) sizes (reader base sz [] []) out ≡ all (out ++ [])
  unfolding read_all
  read_all-end fuel out =
      rw (read-end base sz (sizes fuel), read_all) (ap all (sym (append-nil out)))

  shorter :
      (k : ℕ) (bytes : Bytes) → 0 < length bytes → length (drop (sizes k) bytes) < length bytes
  shorter k bytes h = omega (arith, positive k, length-drop (sizes k) bytes)

  resolve :
      (fuel : ℕ) (is : List Instruction) (c r : Bytes) (k : ℕ) (out : Bytes)
      → length r ≤ k
      → All (FitsBase base) is
      → length c + length r + length (apply base is) < fuel
      → read_all fuel sizes (state c k r is) out ≡ all (out ++ (c ++ (r ++ apply base is)))
  unfolding write_all write write_insert
  resolve zero is c r k out hk fits h = absurd (omega arith)
  resolve (suc fuel) is (x ∷ xs) r k out hk fits h =
      read_all-delivered fuel _ (x ∷ xs) _ out (r ++ apply base is) (read-cached base sz x xs _ _) (
        resolve fuel is (drop (sizes fuel) (x ∷ xs)) r k _ hk fits
          (omega (arith, shorter fuel (x ∷ xs) (omega arith))))
  resolve (suc fuel) is [] (x ∷ xs) k out hk fits h =
      let ch = chunk k (x ∷ xs) (omega arith) hk in
      read_all-delivered fuel _ ch.bytes _ out (ch.left ++ apply base is)
        (rw (ch.written, append_assoc) (read-chunk base sz ch.bytes _ _ ch.some_bytes ch.few_bytes))
        (resolve fuel is (drop (sizes fuel) ch.bytes) ch.left ch.fuel' _ ch.enough fits (
          omega (
            arith,
            shorter fuel ch.bytes ch.some_bytes,
            ap length ch.whole,
            length-append ch.bytes ch.left,
          )))
      ∙ ap (λ (t : Bytes). all (out ++ t))
          (sym (append_assoc ch.bytes ch.left _) ∙ ap (λ (t : Bytes). t ++ apply base is) ch.whole)
  resolve (suc fuel) [] [] [] k out hk fits h = rw write_insert_loop-nil (read_all-end fuel out)
  resolve (suc fuel) (insert i ∷ is) [] [] k out hk fits h = rw write_insert_loop-nil (
      resolve (suc fuel) is [] i (length i) out (omega arith) fits.1
        (omega (arith, length-append i (apply base is))))
  resolve (suc fuel) (copyinst o l ∷ is) [] [] k out hk
        ((within, positive_length, small, low), fits) h =
      let len : length (take l (drop o base)) ≡ l =
        omega (arith, length-take l (drop o base), length-drop o base) in
      rw write_insert_loop-nil (
        read_all-delivered fuel _ (take l (drop o base)) _ out (apply base is)
          (read-copy base sz o l (sizes fuel) (write_all is) within
            (write_copy-Reads o l _ low positive_length small))
          (rw write_insert_loop-nil at (
            resolve fuel is (drop (sizes fuel) (take l (drop o base))) [] k
              (out ++ take (sizes fuel) (take l (drop o base))) hk fits
              (omega (
                arith,
                len,
                shorter fuel (take l (drop o base)) (omega (arith, len)),
                length-append (take l (drop o base)) (apply base is),
              )))))

-- Every list of instructions that fits the base is resolved to what it describes: reading the
-- stream that was written for it to its end, through buffers of any sizes that are not empty, gives
-- `apply base is`. One more read than there are bytes is enough.
pub read_all-write_all :
    (base : Bytes) (sz : ℕ) (is : List Instruction) (sizes : ℕ → ℕ) (fuel : ℕ)
    → ((k : ℕ) → 0 < sizes k)
    → All (FitsBase base) is
    → length (apply base is) < fuel
    → read_all fuel sizes (reader base sz [] (write_all is)) [] ≡ all (apply base is)
unfolding write_insert_loop
read_all-write_all base sz is sizes fuel positive fits h =
    resolve base sz sizes positive fuel is [] [] 0 [] (omega arith) fits (omega arith)
