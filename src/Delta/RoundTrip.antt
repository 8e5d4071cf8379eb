-- ===== src/Delta/RoundTrip.antt =====
-- Computing a delta, writing it, and reading it against the source gives the target.
use dgit.Prelude.{
  ℕ, ◌+◌, ◌^◌, ◌<◌, ◌≡◌, ◌∙◌, ap, refl, subst, List, [], ◌++◌, All, Bytes, length, some, arith,
}
use dgit.Delta.Instruction.{Instruction, write_var_int, write_all}
use dgit.Delta.Calculator.{
  Index, Calculated, done, size_exceeded, panicked, unfinished, calculate, calculate_with_index,
  written, ok,
}
use dgit.Delta.Calculate.{Describes, calculate-Describes}
use dgit.Delta.Deliver.{reader}
use dgit.Delta.Reader.{Reader, new_reader, read_all, all}
use dgit.Delta.Resolve.{apply, FitsBase, read_all-write_all}
use dgit.Delta.Variable.{read_variable-write_var_int}

written-eq-ok :
    (src dst : Bytes) (c : Calculated) {bytes : Bytes}
    → written src dst c ≡ ok bytes
    → (is : List Instruction) × (c ≡ done is)
      × (bytes ≡ write_var_int (length src) ++ (write_var_int (length dst) ++ write_all is))
unfolding written
written-eq-ok src dst (done is) e = (is, refl, cc)
written-eq-ok src dst size_exceeded e = cc
written-eq-ok src dst panicked e = cc
written-eq-ok src dst unfinished e = cc

module _ (src : Bytes) (index : Index src) (dst : Bytes) (maxsz : ℕ)
    (src_small : length src < 2 ^ 32) (dst_small : length dst < 2 ^ 24) where
  -- If `calculate` gives instructions, they make the target of the source, and each of them
  -- fits the format and the source. The source is below 4 GB and the target below 16 MB.
  pub apply-calculate :
      {is : List Instruction}
      → calculate index.lookup dst maxsz ≡ done is
      → (apply src is ≡ dst) × All (FitsBase src) is
  apply-calculate e =
      subst (Describes src index dst maxsz src_small dst_small) e
        (calculate-Describes src index dst maxsz src_small dst_small)

  new_reader-header :
      (rest : Bytes)
      → new_reader (write_var_int (length src) ++ (write_var_int (length dst) ++ rest)) src
        ≡ some (reader src (length dst) [] rest)
  unfolding new_reader
  new_reader-header rest = rw (
    read_variable-write_var_int (length src) (write_var_int (length dst) ++ rest) (omega arith),
    read_variable-write_var_int (length dst) rest (omega arith),
  )

  -- Whatever `CalculateWithIndex` writes, a reader over it and the source knows the length of
  -- the target, and reading it to its end through buffers of any sizes that are not empty gives
  -- the target. Source and target are below 4 GB and 16 MB.
  pub read_all-calculate_with_index :
      {bytes : Bytes} (sizes : ℕ → ℕ)
      → ((k : ℕ) → 0 < sizes k)
      → calculate_with_index index.lookup src dst maxsz ≡ ok bytes
      → (d : Reader) × (new_reader bytes src ≡ some d)
        × (d.sz ≡ length dst)
        × (read_all (length dst + 1) sizes d [] ≡ all dst)
  unfolding calculate_with_index
  read_all-calculate_with_index {bytes} sizes positive e =
      let (is, calculated, wrote) = written-eq-ok src dst (calculate index.lookup dst maxsz) e in
      let (makes, fits) = apply-calculate calculated in
      (
        reader src (length dst) [] (write_all is),
        rw wrote (new_reader-header (write_all is)),
        refl,
        read_all-write_all src (length dst) is sizes (length dst + 1) positive fits
              (omega (arith, ap length makes))
            ∙ ap all makes,
      )
