-- ===== src/Index/LongName.antt =====
-- The name of an index entry, long or short, read back with its padding.
use dgit.Prelude.{
  ℕ, zero, suc, ◌+◌, ◌-◌, ◌%◌, ◌≤◌, ◌<◌, min, ◌≡◌, inl, inr, sym, ap, ◌∙◌, Bool, true, false, [],
  ◌∷◌, ◌++◌, append_assoc, Bytes, ◌==◌, bit_and, length, length-append, drop, Bool-cases, arith,
}
use dgit.Index.Entry.{IndexEntry, extended_flag}
use dgit.Index.Format.{
  zeros, padding, name_bytes, Cursor, advance, entry_read, read_long, read_short, read_name,
}
use dgit.Index.Decoding.{
  length-zeros, Fits, skipped, entry_skipped, padding_bounds, read_long_name-name, name_position,
  short_name,
}

-- What the padding of the reader leaves out behind the NUL of a long name.
long_padding :
    (extended : Bool) (k n : ℕ)
    → k % 8 ≡ name_position extended
    → 0xfff ≤ n
    → 8 - (k + (n + 1) + 4) % 8 ≡ padding extended n - 1 + skipped extended n
unfolding padding skipped
long_padding true k n h l = ground arith
long_padding false k n h l = ground arith

drop-zeros : (p s : ℕ) (rest : Bytes) → drop (p + s) (zeros p ++ rest) ≡ drop s rest
unfolding zeros
drop-zeros zero s rest = let e : 0 + s ≡ s = omega arith in ap (λ n. drop n rest) e
drop-zeros (suc p) s rest =
    let e : suc p + s ≡ suc (p + s) = omega arith in
    ap (λ n. drop n (0 ∷ (zeros p ++ rest))) e ∙ drop-zeros p s rest

module _ (f e : IndexEntry) (k : ℕ) (rest : Bytes) (same : f.flags ≡ e.flags) (fits : Fits e)
    (aligned : k % 8 ≡ name_position (extended_flag e.flags)) where
  -- The cursor behind the name and its padding.
  abbrev behind : Cursor
  behind = record {
    consumed = k + length (name_bytes e) + entry_skipped e;
    rest = drop (entry_skipped e) rest;
  }

  size : ℕ
  size = length e.path_name

  pad : ℕ
  pad = padding (extended_flag e.flags) (length e.path_name)

  length-name_bytes : length (name_bytes e) ≡ size + pad
  unfolding name_bytes size pad
  length-name_bytes = omega (arith, length-append e.path_name (zeros pad), length-zeros pad)

  -- The bytes of a long name, with the NUL that ends it.
  ended : name_bytes e ++ rest ≡ e.path_name ++ (0 ∷ (zeros (pad - 1) ++ rest))
  unfolding name_bytes pad zeros
  ended = append_assoc e.path_name (zeros pad) rest ∙ ap (λ n. e.path_name ++ (zeros n ++ rest)) one
    where
      one : pad ≡ suc (pad - 1)
      one = omega (arith, padding_bounds (extended_flag e.flags) (length e.path_name))

  -- What is left behind the NUL, and how far the reader goes from there.
  tail_zeros : Bytes
  tail_zeros = zeros (pad - 1) ++ rest

  off :
      k + (length (e.path_name ++ (0 ∷ tail_zeros)) - length tail_zeros)
      ≡ k + (length e.path_name + 1)
  off = omega (arith, length-append e.path_name (0 ∷ tail_zeros))

  module _ (l : 0xfff ≤ length e.path_name) where
    step : 8 - (k + (length e.path_name + 1) + 4) % 8 ≡ pad - 1 + entry_skipped e
    unfolding pad
    step = long_padding (extended_flag e.flags) k (length e.path_name) aligned l

    position :
        k + (length e.path_name + 1) + (8 - (k + (length e.path_name + 1) + 4) % 8)
        ≡ k + length (name_bytes e) + entry_skipped e
    unfolding size pad
    position = omega (
      arith,
      step,
      length-name_bytes,
      padding_bounds (extended_flag e.flags) (length e.path_name),
    )

    left :
        drop (8 - (k + (length e.path_name + 1) + 4) % 8) tail_zeros ≡ drop (entry_skipped e) rest
    unfolding tail_zeros
    left = ap (λ t. drop t tail_zeros) step ∙ drop-zeros (pad - 1) (entry_skipped e) rest

    long_name :
        read_long f (record { consumed = k; rest = name_bytes e ++ rest })
        ≡ entry_read (record f { path_name = e.path_name }) behind
    unfolding read_long advance tail_zeros
    long_name =
        ap (λ t. read_long f (record { consumed = k; rest = t })) ended
        ∙ rw (read_long_name-name true [] e.path_name tail_zeros (fits.no_nul l), read_long)
            ((λ i.
                entry_read (record f { path_name = e.path_name })
                  (record {
                    consumed = off i + (8 - (off i + 4) % 8);
                    rest = drop (8 - (off i + 4) % 8) tail_zeros;
                  }))
              ∙ (λ i.
                  entry_read (record f { path_name = e.path_name })
                    (record { consumed = position i; rest = left i })))

  none_skipped : length e.path_name < 0xfff → entry_skipped e ≡ 0
  unfolding skipped
  none_skipped l = ground arith

  pub read_name-name_bytes :
      read_name f (record { consumed = k; rest = name_bytes e ++ rest })
      ≡ entry_read (record f { path_name = e.path_name }) behind
  unfolding read_name
  read_name-name_bytes = elim (Bool-cases (bit_and f.flags 0xfff == 0xfff)) [
    | inl y ↦ rw (y, read_name) (long_name (ground (arith, bits)))
    | inr n ↦
        let l : length e.path_name < 0xfff = ground (arith, bits) in
        rw (n, read_name)
          (ap (λ t. read_short f t (record { consumed = k; rest = name_bytes e ++ rest }))
              (bits ∙ fitting l)
            ∙ short_name f e k rest same
            ∙ (λ i.
                entry_read (record f { path_name = e.path_name })
                  (record { consumed = unmoved l i; rest = drop (sym (none_skipped l) i) rest })))
  ]
    where
      unmoved :
          length e.path_name < 0xfff
          → k + length (name_bytes e) ≡ k + length (name_bytes e) + entry_skipped e
      unmoved l = omega (arith, none_skipped l)

      bits : bit_and f.flags 0xfff ≡ min (length e.path_name) 0xfff
      bits = ap (λ t. bit_and t 0xfff) same ∙ fits.name_length

      fitting : length e.path_name < 0xfff → min (length e.path_name) 0xfff ≡ length e.path_name
      fitting l = omega arith
