-- ===== src/PacketLine/Sideband.antt =====
-- What one `Read` of a stream with a side band does.
use dgit.Prelude.{
  ℕ, zero, suc, ◌+◌, ◌-◌, ◌^◌, ◌<◌, ◌≤◌, ◌≡◌, refl, sym, ap, ◌∙◌, subst, true, false, List, [], ◌∷◌,
  ◌++◌, append_assoc, Bytes, codes, bytes_eq, ltb, ◌==◌, Bool-cases, inl, inr, length,
  length-append, length-drop, take, drop, take-append, drop-append, take-append-drop, Option, some,
  arith,
}
use dgit.PacketLine.{four_digits, parse_hex}
use dgit.PacketLine.Hex.{parse_hex-four_digits, not_flush, not_delim, length-four_digits}
use dgit.PacketLine.Reader.{
  PackReader, PackRead, delivered, flush_pkt, read_full, note, keep_underread, read_data,
  read_channel, read_sideband,
}
use dgit.PacketLine.Stream.{
  Packet, data_packet, progress, wire, data_of, notes_of, AllSmall, weight, reader,
}

module _ (rest : Bytes) where
  -- What one `Read` of the connection does.
  pub data Step (written : Option Bytes) (ps : List Packet) : PackRead → Type 0 where
    ended : data_of ps ≡ [] → Step written ps (flush_pkt (reader rest (notes_of ps written) []))
    moved :
        (bs under : Bytes) (qs : List Packet) (noted : Option Bytes)
        → bs ++ (under ++ data_of qs) ≡ data_of ps
        → notes_of qs noted ≡ notes_of ps written
        → length under + weight qs < weight ps
        → AllSmall qs
        → Step written ps (delivered bs (reader (wire qs rest) noted under))

  pub length-wire : (ps : List Packet) → length ps ≤ length (wire ps rest)
  unfolding wire
  length-wire [] = omega arith
  length-wire (data_packet d ∷ ps) = omega (
    arith,
    length-wire ps,
    length-four_digits (length d + 5) (1 ∷ (d ++ wire ps rest)),
    length-append d (wire ps rest),
  )
  length-wire (progress d ∷ ps) = omega (
    arith,
    length-wire ps,
    length-four_digits (length d + 5) (2 ∷ (d ++ wire ps rest)),
    length-append d (wire ps rest),
  )

  -- The four digits of a length, and the channel behind.
  at_channel :
      (fuel n size a b c d : ℕ) (tail : Bytes) (written : Option Bytes)
      → 1 ≤ n
      → parse_hex 0 (a ∷ b ∷ c ∷ d ∷ []) ≡ some size
      → bytes_eq (a ∷ b ∷ c ∷ d ∷ []) (codes "0000") ≡ false
      → bytes_eq (a ∷ b ∷ c ∷ d ∷ []) (codes "0001") ≡ false
      → read_sideband (suc fuel) n (reader (a ∷ b ∷ c ∷ d ∷ tail) written [])
        ≡ read_channel (read_sideband fuel n) n size (reader tail written [])
  unfolding read_sideband
  at_channel fuel n size a b c d tail written h p f g = rw (long, f, g, p, nonzero, read_sideband)
    where
      long : ltb (length (a ∷ b ∷ c ∷ d ∷ tail)) 4 ≡ false
      long = ground arith

      nonzero : (n == 0) ≡ false
      nonzero = ground arith

  at_packet :
      (fuel n size : ℕ) (tail : Bytes) (written : Option Bytes)
      → 1 ≤ n
      → 5 ≤ size
      → size < 2 ^ 16
      → read_sideband (suc fuel) n (reader (four_digits size ++ tail) written [])
        ≡ read_channel (read_sideband fuel n) n size (reader tail written [])
  unfolding four_digits
  at_packet fuel n size tail written h g l =
      at_channel fuel n size _ _ _ _ tail written h (parse_hex-four_digits size l)
        (not_flush size (omega (arith, g)) l) (not_delim size (omega (arith, g)) l)

  -- The payload of a packet.
  module _ (d w : Bytes) where
    exact : length d + 5 - 5 ≡ length d
    exact = omega arith

    five : ltb (length d + 5) 5 ≡ false
    five = ground arith

    enough : ltb (length (d ++ w)) (length d + 5 - 5) ≡ false
    enough = ground (arith, length-append d w)

    front : take (length d + 5 - 5) (d ++ w) ≡ d
    front = ap (λ n. take n (d ++ w)) exact ∙ take-append d w

    back : drop (length d + 5 - 5) (d ++ w) ≡ w
    back = ap (λ n. drop n (d ++ w)) exact ∙ drop-append d w

    small_buffer :
        (n : ℕ) (written : Option Bytes)
        → n < length d
        → read_data n (length d + 5) (reader (d ++ w) written [])
          ≡ delivered (take n d) (reader w written (drop n d))
    unfolding read_data keep_underread
    small_buffer n written h =
        rw (five, short, enough, read_data, keep_underread)
          (λ i. delivered (take n (front i)) (reader (back i) written (drop n (front i))))
      where
        short : ltb n (length d + 5 - 5) ≡ true
        short = ground (arith, h)

    large_buffer :
        (n : ℕ) (written : Option Bytes)
        → length d ≤ n
        → read_data n (length d + 5) (reader (d ++ w) written [])
          ≡ delivered d (reader w written [])
    unfolding read_data read_full
    large_buffer n written h =
        rw (five, fits, enough, read_data, read_full)
          (λ i. delivered (front i) (reader (back i) written []))
      where
        fits : ltb n (length d + 5 - 5) ≡ false
        fits = ground (arith, h)

    progress_channel :
        (again : PackReader → PackRead) (n : ℕ) (written : Option Bytes)
        → read_channel again n (length d + 5) (reader (2 ∷ (d ++ w)) written [])
          ≡ again (reader w (note d written) [])
    unfolding read_channel
    progress_channel again n written =
        rw (five, enough, read_channel) (λ i. again (reader (back i) (note (front i) written) []))

  data-Step :
      (n : ℕ) (d : Bytes) (ps : List Packet) (written : Option Bytes)
      → 1 ≤ n
      → AllSmall ps
      → Step written
          (data_packet d ∷ ps)
          (read_data n (length d + 5) (reader (d ++ wire ps rest) written []))
  data-Step n d ps written h small = elim (Bool-cases (ltb n (length d))) [
    | inl y ↦
        subst (Step written (data_packet d ∷ ps))
          (sym (small_buffer d (wire ps rest) n written (ground arith)))
          (moved (take n d) (drop n d) ps written
            (sym (append_assoc (take n d) (drop n d) (data_of ps))
              ∙ ap (λ t. t ++ data_of ps) (take-append-drop n d))
            refl (ground (arith, length-drop n d)) small)
    | inr m ↦
        subst (Step written (data_packet d ∷ ps))
          (sym (large_buffer d (wire ps rest) n written (ground arith)))
          (moved d [] ps written refl refl (omega arith) small)
  ]

  data_channel :
      (fuel n : ℕ) (d w : Bytes) (written : Option Bytes)
      → read_channel (read_sideband fuel n) n (length d + 5) (reader (1 ∷ (d ++ w)) written [])
        ≡ read_data n (length d + 5) (reader (d ++ w) written [])
  unfolding read_channel
  data_channel fuel n d w written = refl

  flushed :
      (fuel n : ℕ) (written : Option Bytes)
      → Step written [] (read_sideband (suc fuel) n (reader (codes "0000" ++ rest) written []))
  unfolding read_sideband bytes_eq
  flushed fuel n written = subst (Step written []) (sym (rw (long, read_sideband))) (ended refl)
    where
      long : ltb (length (codes "0000" ++ rest)) 4 ≡ false
      long = ground arith

  after_progress :
      (d : Bytes) (ps : List Packet) (written : Option Bytes) (r : PackRead)
      → Step (note d written) ps r
      → Step written (progress d ∷ ps) r
  after_progress d ps written _ (ended e) = ended e
  after_progress d ps written _ (moved bs under qs noted a b c small) =
      moved bs under qs noted a b (omega (arith, c)) small

  -- With fuel for every packet, a `Read` delivers data or comes to the flush packet.
  pub side-Step :
      (fuel n : ℕ) (ps : List Packet) (written : Option Bytes)
      → length ps < fuel
      → 1 ≤ n
      → AllSmall ps
      → Step written ps (read_sideband fuel n (reader (wire ps rest) written []))
  unfolding wire
  side-Step zero n ps written l h small = absurd (omega (arith, l))
  side-Step (suc fuel) n [] written l h small = flushed fuel n written
  side-Step (suc fuel) n (data_packet d ∷ ps) written l h (s, small) =
      subst (Step written (data_packet d ∷ ps))
        (sym (
          at_packet fuel n (length d + 5) (1 ∷ (d ++ wire ps rest)) written h (omega arith)
            (omega (arith, s))
          ∙ data_channel fuel n d (wire ps rest) written))
        (data-Step n d ps written h small)
  side-Step (suc fuel) n (progress d ∷ ps) written l h (s, small) =
      subst (Step written (progress d ∷ ps))
        (sym (
          at_packet fuel n (length d + 5) (2 ∷ (d ++ wire ps rest)) written h (omega arith)
            (omega (arith, s))
          ∙ progress_channel d (wire ps rest) (read_sideband fuel n) n written))
        (after_progress d ps written
          (read_sideband fuel n (reader (wire ps rest) (note d written) []))
          (side-Step fuel n ps (note d written) (omega (arith, l)) h small))
