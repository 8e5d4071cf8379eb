-- ===== src/PacketLine/Flush.antt =====
-- Calls of `Read` into buffers of any sizes come to the flush packet.
use dgit.Prelude.{
  ℕ, zero, suc, ◌+◌, ◌<◌, ◌≤◌, ◌≡◌, sym, ap, ◌∙◌, List, [], ◌∷◌, ◌++◌, append_assoc, Bytes, ltb,
  Bool-cases, inl, inr, length, length-drop, take, drop, take-append-drop, Option, some, arith,
}
use dgit.PacketLine.Reader.{PackReader, PackRead, read_underread, pack_read}
use dgit.PacketLine.Stream.{
  Packet, wire, data_of, notes_of, AllSmall, continue, read_to_flush, weight, reader,
}
use dgit.PacketLine.Sideband.{Step, ended, moved, length-wire, side-Step}

module _ (rest : Bytes) where
  -- The rest of the calls after one that moved.
  next-Step :
      (next : PackReader → Option (Bytes × PackReader)) (written : Option Bytes) (ps : List Packet)
      (r : PackRead)
      → Step rest written ps r
      → ((under : Bytes) (qs : List Packet) (noted : Option Bytes)
          → length under + weight qs < weight ps
          → AllSmall qs
          → next (reader (wire qs rest) noted under)
            ≡ some (under ++ data_of qs, reader rest (notes_of qs noted) []))
      → continue next r ≡ some (data_of ps, reader rest (notes_of ps written) [])
  unfolding continue
  next-Step next written ps _ (ended e) ih =
      ap (λ t. some (t, reader rest (notes_of ps written) [])) (sym e)
  next-Step next written ps _ (moved bs under qs noted a b c small) ih =
      rw (ih under qs noted c small, continue) (λ i. some (a i, reader rest (b i) []))

  underread_step :
      (n : ℕ) (b : ℕ) (bs : Bytes) (ps : List Packet) (written : Option Bytes)
      (next : PackReader → Option (Bytes × PackReader))
      → 1 ≤ n
      → ((under : Bytes)
          → length under < length (b ∷ bs)
          → next (reader (wire ps rest) written under)
            ≡ some (under ++ data_of ps, reader rest (notes_of ps written) []))
      → continue next (read_underread n (reader (wire ps rest) written (b ∷ bs)))
        ≡ some ((b ∷ bs) ++ data_of ps, reader rest (notes_of ps written) [])
  unfolding continue read_underread
  underread_step n b bs ps written next h ih = elim (Bool-cases (ltb (length (b ∷ bs)) n)) [
    | inl y ↦ rw (y, read_underread, ih [] (ground arith), continue)
    | inr m ↦
        rw
          (
            m,
            read_underread,
            ih (drop n (b ∷ bs)) (ground (arith, length-drop n (b ∷ bs))),
            continue,
          )
          (ap (λ t. some (t, reader rest (notes_of ps written) []))
            (sym (append_assoc (take n (b ∷ bs)) (drop n (b ∷ bs)) (data_of ps))
              ∙ ap (λ t. t ++ data_of ps) (take-append-drop n (b ∷ bs))))
  ]

  -- In the mode of packet lines with a side band, calls of `Read` into buffers of any sizes that
  -- are not empty come to the flush packet, in at most one call more than there are bytes of data
  -- and packets; together they deliver first what was underread and then the data of all packets
  -- in order, every message of the second channel is on the side band if there is one, and the
  -- reader stands behind the flush packet. The packets carry 65530 bytes at most.
  pub read_to_flush-wire :
      (chunk calls : ℕ) (sizes : ℕ → ℕ) (under : Bytes) (ps : List Packet) (written : Option Bytes)
      → ((i : ℕ) → 1 ≤ sizes i)
      → AllSmall ps
      → length under + weight ps < calls
      → read_to_flush chunk calls sizes (reader (wire ps rest) written under)
        ≡ some (under ++ data_of ps, reader rest (notes_of ps written) [])
  unfolding read_to_flush pack_read
  read_to_flush-wire chunk zero sizes under ps written h small l = absurd (omega (arith, l))
  read_to_flush-wire chunk (suc calls) sizes [] ps written h small l =
      next-Step (read_to_flush chunk calls (λ i. sizes (i + 1))) written ps _
        (side-Step rest (suc (length (wire ps rest))) (sizes 0) ps written
          (omega (arith, length-wire rest ps)) (h 0) small)
        (λ under qs noted c s.
          read_to_flush-wire chunk calls (λ i. sizes (i + 1)) under qs noted (λ i. h (i + 1)) s
            (omega (arith, c, l)))
  read_to_flush-wire chunk (suc calls) sizes (b ∷ bs) ps written h small l =
      underread_step (sizes 0) b bs ps written (read_to_flush chunk calls (λ i. sizes (i + 1)))
        (h 0)
        (λ under c.
          read_to_flush-wire chunk calls (λ i. sizes (i + 1)) under ps written (λ i. h (i + 1))
            small (omega (arith, c, l)))
