-- ===== src/PacketLine/Stream.antt =====
-- A stream of packets with a side band, and the calls of `Read` that come to its flush packet.
use dgit.Prelude.{
  ℕ, zero, suc, ◌+◌, ◌≤◌, List, [], ◌∷◌, ◌++◌, Bytes, codes, length, Option, none, some, All,
}
use dgit.PacketLine.{four_digits}
use dgit.PacketLine.Reader.{
  pkt_line_sideband_mode, PackReader, PackRead, delivered, flush_pkt, delim_pkt, read_error,
  read_panic, out_of_fuel, note, pack_read,
}

-- What a sender puts on the channels 1 and 2.
pub data Packet : Type 0 where
  data_packet : Bytes → Packet
  progress : Bytes → Packet

abbrev pub body : Packet → Bytes
body (data_packet d) = d
body (progress d) = d

-- The packets, a flush packet, and what comes behind.
unfoldable pub wire : List Packet → Bytes → Bytes
wire [] rest = codes "0000" ++ rest
wire (data_packet d ∷ ps) rest = four_digits (length d + 5) ++ (1 ∷ (d ++ wire ps rest))
wire (progress d ∷ ps) rest = four_digits (length d + 5) ++ (2 ∷ (d ++ wire ps rest))

abbrev pub data_of : List Packet → Bytes
data_of [] = []
data_of (data_packet d ∷ ps) = d ++ data_of ps
data_of (progress d ∷ ps) = data_of ps

abbrev pub notes_of : List Packet → Option Bytes → Option Bytes
notes_of [] written = written
notes_of (data_packet d ∷ ps) written = notes_of ps written
notes_of (progress d ∷ ps) written = notes_of ps (note d written)

abbrev pub AllSmall : List Packet → Type 0
AllSmall = All (λ (p : Packet). length (body p) ≤ 65530)

-- Calls of `Read` up to the flush packet: all that they deliver, and the reader then.
unfoldable pub continue :
    (PackReader → Option (Bytes × PackReader)) → PackRead → Option (Bytes × PackReader)
continue next (delivered bs p) = elim (next p) [ none ↦ none | some (all, q) ↦ some (bs ++ all, q) ]
continue next (flush_pkt p) = some ([], p)
continue next (delim_pkt p) = none
continue next read_error = none
continue next read_panic = none
continue next out_of_fuel = none

unfoldable pub read_to_flush : ℕ → ℕ → (ℕ → ℕ) → PackReader → Option (Bytes × PackReader)
read_to_flush chunk zero sizes p = none
read_to_flush chunk (suc calls) sizes p =
    continue (read_to_flush chunk calls (λ i. sizes (i + 1))) (pack_read chunk (sizes 0) p)

-- The number of calls is at most the number of bytes and packets.
abbrev pub weight : List Packet → ℕ
weight [] = 0
weight (data_packet d ∷ ps) = length d + 1 + weight ps
weight (progress d ∷ ps) = 1 + weight ps

-- A reader in the mode with a side band.
abbrev pub reader : Bytes → Option Bytes → Bytes → PackReader
reader conn written under = record {
  conn = conn;
  state = pkt_line_sideband_mode;
  sideband = written;
  underread_buf = under;
}
