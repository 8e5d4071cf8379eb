-- ===== src/Samples/PacketLine.antt =====
-- A line, and a stream of three packets that is read four bytes at a time.
use dgit.Prelude.{◌≡◌, refl, List, [], ◌∷◌, ◌++◌, codes, bytes_eq, some, arith}
use dgit.PacketLine.{
  digit, four_digits, hex, pkt_line_encode, pkt_line_encode_no_nl, digit_value, parse_hex, loaded,
  load_line,
}
use dgit.PacketLine.Reader.{
  read_full, note, read_underread, keep_underread, read_data, read_channel, read_sideband,
  pack_read,
}
use dgit.PacketLine.Lines.{load_line-pkt_line_encode}
use dgit.PacketLine.Stream.{Packet, data_packet, progress, wire, continue, read_to_flush, reader}
use dgit.PacketLine.Flush.{read_to_flush-wire}

encoded : pkt_line_encode (codes "done") ≡ some (codes "0009done" ++ (b'\n' ∷ []))
unfolding pkt_line_encode hex four_digits digit
encoded = refl

encoded_no_nl : pkt_line_encode_no_nl (codes "done") ≡ some (codes "0008done")
unfolding pkt_line_encode_no_nl hex four_digits digit
encoded_no_nl = refl

load_line-pkt_line_encode_example :
    (load_line ((codes "0009done" ++ (b'\n' ∷ [])) ++ codes "0000")
      ≡ loaded (codes "done" ++ (b'\n' ∷ [])) (codes "0000"))
    × (load_line (codes "0008done" ++ codes "0000") ≡ loaded (codes "done") (codes "0000"))
load_line-pkt_line_encode_example =
    load_line-pkt_line_encode (codes "done") (codes "0000") (codes "0009done" ++ (b'\n' ∷ []))
      (codes "0008done") (omega arith) encoded encoded_no_nl

abbrev packets : List Packet
packets = data_packet (codes "abcdef") ∷ progress (codes "half") ∷ data_packet (codes "g") ∷ []

run :
    read_to_flush 100 11 (λ i. 4) (reader (wire packets (codes "next")) (some []) [])
    ≡ some (codes "abcdefg", reader (codes "next") (some (codes "remote: half")) [])
unfolding wire four_digits digit read_to_flush continue pack_read read_sideband read_channel
    read_data keep_underread read_full read_underread note parse_hex digit_value bytes_eq
run = refl

read_to_flush-wire_example :
    read_to_flush 100 11 (λ i. 4) (reader (wire packets (codes "next")) (some []) [])
    ≡ some (codes "abcdefg", reader (codes "next") (some (codes "remote: half")) [])
unfolding note
read_to_flush-wire_example =
    read_to_flush-wire (codes "next") 100 11 (λ i. 4) [] packets (some []) (λ i. omega arith)
      (omega arith, (omega arith, (omega arith, tt))) (omega arith)
