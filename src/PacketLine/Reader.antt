-- ===== src/PacketLine/Reader.antt =====
-- git/fetchpack.go: `packProtocolReader` over a connection that gives all its bytes. A slice past the
-- end of a buffer is a panic, as for a buffer without spare capacity.
use dgit.Prelude.{
  ℕ, zero, suc, ◌-◌, min, ◌||◌, [], ◌∷◌, ◌++◌, Bytes, codes, bytes_eq, ltb, ◌==◌, if◌then◌else◌,
  length, take, drop, Option, none, some,
}
use dgit.PacketLine.{parse_hex}

pub data Mode : Type 0 where
  direct_mode : Mode
  pkt_line_mode : Mode
  pkt_line_sideband_mode : Mode

-- `sideband` is what was written to it, `none` for a nil writer.
pub record PackReader : Type 0 where
  pub conn : Bytes
  pub state : Mode
  pub sideband : Option Bytes
  pub underread_buf : Bytes

pub data PackRead : Type 0 where
  delivered : Bytes → PackReader → PackRead
  flush_pkt : PackReader → PackRead
  delim_pkt : PackReader → PackRead
  read_error : PackRead
  read_panic : PackRead
  out_of_fuel : PackRead

-- `io.ReadFull(p.conn, …)` of `size` bytes, delivered.
unfoldable pub read_full : ℕ → PackReader → PackRead
read_full size p =
    if ltb (length p.conn) size
    then read_error
    else delivered (take size p.conn) (record p { conn = drop size p.conn })

-- `fmt.Fprintf(p.sideband, "remote: %s", msg)`, if there is a sideband.
unfoldable pub note : Bytes → Option Bytes → Option Bytes
note msg none = none
note msg (some written) = some (written ++ (codes "remote: " ++ msg))

-- The first branch of `Read`, for a buffer of `n` bytes.
unfoldable pub read_underread : ℕ → PackReader → PackRead
read_underread n p =
    if ltb (length p.underread_buf) n
    then delivered p.underread_buf (record p { underread_buf = [] })
    else delivered (take n p.underread_buf) (record p { underread_buf = drop n p.underread_buf })

-- The mode PktLineMode.
unfoldable pub read_line : ℕ → PackReader → PackRead
read_line n p =
    if ltb n 4
    then read_panic
    else if ltb (length p.conn) 4
    then read_error
    else let header : Bytes = take 4 p.conn in
      let q : PackReader = record p { conn = drop 4 p.conn } in
      if bytes_eq header (codes "0000")
      then flush_pkt q
      else if bytes_eq header (codes "0001")
      then delim_pkt q
      else elim (parse_hex 0 header) [
        | none ↦ read_error
        | some size ↦ if ltb size 4 || ltb n (size - 4) then read_panic else read_full (size - 4) q
      ]

-- A payload `tmp` that is larger than the buffer.
unfoldable pub keep_underread : ℕ → Bytes → PackReader → PackRead
keep_underread n tmp p = delivered (take n tmp) (record p { underread_buf = drop n tmp })

-- The data channel.
unfoldable pub read_data : ℕ → ℕ → PackReader → PackRead
read_data n size p =
    if ltb size 5
    then read_panic
    else if ltb n (size - 5)
    then if ltb (length p.conn) (size - 5)
      then read_error
      else keep_underread n (take (size - 5) p.conn) (record p { conn = drop (size - 5) p.conn })
    else read_full (size - 5) p

unfoldable pub read_channel : (PackReader → PackRead) → ℕ → ℕ → PackReader → PackRead
read_channel again n size p = elim p.conn [
  | [] ↦ read_error
  | channel ∷ conn ↦
      if channel == 1
      then read_data n size (record p { conn = conn })
      else if channel == 2
      then if ltb size 5
        then read_panic
        else if ltb (length conn) (size - 5)
        then read_error
        else again (record p {
          conn = drop (size - 5) conn;
          sideband = note (take (size - 5) conn) p.sideband;
        })
      else if channel == 3
      then if ltb size 5 then read_panic else read_error
      else read_error
]

-- From the label sidebandRead on, with the jump back to it.
unfoldable pub read_sideband : ℕ → ℕ → PackReader → PackRead
read_sideband zero n p = out_of_fuel
read_sideband (suc fuel) n p =
    if ltb (length p.conn) 4
    then read_error
    else let header : Bytes = take 4 p.conn in
      let q : PackReader = record p { conn = drop 4 p.conn } in
      if bytes_eq header (codes "0000")
      then flush_pkt q
      else if bytes_eq header (codes "0001")
      then delim_pkt q
      else elim (parse_hex 0 header) [
        | none ↦ read_error
        | some size ↦ if n == 0 then read_panic else read_channel (read_sideband fuel n) n size q
      ]

-- `Read` into a buffer of `n` bytes, of a connection whose own reads give `chunk` bytes at most.
unfoldable pub pack_read : ℕ → ℕ → PackReader → PackRead
pack_read chunk n p = elim p.underread_buf [
  | b ∷ bs ↦ read_underread n p
  | [] ↦ elim p.state [
    | direct_mode ↦ elim p.conn [
      | [] ↦ read_error
      | c ∷ conn ↦
          delivered (take n (take chunk (c ∷ conn)))
            (record p { conn = drop (min chunk n) (c ∷ conn) })
    ]
    | pkt_line_mode ↦ read_line n p
    | pkt_line_sideband_mode ↦ read_sideband (suc (length p.conn)) n p
  ]
]
