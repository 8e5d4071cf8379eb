-- ===== src/PacketLine.antt =====
-- git/retrieve.go: packet lines, and a line loaded from a reader. A read of four bytes gives what is
-- there.
pub mod Reader
pub mod Hex
pub mod Lines
pub mod Stream
pub mod Sideband
pub mod Flush
use dgit.Prelude.{
  ℕ, zero, suc, ◌+◌, ◌-◌, ◌*◌, ◌/◌, ◌%◌, ◌^◌, Bool, true, false, ◌&&◌, ◌||◌, List, [], ◌∷◌, ◌++◌,
  Bytes, codes, bytes_eq, ltb, leb, ◌==◌, if◌then◌else◌, length, take, drop, Option, none, some,
}

unfoldable pub digit : ℕ → ℕ
digit d = if ltb d 10 then d + 48 else d + 87

unfoldable pub four_digits : ℕ → Bytes
four_digits n =
    digit (n / 4096 % 16) ∷ digit (n / 256 % 16) ∷ digit (n / 16 % 16) ∷ digit (n % 16) ∷ []

-- `%.4x` of a number below 2^20.
unfoldable pub hex : ℕ → Bytes
hex n = if ltb n (2 ^ 16) then four_digits n else digit (n / 2 ^ 16) ∷ four_digits n

unfoldable pub pkt_line_encode : Bytes → Option Bytes
pkt_line_encode line =
    if ltb 65535 (length line) then none else some (hex (length line + 5) ++ (line ++ (b'\n' ∷ [])))

unfoldable pub pkt_line_encode_no_nl : Bytes → Option Bytes
pkt_line_encode_no_nl line =
    if ltb 65535 (length line) then none else some (hex (length line + 4) ++ line)

unfoldable pub digit_value : ℕ → Option ℕ
digit_value c =
    if leb 48 c && leb c 57
    then some (c - 48)
    else if leb 97 c && leb c 102
    then some (c - 87)
    else if leb 65 c && leb c 70
    then some (c - 55)
    else none

-- `strconv.ParseUint(s, 16, 64)` of four bytes, with the value so far.
unfoldable pub parse_hex : ℕ → Bytes → Option ℕ
parse_hex val [] = some val
parse_hex val (c ∷ s) = elim (digit_value c) [ none ↦ none | some d ↦ parse_hex (val * 16 + d) s ]

-- The line, and what is left of the reader.
pub data Loaded : Type 0 where
  loaded : Bytes → Bytes → Loaded
  load_panic : Loaded

unfoldable pub load_rest : ℕ → Bytes → Loaded
load_rest val rest =
    if val == 0
    then loaded [] rest
    else if ltb val 4 || ltb (length rest) (val - 4)
    then load_panic
    else loaded (take (val - 4) rest) (drop (val - 4) rest)

unfoldable pub load_line : Bytes → Loaded
load_line r = if ltb (length r) 4 then loaded [] [] else elim (parse_hex 0 (take 4 r)) [
  | none ↦ loaded [] (drop 4 r)
  | some val ↦ load_rest val (drop 4 r)
]
