-- ===== src/Delta/Reader.antt =====
-- git/delta/reader.go: resolving a delta against its base. `none` of an operand is the error of a
-- `ReadByte` at the end of the stream. The count that comes with an error is left out.
use dgit.Prelude.{
  ℕ, zero, suc, ◌+◌, ◌*◌, ◌%◌, ◌^◌, [], ◌∷◌, ◌++◌, Bytes, ltb, leb, ◌==◌, if◌then◌else◌, length,
  take, drop, min, bit_and, bit_or, Option, none, some,
}

pub record Reader : Type 0 where
  pub src : Bytes
  pub base : Bytes
  pub sz : ℕ
  pub cached : Bytes

pub data ReadError : Type 0 where
  eof unexpected_eof could_not_read : ReadError

-- What `Read` puts into the buffer, and the reader after it; or its error; or a panic.
pub data ReadResult : Type 0 where
  got : Bytes → Reader → ReadResult
  fail : ReadError → ReadResult
  panic : ReadResult

infixl 5 ◌>>=◌
abbrev pub ◌>>=◌ {ℓ κ} : {A : Type ℓ} {B : Type κ} → Option A → (A → Option B) → Option B
none >>= f = none
some a >>= f = f a

-- The loop of `readVariable`; `none` is its panic at the end of the stream. A shift of 64 or more
-- gives 0, as in Go.
unfoldable pub read_variable_loop : Bytes → ℕ → ℕ → Option (ℕ × Bytes)
read_variable_loop [] val i = none
read_variable_loop (b ∷ src) val i =
    let val' = bit_or val (bit_and b 127 * 2 ^ (i * 7) % 2 ^ 64) in
    let more = read_variable_loop src val' (i + 1) in if ltb b 128 then some (val', src) else more

unfoldable pub read_variable : Bytes → Option (ℕ × Bytes)
read_variable src = read_variable_loop src 0 0

-- `NewReader`
unfoldable pub new_reader : Bytes → Bytes → Option Reader
new_reader src base = do
  (_, rest) ← read_variable src
  (sz, rest') ← read_variable rest
  some (record { src = rest'; base = base; sz = sz; cached = [] })

-- `if instruction&mask != 0 { o, err := d.src.ReadByte(); …; val |= uint64(o) << k }`
unfoldable pub read_operand : ℕ → ℕ → ℕ → ℕ → Bytes → Option (ℕ × Bytes)
read_operand instruction mask k val src =
    if bit_and instruction mask == 0
    then some (val, src)
    else elim src [ [] ↦ none | o ∷ rest ↦ some (bit_or val (o * 2 ^ k), rest) ]

-- The part of `Read` that collects the offset, and the one that collects the length.
unfoldable pub copy_offset : ℕ → Bytes → Option (ℕ × Bytes)
copy_offset instruction src = do
  (o1, src1) ← read_operand instruction 0x01 0 0 src
  (o2, src2) ← read_operand instruction 0x02 8 o1 src1
  (o3, src3) ← read_operand instruction 0x04 16 o2 src2
  read_operand instruction 0x08 24 o3 src3

unfoldable pub copy_length : ℕ → Bytes → Option (ℕ × Bytes)
copy_length instruction src = do
  (l1, src1) ← read_operand instruction 0x10 0 0 src
  (l2, src2) ← read_operand instruction 0x20 8 l1 src1
  (len, src3) ← read_operand instruction 0x40 16 l2 src2
  some ((if len == 0 then 0x10000 else len), src3)

-- The offset and the length of a copy, and the stream behind them.
unfoldable pub copy_operands : ℕ → Bytes → Option (ℕ × ℕ × Bytes)
copy_operands instruction src = do
  (offset, src1) ← copy_offset instruction src
  (len, src2) ← copy_length instruction src1
  some (offset, len, src2)

-- `io.ReadFull` of `n` bytes from what a stream still holds.
pub data Full : Type 0 where
  full : Bytes → Bytes → Full
  short : ReadError → Full

unfoldable pub read_full : ℕ → Bytes → Full
read_full n s =
    if leb n (length s)
    then full (take n s) (drop n s)
    else short (if length s == 0 then eof else unexpected_eof)

-- `readCached`, into a buffer of `n` bytes
unfoldable pub read_cached : Reader → ℕ → ReadResult
read_cached d n =
    let k = min n (length d.cached) in
    got (take k d.cached) (
      if k == length d.cached
      then record d { cached = [] }
      else record d { cached = drop k d.cached })

-- After `Seek`, the base yields what stands from the offset on.
unfoldable pub read_copy : Reader → ℕ → ℕ → ℕ → ReadResult
read_copy d offset len n =
    let there = read_full len (drop offset d.base) in
    if leb len n then elim there [ full bytes _ ↦ got bytes d | short e ↦ fail e ] else elim there [
      | full bytes _ ↦ read_cached (record d { cached = bytes }) n
      | short e ↦ fail e
    ]

unfoldable pub read_insert : Reader → ℕ → ℕ → ReadResult
read_insert d len n =
    let here = read_full len d.src in
    if leb len n
    then elim here [
      | full bytes rest ↦ got bytes (record d { src = rest })
      | short _ ↦ fail could_not_read
    ]
    else elim here [
      | full bytes rest ↦ read_cached (record d { src = rest; cached = bytes }) n
      | short e ↦ fail e
    ]

unfoldable pub read_instruction : Reader → Bytes → ℕ → ReadResult
read_instruction d [] n = fail eof
read_instruction d (instruction ∷ src) n =
    if instruction == 0
    then panic
    else if leb 128 instruction
    then elim (copy_operands instruction src) [
      | none ↦ fail eof
      | some (offset, len, src') ↦ read_copy (record d { src = src' }) offset len n
    ]
    else read_insert (record d { src = src }) instruction n

-- `Read` into a buffer of `n` bytes
unfoldable pub read : Reader → ℕ → ReadResult
read d n = if length d.cached == 0 then read_instruction d d.src n else read_cached d n

-- `ioutil.ReadAll` over the reader: it reads until `eof`. The sizes of its buffers are not
-- documented, so they are an argument. `unfinished` means that the fuel ran out.
pub data AllResult : Type 0 where
  all : Bytes → AllResult
  error : ReadError → AllResult
  panicked : AllResult
  unfinished : AllResult

unfoldable pub read_all : ℕ → (ℕ → ℕ) → Reader → Bytes → AllResult
read_all zero sizes d out = unfinished
read_all (suc fuel) sizes d out = elim (read d (sizes fuel)) [
  | got bytes d' ↦ read_all fuel sizes d' (out ++ bytes)
  | fail eof ↦ all out
  | fail unexpected_eof ↦ error unexpected_eof
  | fail could_not_read ↦ error could_not_read
  | panic ↦ panicked
]
