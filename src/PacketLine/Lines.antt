-- ===== src/PacketLine/Lines.antt =====
-- Lines that are encoded, loaded and read.
use dgit.Prelude.{
  ℕ, ◌+◌, ◌-◌, ◌^◌, ◌<◌, ◌≤◌, ◌≡◌, sym, ap, ◌∙◌, false, ◌||◌, [], ◌∷◌, ◌++◌, append_assoc, Bytes,
  ltb, ◌==◌, length, length-append, take, drop, take-append, drop-append, some, some_inj, arith,
}
use dgit.PacketLine.{
  four_digits, pkt_line_encode, pkt_line_encode_no_nl, parse_hex, loaded, load_rest, load_line,
}
use dgit.PacketLine.Hex.{parse_hex-four_digits, hex-four_digits}

-- A line with its length in front.
load_four :
    (a b c d val : ℕ) (tail : Bytes)
    → parse_hex 0 (a ∷ b ∷ c ∷ d ∷ []) ≡ some val
    → load_line (a ∷ b ∷ c ∷ d ∷ tail) ≡ load_rest val tail
unfolding load_line
load_four a b c d val tail e = rw (long, e, load_line)
  where
    long : ltb (length (a ∷ b ∷ c ∷ d ∷ tail)) 4 ≡ false
    long = ground arith

load_line_lem :
    (body rest : Bytes)
    → length body + 4 < 2 ^ 16
    → load_line (four_digits (length body + 4) ++ (body ++ rest)) ≡ loaded body rest
unfolding load_rest four_digits
load_line_lem body rest h =
    load_four _ _ _ _ (length body + 4) (body ++ rest) (parse_hex-four_digits (length body + 4) h)
    ∙ rw (nonzero, whole, load_rest) (λ i. loaded (front i) (back i))
  where
    nonzero : (length body + 4 == 0) ≡ false
    nonzero = ground arith

    whole : (ltb (length body + 4) 4 || ltb (length (body ++ rest)) (length body + 4 - 4)) ≡ false
    whole = ground (arith, length-append body rest)

    exact : length body + 4 - 4 ≡ length body
    exact = omega arith

    front : take (length body + 4 - 4) (body ++ rest) ≡ body
    front = ap (λ n. take n (body ++ rest)) exact ∙ take-append body rest

    back : drop (length body + 4 - 4) (body ++ rest) ≡ rest
    back = ap (λ n. drop n (body ++ rest)) exact ∙ drop-append body rest

-- What the two encoders put out below the limit of four digits.
pub pkt_line_encode-four_digits :
    (line : Bytes)
    → length line ≤ 65530
    → pkt_line_encode line
      ≡ some (four_digits (length (line ++ (b'\n' ∷ [])) + 4) ++ (line ++ (b'\n' ∷ [])))
unfolding pkt_line_encode
pkt_line_encode-four_digits line h =
    rw (fits, pkt_line_encode)
      (ap (λ t. some (t ++ (line ++ (b'\n' ∷ []))))
        (hex-four_digits (length line + 5) (omega arith) ∙ ap four_digits sized))
  where
    fits : ltb 65535 (length line) ≡ false
    fits = ground arith

    sized : length line + 5 ≡ length (line ++ (b'\n' ∷ [])) + 4
    sized = omega (arith, length-append line (b'\n' ∷ []))

pub pkt_line_encode_no_nl-four_digits :
    (line : Bytes)
    → length line ≤ 65531
    → pkt_line_encode_no_nl line ≡ some (four_digits (length line + 4) ++ line)
unfolding pkt_line_encode_no_nl
pkt_line_encode_no_nl-four_digits line h =
    rw (fits, pkt_line_encode_no_nl)
      (ap (λ t. some (t ++ line)) (hex-four_digits (length line + 4) (omega arith)))
  where
    fits : ltb 65535 (length line) ≡ false
    fits = ground arith

-- A line of 65530 bytes at most is loaded again, with what stands behind it left: from what
-- `PktLineEncode` puts out with its newline, and from what `PktLineEncodeNoNl` puts out as it is.
pub load_line-pkt_line_encode :
    (line rest a b : Bytes)
    → length line ≤ 65530
    → pkt_line_encode line ≡ some a
    → pkt_line_encode_no_nl line ≡ some b
    → (load_line (a ++ rest) ≡ loaded (line ++ (b'\n' ∷ [])) rest)
      × (load_line (b ++ rest) ≡ loaded line rest)
load_line-pkt_line_encode line rest a b h e f = (
  ap (λ t. load_line (t ++ rest)) (some_inj (sym e ∙ pkt_line_encode-four_digits line h))
      ∙ ap load_line (
          append_assoc (four_digits (length (line ++ (b'\n' ∷ [])) + 4)) (line ++ (b'\n' ∷ []))
            rest)
      ∙ load_line_lem (line ++ (b'\n' ∷ [])) rest (omega (arith, length-append line (b'\n' ∷ []))),
  ap (λ t. load_line (t ++ rest))
        (some_inj (sym f ∙ pkt_line_encode_no_nl-four_digits line (omega arith)))
      ∙ ap load_line (append_assoc (four_digits (length line + 4)) line rest)
      ∙ load_line_lem line rest (omega arith),
)
