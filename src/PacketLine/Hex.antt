-- ===== src/PacketLine/Hex.antt =====
-- The length of a packet line, printed in hexadecimal digits and parsed.
use dgit.Prelude.{
  ℕ, ◌+◌, ◌*◌, ◌/◌, ◌%◌, ◌^◌, ◌<◌, ◌≤◌, ◌≡◌, refl, sym, ap, ◌∙◌, false, [], ◌∷◌, ◌++◌, Bytes, codes,
  bytes_eq, bytes_eq_iff, Bool-cases, inl, inr, length, take, drop, some, some_inj, arith,
}
use dgit.PacketLine.{digit, four_digits, hex, digit_value, parse_hex}

digit_value-digit : (d : ℕ) → d < 16 → digit_value (digit d) ≡ some d
unfolding digit_value digit
digit_value-digit d h = ground arith

parse_one :
    (val d : ℕ) (s : Bytes) → d < 16 → parse_hex val (digit d ∷ s) ≡ parse_hex (val * 16 + d) s
unfolding parse_hex
parse_one val d s h = rw (digit_value-digit d h, parse_hex)

pub parse_hex-four_digits : (n : ℕ) → n < 2 ^ 16 → parse_hex 0 (four_digits n) ≡ some n
unfolding parse_hex four_digits
parse_hex-four_digits n h =
    parse_one 0 a (digit b ∷ digit c ∷ digit d ∷ []) (omega arith)
    ∙ parse_one (0 * 16 + a) b (digit c ∷ digit d ∷ []) (omega arith)
    ∙ parse_one ((0 * 16 + a) * 16 + b) c (digit d ∷ []) (omega arith)
    ∙ parse_one (((0 * 16 + a) * 16 + b) * 16 + c) d [] (omega arith)
    ∙ ap some sum
  where
    a : ℕ
    a = n / 4096 % 16

    b : ℕ
    b = n / 256 % 16

    c : ℕ
    c = n / 16 % 16

    d : ℕ
    d = n % 16

    sum : (((0 * 16 + a) * 16 + b) * 16 + c) * 16 + d ≡ n
    sum = omega arith

-- No length from 4 on is printed as a packet without data.
four_digits_ne :
    (n : ℕ) (s : Bytes) (m : ℕ)
    → parse_hex 0 s ≡ some m
    → m < 4
    → 4 ≤ n
    → n < 2 ^ 16
    → bytes_eq (four_digits n) s ≡ false
four_digits_ne n s m p l g h = elim (Bool-cases (bytes_eq (four_digits n) s)) [
  | inr e ↦ e
  | inl e ↦
      let same : n ≡ m = some_inj (
        sym (parse_hex-four_digits n h)
        ∙ ap (parse_hex 0) ((bytes_eq_iff (four_digits n) s).0 e)
        ∙ p) in
      absurd (omega (arith, same))
]

pub not_flush : (n : ℕ) → 4 ≤ n → n < 2 ^ 16 → bytes_eq (four_digits n) (codes "0000") ≡ false
unfolding parse_hex digit_value
not_flush n g h = four_digits_ne n (codes "0000") 0 refl (omega arith) g h

pub not_delim : (n : ℕ) → 4 ≤ n → n < 2 ^ 16 → bytes_eq (four_digits n) (codes "0001") ≡ false
unfolding parse_hex digit_value
not_delim n g h = four_digits_ne n (codes "0001") 1 refl (omega arith) g h

pub take-four_digits : (n : ℕ) (s : Bytes) → take 4 (four_digits n ++ s) ≡ four_digits n
unfolding four_digits
take-four_digits n s = refl

pub drop-four_digits : (n : ℕ) (s : Bytes) → drop 4 (four_digits n ++ s) ≡ s
unfolding four_digits
drop-four_digits n s = refl

pub length-four_digits : (n : ℕ) (s : Bytes) → length (four_digits n ++ s) ≡ 4 + length s
unfolding four_digits
length-four_digits n s = omega arith

pub hex-four_digits : (n : ℕ) → n < 2 ^ 16 → hex n ≡ four_digits n
unfolding hex
hex-four_digits n h = ground arith
