-- ===== src/Config/Spaces.antt =====
-- git/readtree.go, git/updateindex.go and git/sha1.go: `strings.TrimSpace` on any bytes, which takes
-- off white space as Unicode has it, in UTF-8.
use dgit.Prelude.{ℕ, zero, suc, Bool, ◌&&◌, ◌||◌, [], ◌∷◌, ◌++◌, Bytes, leb, ◌==◌, if◌then◌else◌}
use dgit.Config.{is_space}

-- U+0085 and U+00A0.
unfoldable pub two_bytes_space : ℕ → ℕ → Bool
two_bytes_space a b = a == 0xc2 && (b == 0x85 || b == 0xa0)

-- U+1680, U+2000 to U+200A, U+2028, U+2029, U+202F, U+205F and U+3000.
unfoldable pub three_bytes_space : ℕ → ℕ → ℕ → Bool
three_bytes_space a b c =
    (a == 0xe1 && b == 0x9a && c == 0x80)
    || (a == 0xe2
        && b == 0x80
        && ((leb 0x80 c && leb c 0x8a) || (c == 0xa8 || c == 0xa9 || c == 0xaf)))
    || (a == 0xe2 && b == 0x81 && c == 0x9f)
    || (a == 0xe3 && b == 0x80 && c == 0x80)

-- The bytes of the white space at the head, or 0 if there is none.
unfoldable pub space_ahead : Bytes → ℕ
space_ahead [] = 0
space_ahead (a ∷ []) = if is_space a then 1 else 0
space_ahead (a ∷ (b ∷ [])) = if is_space a then 1 else if two_bytes_space a b then 2 else 0
space_ahead (a ∷ (b ∷ (c ∷ s))) =
    if is_space a
    then 1
    else if two_bytes_space a b
    then 2
    else if three_bytes_space a b c
    then 3
    else 0

-- The same for a text whose bytes stand in reverse.
unfoldable pub space_behind : Bytes → ℕ
space_behind [] = 0
space_behind (a ∷ []) = if is_space a then 1 else 0
space_behind (b ∷ (a ∷ [])) = if is_space b then 1 else if two_bytes_space a b then 2 else 0
space_behind (c ∷ (b ∷ (a ∷ s))) =
    if is_space c
    then 1
    else if two_bytes_space b c
    then 2
    else if three_bytes_space a b c
    then 3
    else 0

-- Takes off the white space at the head; `left` bytes of one are still to go.
unfoldable pub trim_from : (Bytes → ℕ) → ℕ → Bytes → Bytes
trim_from ahead left [] = []
trim_from ahead (suc left) (c ∷ s) = trim_from ahead left s
trim_from ahead zero (c ∷ s) = elim (ahead (c ∷ s)) [ zero ↦ c ∷ s | suc n ↦ trim_from ahead n s ]

unfoldable pub backwards : Bytes → Bytes
backwards [] = []
backwards (c ∷ s) = backwards s ++ (c ∷ [])

unfoldable pub trim_spaces : Bytes → Bytes
trim_spaces s = backwards (trim_from space_behind 0 (backwards (trim_from space_ahead 0 s)))
