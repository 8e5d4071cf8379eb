-- ===== src/ReadTree/Paths.antt =====
-- git/readtree.go: the paths that `checkMergeAndUpdate` does not allow in an index.
use dgit.Prelude.{
  ◌≡◌, inl, inr, refl, ap, Bool, true, false, ◌&&◌, ◌||◌, List, [], ◌∷◌, ◌++◌, Bytes, codes,
  bytes_eq, has_prefix, ◌==◌, Bool-cases, if◌then◌else◌, arith,
}
use dgit.Config.Spaces.{trim_spaces}
use dgit.Config.Trim.{Lacks}
use dgit.Ignore.{split_slashes, prepend_byte}

-- `strings.HasSuffix(s, t)` and `strings.Index(s, t) != -1`
unfoldable pub has_suffix : Bytes → Bytes → Bool
has_suffix [] t = bytes_eq [] t
has_suffix (c ∷ s) t = bytes_eq (c ∷ s) t || has_suffix s t

unfoldable pub has_infix : Bytes → Bytes → Bool
has_infix [] t = has_prefix [] t
has_infix (c ∷ s) t = has_prefix (c ∷ s) t || has_infix s t

-- `strings.Replace(path, "\u200c", "", -1)`
unfoldable pub without_joiners : Bytes → Bytes
without_joiners (a ∷ (b ∷ (c ∷ s))) = elim (a == 0xe2 && b == 0x80 && c == 0x8c) [
  | true ↦ without_joiners s
  | false ↦ a ∷ without_joiners (b ∷ (c ∷ s))
]
without_joiners s = s

-- The two settings, the two regular expressions of the NTFS test, and `strings.ToLower`.
pub record PathRules : Type 0 where
  pub protect_hfs : Bool
  pub protect_ntfs : Bool
  pub matches_short_name : Bytes → Bool
  pub matches_dot_git : Bytes → Bool
  pub to_lower : Bytes → Bytes

unfoldable pub has_piece : Bytes → Bytes → Bool
has_piece path piece =
    bytes_eq path piece
    || (has_suffix path (b'/' ∷ piece) || has_prefix path (piece ++ (b'/' ∷ [])))
    || has_infix path (b'/' ∷ (piece ++ (b'/' ∷ [])))

module _ (r : PathRules) where
  unfoldable pub spelled : Bytes → Bytes
  spelled path = if r.protect_hfs then trim_spaces (without_joiners path) else path

  unfoldable pub matches_ntfs : Bytes → Bool
  matches_ntfs path = r.protect_ntfs && (r.matches_short_name path || r.matches_dot_git path)

  unfoldable pub folded : Bytes → Bytes
  folded path = if r.protect_hfs || r.protect_ntfs then r.to_lower path else path

  unfoldable pub disallow : Bytes → Bytes → Bool
  disallow path piece = matches_ntfs (spelled path) || has_piece (folded (spelled path)) piece

  unfoldable pub is_invalid : Bytes → Bool
  is_invalid path =
      disallow path (codes ".") || disallow path (codes "..") || disallow path (codes ".git")

-- One of the segments between slashes is the piece.
unfoldable pub has_segment : Bytes → List Bytes → Bool
has_segment piece [] = false
has_segment piece (s ∷ segments) = bytes_eq s piece || has_segment piece segments

first_segment : Bytes → Bytes
first_segment [] = []
first_segment (c ∷ s) = if c == b'/' then [] else c ∷ first_segment s

-- The segments behind the first one.
later_segments : Bytes → List Bytes
later_segments [] = []
later_segments (c ∷ s) = if c == b'/' then split_slashes s else later_segments s

split_slashes_lem : (s : Bytes) → split_slashes s ≡ first_segment s ∷ later_segments s
unfolding split_slashes first_segment later_segments prepend_byte
split_slashes_lem [] = refl
split_slashes_lem (c ∷ s) = elim (Bool-cases (c == b'/')) [
  | inl y ↦ rw y refl
  | inr n ↦ rw n (ap (prepend_byte c) (split_slashes_lem s))
]

is_first : Bytes → Bytes → Bool
is_first s piece = bytes_eq s piece || has_prefix s (piece ++ (b'/' ∷ []))

is_later : Bytes → Bytes → Bool
is_later s piece = has_suffix s (b'/' ∷ piece) || has_infix s (b'/' ∷ (piece ++ (b'/' ∷ [])))

is_first-segment :
    (s piece : Bytes) → Lacks b'/' piece → is_first s piece ≡ bytes_eq (first_segment s) piece
unfolding is_first first_segment bytes_eq has_prefix
is_first-segment [] [] h = refl
is_first-segment [] (d ∷ piece) h = refl
is_first-segment (c ∷ s) [] h = ground arith
is_first-segment (c ∷ s) (d ∷ piece) (other, h) = ground (arith, is_first-segment s piece h)

is_later-segments :
    (s piece : Bytes) → Lacks b'/' piece → is_later s piece ≡ has_segment piece (later_segments s)
unfolding is_later is_first has_suffix has_infix later_segments has_segment bytes_eq has_prefix
is_later-segments [] piece h = refl
is_later-segments (c ∷ s) piece h = elim (Bool-cases (c == b'/')) [
  | inl y ↦
      rw (y, split_slashes_lem s)
        (ground (arith, is_first-segment s piece h, is_later-segments s piece h))
  | inr n ↦ rw n (is_later-segments s piece h)
]

has_piece-segment :
    (s piece : Bytes) → Lacks b'/' piece → has_piece s piece ≡ has_segment piece (split_slashes s)
unfolding has_piece has_segment is_first is_later
has_piece-segment s piece h =
    rw (split_slashes_lem s)
      (ground (arith, is_first-segment s piece h, is_later-segments s piece h))

-- A path is refused exactly if one of its segments between slashes is `.`, `..` or `.git`, or, for
-- NTFS, one of the two regular expressions matches it. With HFS it is read without zero width
-- joiners and without Unicode white space at its ends, and with HFS or NTFS in lower case for the segments.
pub is_invalid-segments :
    (r : PathRules) (path : Bytes)
    → let segments : List Bytes = split_slashes (folded r (spelled r path)) in
      is_invalid r path ≡ (
        matches_ntfs r (spelled r path)
        || (has_segment (codes ".") segments
            || has_segment (codes "..") segments
            || has_segment (codes ".git") segments))
unfolding is_invalid disallow
is_invalid-segments r path =
    let text : Bytes = folded r (spelled r path) in
    ground (
      arith,
      has_piece-segment text (codes ".") (omega arith, tt),
      has_piece-segment text (codes "..") (omega arith, (omega arith, tt)),
      has_piece-segment text (codes ".git")
          (omega arith, (omega arith, (omega arith, (omega arith, tt)))),
    )
