-- ===== src/Index/Entry.antt =====
-- git/index.go and git/lsfiles.go: index entries, their flags and their order. An `*IndexEntry` of the
-- source stands in one place of one index, and is a value here.
use dgit.Prelude.{
  ℕ, ◌-◌, ◌/◌, ◌^◌, Bool, true, false, not, List, [], ◌∷◌, Bytes, ltb, ◌==◌, if◌then◌else◌, bit_and,
  bit_or, bytes_eq, Option, none, some,
}

-- The V3 extension is a 16-bit flag word, and `none` for a nil pointer.
pub record IndexEntry : Type 0 where
  pub ctime : ℕ
  pub ctimenano : ℕ
  pub mtime : ℕ
  pub dev : ℕ
  pub ino : ℕ
  pub mode : ℕ
  pub uid : ℕ
  pub gid : ℕ
  pub fsize : ℕ
  pub sha1 : Bytes
  pub flags : ℕ
  pub extensions : Option ℕ
  pub path_name : Bytes

pub record Index : Type 0 where
  pub version : ℕ
  pub number_index_entries : ℕ
  pub objects : List IndexEntry

unfoldable pub new_index : Index
new_index = record { version = 2; number_index_entries = 0; objects = [] }

unfoldable pub stage_bits : ℕ → ℕ
stage_bits flags = bit_and (flags / 2 ^ 12) 0x3

abbrev pub stage : IndexEntry → ℕ
stage e = stage_bits e.flags

unfoldable pub extended_flag : ℕ → Bool
extended_flag flags = bit_and (flags / 2 ^ 14) 0x1 == 1

-- `Flags |= 1 << 14`
unfoldable pub set_extended_flag : ℕ → ℕ
set_extended_flag flags = bit_or flags (2 ^ 14)

-- `Flags &^= 1 << 14`
unfoldable pub clear_bit_14 : ℕ → ℕ
clear_bit_14 flags = if bit_and (flags / 2 ^ 14) 0x1 == 1 then flags - 2 ^ 14 else flags

unfoldable pub skip_worktree : IndexEntry → Bool
skip_worktree e =
    if not (extended_flag e.flags)
    then false
    else elim e.extensions [ none ↦ false | some x ↦ bit_and (x / 2 ^ 14) 0x1 == 1 ]

-- `IndexEntry.SetSkipWorktree`
unfoldable pub set_skip_worktree : Bool → IndexEntry → IndexEntry
set_skip_worktree value e =
    let old : ℕ = elim e.extensions [ none ↦ 0 | some x ↦ x ] in
    record e {
      flags = (if value then set_extended_flag e.flags else e.flags);
      extensions = some (if value then bit_or old (2 ^ 14) else clear_bit_14 old);
    }

-- The bytes loop of `ByPath.Less`.
unfoldable pub less_bytes : Bytes → Bytes → Bool
less_bytes [] j = true
less_bytes (x ∷ i) [] = false
less_bytes (x ∷ i) (y ∷ j) = if ltb x y then true else if ltb y x then false else less_bytes i j

unfoldable pub less : IndexEntry → IndexEntry → Bool
less a b =
    if bytes_eq a.path_name b.path_name
    then ltb (stage a) (stage b)
    else less_bytes a.path_name b.path_name

unfoldable pub insert_sorted : IndexEntry → List IndexEntry → List IndexEntry
insert_sorted e [] = e ∷ []
insert_sorted e (x ∷ xs) = if less e x then e ∷ (x ∷ xs) else x ∷ insert_sorted e xs

-- `sort.Sort(ByPath(…))`: among entries of different keys there is one sorted order.
unfoldable pub sort_by_path : List IndexEntry → List IndexEntry
sort_by_path [] = []
sort_by_path (x ∷ xs) = insert_sorted x (sort_by_path xs)

unfoldable pub keep : (IndexEntry → Bool) → List IndexEntry → List IndexEntry
keep p [] = []
keep p (x ∷ xs) = if p x then x ∷ keep p xs else keep p xs
