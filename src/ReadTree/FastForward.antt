-- ===== src/ReadTree/FastForward.antt =====
-- git/readtree.go: `ReadTreeFastForward`, from the three maps to the new index.
use dgit.Prelude.{
  ◌⊎◌, inl, inr, ◌%◌, ◌^◌, Bool, not, ◌&&◌, List, [], ◌∷◌, ◌++◌, Bytes, if◌then◌else◌, bytes_eq,
  none, some, length,
}
use dgit.Index.Entry.{IndexEntry, Index, new_index}
use dgit.ReadTree.Maps.{IndexMap, get, Files, is_clean}

pub data MergeError : Type 0 where
  would_be_overwritten : Bytes → MergeError
  not_uptodate : Bytes → MergeError
  case_3 : MergeError

-- What a loop does with one entry.
pub data Decision : Type 0 where
  append : IndexEntry → Decision
  leave_out : Decision
  refuse : MergeError → Decision

pub data Merged : Type 0 where
  objects : List IndexEntry → Merged
  failed : MergeError → Merged

-- A loop that appends to `newidx.Objects` or returns at the first error.
unfoldable pub run : (IndexEntry → Decision) → IndexMap → Merged
run decide [] = objects []
run decide (e ∷ es) =
    let rest = run decide es in
    elim (decide e) [
      | refuse x ↦ failed x
      | leave_out ↦ rest
      | append new ↦ elim rest [ objects l ↦ objects (new ∷ l) | failed x ↦ failed x ]
    ]

-- The loop over the index, cases 4 to 21.
unfoldable pub decide_index : Files → IndexMap → IndexMap → IndexEntry → Decision
decide_index c parent dst e = elim (get e.path_name parent) [
  | none ↦ elim (get e.path_name dst) [
    | none ↦ append e
    | some m ↦
        if bytes_eq e.sha1 m.sha1 then append e else refuse (would_be_overwritten e.path_name)
  ]
  | some h ↦ elim (get e.path_name dst) [
    | none ↦
        if is_clean c e.path_name e.sha1 && bytes_eq e.sha1 h.sha1
        then leave_out
        else if not (bytes_eq e.sha1 h.sha1)
        then refuse (would_be_overwritten e.path_name)
        else refuse (not_uptodate e.path_name)
    | some m ↦
        if bytes_eq h.sha1 m.sha1
        then append e
        else if not (bytes_eq e.sha1 h.sha1) && not (bytes_eq e.sha1 m.sha1)
        then refuse (would_be_overwritten e.path_name)
        else if not (bytes_eq e.sha1 h.sha1) && bytes_eq e.sha1 m.sha1
        then append e
        else if bytes_eq e.sha1 h.sha1 && not (bytes_eq e.sha1 m.sha1)
        then (if is_clean c e.path_name e.sha1 then append m else refuse (not_uptodate e.path_name))
        else leave_out
  ]
]

-- The loop over `dst` for what is not in the index, cases 1 and 3. `index_exists` is whether the
-- index file does.
unfoldable pub decide_missing : Bool → IndexMap → IndexMap → IndexEntry → Decision
decide_missing index_exists index parent m = elim (get m.path_name index) [
  | some e ↦ leave_out
  | none ↦ elim (get m.path_name parent) [
    | none ↦ append m
    | some h ↦
        if not (bytes_eq h.sha1 m.sha1)
        then (if not index_exists then append m else refuse case_3)
        else (if not index_exists then append m else leave_out)
  ]
]

unfoldable pub concat : Merged → Merged → Merged
concat (failed x) q = failed x
concat (objects l) (failed x) = failed x
concat (objects l) (objects k) = objects (l ++ k)

-- The new objects, from the maps of the index, of the parent's tree and of the destination's.
unfoldable pub fast_forward_objects : Files → Bool → IndexMap → IndexMap → IndexMap → Merged
fast_forward_objects c index_exists index parent dst =
    concat (run (decide_index c parent dst) index)
      (run (decide_missing index_exists index parent) dst)

-- The new index has them in the order of the iterations, and their number.
unfoldable pub fast_forward : Files → Bool → IndexMap → IndexMap → IndexMap → Index ⊎ MergeError
fast_forward c index_exists index parent dst =
    elim (fast_forward_objects c index_exists index parent dst) [
      | failed x ↦ inr x
      | objects l ↦ inl (record new_index { number_index_entries = length l % 2 ^ 32; objects = l })
    ]
