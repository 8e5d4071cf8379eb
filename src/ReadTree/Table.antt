-- ===== src/ReadTree/Table.antt =====
-- The table of git-read-tree(1) for a fast-forward from `H` to `M` with the index `I`, as the
-- comment in git/readtree.go has it.
use dgit.Prelude.{
  ◌≡◌, false, Bool, true, not, ◌&&◌, ◌||◌, Bytes, if◌then◌else◌, bytes_eq, Option, none, some,
}
use dgit.Index.Entry.{IndexEntry}
use dgit.ReadTree.Maps.{IndexMap, get, Files, is_clean}

-- What stands at a path after the merge, or that the merge fails for it.
pub data Outcome : Type 0 where
  result : Option IndexEntry → Outcome
  fail : Outcome

abbrev pub same : IndexEntry → IndexEntry → Bool
same a b = bytes_eq a.sha1 b.sha1

-- The rows 0 to 21.
unfoldable pub table :
    Bool → Bool → Option IndexEntry → Option IndexEntry → Option IndexEntry → Outcome
table clean initial none none none = result none
table clean initial none none (some m) = result (some m)
table clean initial none (some h) none = result none
table clean initial none (some h) (some m) =
    if same h m then (if initial then result (some m) else result none) else fail
table clean initial (some i) none none = result (some i)
table clean initial (some i) none (some m) = if same i m then result (some i) else fail
table clean initial (some i) (some h) none = if clean && same i h then result none else fail
table clean initial (some i) (some h) (some m) =
    if same h m || same i m
    then result (some i)
    else if same i h && clean
    then result (some m)
    else fail

unfoldable pub clean_at : Files → Option IndexEntry → Bool
clean_at c none = true
clean_at c (some e) = is_clean c e.path_name e.sha1

unfoldable pub outcome : Files → Bool → IndexMap → IndexMap → IndexMap → Bytes → Outcome
outcome c index_exists index parent dst path =
    table (clean_at c (get path index)) (not index_exists) (get path index) (get path parent)
      (get path dst)

-- Row 3 for an initial checkout where `H` and `M` have different blobs, at which the code takes `M`.
pub record Differing (index_exists : Bool) (index parent dst : IndexMap) (path : Bytes)
    (got : Option IndexEntry) : Type 0 where
  pub initial : index_exists ≡ false
  pub not_in_index : get path index ≡ none
  pub of_parent : IndexEntry
  pub in_parent : get path parent ≡ some of_parent
  pub of_dst : IndexEntry
  pub in_dst : get path dst ≡ some of_dst
  pub differ : same of_parent of_dst ≡ false
  pub takes_dst : got ≡ some of_dst
