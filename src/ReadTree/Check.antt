-- ===== src/ReadTree/Check.antt =====
-- git/readtree.go: the loop of `ReadTreeThreeWay` that looks for conflicts of the merge with the
-- index and the work tree.
use dgit.Prelude.{
  ◌≡◌, inl, inr, subst, Bool, true, false, not, ◌&&◌, List, [], ◌∷◌, Bytes, if◌then◌else◌, bytes_eq,
  Bool-cases, Option, none, some, some_inj,
}
use dgit.Index.Entry.{IndexEntry}
use dgit.ReadTree.Maps.{IndexMap, get, contains, same_path, Files, is_clean}

unfoldable pub has_id : Option IndexEntry → Bytes → Bool
has_id none id = false
has_id (some b) id = bytes_eq b.sha1 id

module _ (c : Files) (orig_map base ours theirs : IndexMap) where
  -- The tests on a path of the index that ours has as `o`; `true` goes on with the next path.
  unfoldable pub check_ours : Bytes → IndexEntry → IndexEntry → Bool
  check_ours path orig o =
      let oc = contains path base in
      let ac = contains path ours in
      let bc = contains path theirs in
      let oa = same_path base ours path in
      let ob = same_path base theirs path in
      if (oc && ac && bc) && (not oa && ob)
      then true
      else if (oc && ac && bc) && (oa && not ob) && has_id (get path theirs) orig.sha1
      then true
      else if (oc && ac && bc) && (oa && not ob) && not (is_clean c path o.sha1)
      then false
      else if (ac && bc && not (same_path ours theirs path)) && not (is_clean c path o.sha1)
      then false
      else if (oc && ac && not bc) && not (is_clean c path o.sha1)
      then false
      else bytes_eq o.sha1 orig.sha1

  unfoldable pub check_entry : IndexEntry → Bool
  check_entry orig = elim (get orig.path_name ours) [
    | none ↦
        not (contains orig.path_name base)
        && not (contains orig.path_name ours)
        && same_path orig_map theirs orig.path_name
    | some o ↦ check_ours orig.path_name orig o
  ]

  -- The loop: the path of the first conflict.
  unfoldable pub check_loop : List IndexEntry → Option Bytes
  check_loop [] = none
  check_loop (orig ∷ es) =
      let rest = check_loop es in if check_entry orig then rest else some orig.path_name

  pub check_loop-entry :
      (es : List IndexEntry) (path : Bytes) (orig : IndexEntry)
      → check_loop es ≡ none
      → get path es ≡ some orig
      → check_entry orig ≡ true
  unfolding check_loop get
  check_loop-entry [] path orig h g = cc
  check_loop-entry (x ∷ es) path orig h g = elim (Bool-cases (check_entry x)) [
    | inr n ↦ cc (rw (n, check_loop) at h)
    | inl y ↦ elim (Bool-cases (bytes_eq x.path_name path)) [
      | inl here ↦
          subst (λ (t : IndexEntry). check_entry t ≡ true) (some_inj (rw (here, get) at g)) y
      | inr other ↦ check_loop-entry es path orig (rw (y, check_loop) at h) (rw (other, get) at g)
    ]
  ]
