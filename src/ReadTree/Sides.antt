-- ===== src/ReadTree/Sides.antt =====
-- The trivial merges of a three-way merge, told by which sides changed the id of a file.
use dgit.Prelude.{
  ◌≡◌, ◌⊎◌, refl, Bool, true, false, not, ◌&&◌, Bytes, if◌then◌else◌, bytes_eq, bytes_eq_iff,
  Option, none, some, Option-cases, inl, inr, arith,
}
use dgit.Index.Entry.{IndexEntry}
use dgit.ReadTree.Maps.{IndexMap, get, has_dir, contains, same_path}
use dgit.ReadTree.ThreeWay.{Resolution, collapse, all_stages, nil_pointer, take_from, resolution}

-- Another id, or a file that is there on one side only; the modes are not compared.
unfoldable pub differs : Option IndexEntry → Option IndexEntry → Bool
differs none none = false
differs none (some b) = true
differs (some a) none = true
differs (some a) (some b) = not (bytes_eq a.sha1 b.sha1)

unfoldable pub take_side : Option IndexEntry → Resolution
take_side none = all_stages
take_side (some e) = collapse e

-- The side that changed the file's id wins. If both did, they must have changed it alike. A deletion is
-- never resolved.
unfoldable pub sides : Option IndexEntry → Option IndexEntry → Option IndexEntry → Resolution
sides base ours theirs =
    if not (differs base ours)
    then (if differs base theirs then take_side theirs else take_side ours)
    else if not (differs base theirs)
    then take_side ours
    else if not (differs ours theirs)
    then take_side ours
    else all_stages

unfoldable pub is_there : Option IndexEntry → Bool
is_there none = false
is_there (some e) = true

point_to : Option IndexEntry → Resolution
point_to none = nil_pointer
point_to (some e) = collapse e

pub same_path-differs :
    (p q : IndexMap) (path : Bytes) → same_path p q path ≡ not (differs (get path p) (get path q))
unfolding same_path differs
same_path-differs p q path = elim (Option-cases (get path p)) [
  | inl a ↦ elim (Option-cases (get path q)) [
    | inl b ↦ rw (a, b, same_path) refl
    | inr (y, b) ↦ rw (a, b, same_path) refl
  ]
  | inr (x, a) ↦ elim (Option-cases (get path q)) [
    | inl b ↦ rw (a, b, same_path) refl
    | inr (y, b) ↦ rw (a, b, same_path) (ground arith)
  ]
]

pub contains_file :
    (path : Bytes) (m : IndexMap) → has_dir path m ≡ false → contains path m ≡ is_there (get path m)
unfolding contains is_there
contains_file path m file = elim (Option-cases (get path m)) [
  | inl a ↦ rw (a, contains) (rw file refl)
  | inr (x, a) ↦ rw (a, contains) refl
]

take_from-get : (m : IndexMap) (path : Bytes) → take_from m path ≡ point_to (get path m)
unfolding take_from point_to
take_from-get m path = elim (Option-cases (get path m)) [
  | inl a ↦ rw (a, take_from) refl
  | inr (x, a) ↦ rw (a, take_from) refl
]

-- The tests of the source, in its order.
tests : Option IndexEntry → Option IndexEntry → Option IndexEntry → Resolution
tests o a b =
    if not (differs o a) && not (differs o b)
    then point_to a
    else if not (differs a b) && is_there a
    then point_to a
    else if not (differs o a) && is_there b
    then point_to b
    else if not (differs o b) && is_there a
    then point_to a
    else all_stages

tests-sides :
    (o a b : Option IndexEntry)
    → (is_there o ≡ true) ⊎ ((is_there a ≡ true) ⊎ (is_there b ≡ true))
    → tests o a b ≡ sides o a b
unfolding tests sides differs is_there point_to take_side
tests-sides none none none (inl h) = cc h
tests-sides none none none (inr (inl h)) = cc h
tests-sides none none none (inr (inr h)) = cc h
tests-sides none none (some z) h = refl
tests-sides none (some y) none h = refl
tests-sides none (some y) (some z) h = ground arith
tests-sides (some x) none none h = refl
tests-sides (some x) none (some z) h = ground arith
tests-sides (some x) (some y) none h = ground arith
tests-sides (some x) (some y) (some z) h =
    ground
      (arith, bytes_eq_iff x.sha1 y.sha1, bytes_eq_iff x.sha1 z.sha1, bytes_eq_iff y.sha1 z.sha1)

pub resolution-sides :
    (base ours theirs : IndexMap) (path : Bytes)
    → has_dir path ours ≡ false
    → has_dir path theirs ≡ false
    → (is_there (get path base) ≡ true)
      ⊎ ((is_there (get path ours) ≡ true) ⊎ (is_there (get path theirs) ≡ true))
    → resolution base ours theirs path ≡ sides (get path base) (get path ours) (get path theirs)
unfolding resolution tests
resolution-sides base ours theirs path no_ours no_theirs there =
    rw
      (
        same_path-differs base ours path,
        same_path-differs base theirs path,
        same_path-differs ours theirs path,
        contains_file path ours no_ours,
        contains_file path theirs no_theirs,
        take_from-get ours path,
        take_from-get theirs path,
      )
      (tests-sides (get path base) (get path ours) (get path theirs) there)
