-- ===== src/Samples/Commits.antt =====
-- A history of four commits: two heads with one parent, above a root.
use dgit.Prelude.{
  ◌≡◌, ◌≢◌, ◌↔◌, ◌<◌, ◌≤◌, length, refl, true, false, List, [], ◌∷◌, ◌++◌, Bytes, codes,
  if◌then◌else◌, bytes_eq, bytes_eq_iff, has_prefix, Option, none, some, arith, ℕ, Bool-cases, inl,
  inr, sym, subst, some_inj,
}
use dgit.Commits.{
  Store, has, known, unfinished, collect, parents_loop, parents, sha1_from_string, ancestor_map,
  is_ancestor, of_some, check_level, next_level, level_loop, breadth_first, merge_base, base,
}
use dgit.Commits.Ancestors.{Reaches, ancestor_map-Reaches, ancestor_map-ne-unfinished}
use dgit.Commits.Common.{Common, merge_base-Common}
use dgit.Commits.RevList.{
  exclude, report, call, visit, walk, listed, list_unfinished, finish, rev_list,
}
use dgit.Commits.Call.{IsDistinct}
use dgit.Commits.Visit.{From}
use dgit.Commits.Listing.{rev_list-exact}
use dgit.Commits.Counting.{length-rev_list}
use dgit.Commits.Ending.{rev_list-ne-unfinished}

abbrev root : Bytes
root = codes "rrrrrrrrrrrrrrrrrrrr"

abbrev middle : Bytes
middle = codes "mmmmmmmmmmmmmmmmmmmm"

abbrev left : Bytes
left = codes "aaaaaaaaaaaaaaaaaaaa"

abbrev right : Bytes
right = codes "bbbbbbbbbbbbbbbbbbbb"

abbrev child_of : Bytes → Bytes
child_of p = codes "tree t" ++ (b'\n' ∷ codes "parent " ++ (p ++ (b'\n' ∷ b'\n' ∷ [])))

content : Bytes → Option Bytes
content s =
    if bytes_eq s left
    then some (child_of middle)
    else if bytes_eq s right
    then some (child_of middle)
    else if bytes_eq s middle
    then some (child_of root)
    else if bytes_eq s root
    then some (b'\n' ∷ [])
    else none

-- Ids stand for themselves in place of hexadecimal digits.
abbrev history : Store
history = record { content = content; decode_hex = λ s. some s }

left_map : List Bytes
left_map = left ∷ middle ∷ middle ∷ root ∷ root ∷ []

left_ancestors : ancestor_map history 3 left ≡ known left_map
unfolding left_map content ancestor_map collect parents parents_loop sha1_from_string bytes_eq
    has_prefix
left_ancestors = refl

heads_base : merge_base history 4 4 false (left ∷ right ∷ []) ≡ base middle
unfolding content merge_base breadth_first level_loop check_level of_some next_level is_ancestor has
    ancestor_map collect parents parents_loop sha1_from_string bytes_eq has_prefix
heads_base = refl

ancestor_map-Reaches_example : (has root left_map ≡ true) ↔ Reaches history left root
ancestor_map-Reaches_example = ancestor_map-Reaches history 3 left left_ancestors root

merge_base-Common_example : Reaches history left middle × Common history 4 (right ∷ []) middle
merge_base-Common_example = merge_base-Common history 4 4 false left (right ∷ []) heads_base

-- One link, from `left` to `root`.
pair_content : Bytes → Option Bytes
pair_content s = if bytes_eq s left then some (child_of root) else some (b'\n' ∷ [])

abbrev pair : Store
pair = record { content = pair_content; decode_hex = λ s. some s }

rank : Bytes → ℕ
rank s = if bytes_eq s left then 1 else 0

only : (r p : Bytes) → has p (r ∷ []) ≡ true → r ≡ p
unfolding has
only r p h = ground (arith, bytes_eq_iff r p)

linked : (p : Bytes) (ps : List Bytes) → ps ≡ root ∷ [] → has p ps ≡ true → rank p ≡ 0
unfolding rank bytes_eq
linked p ps e h = subst (λ (z : Bytes). rank z ≡ 0) (only root p (rw e at h)) refl

alone : (p : Bytes) (ps : List Bytes) → ps ≡ [] → has p ps ≡ true → rank p < 0
unfolding has
alone p ps e h = cc (rw e at h)

descends :
    (s p : Bytes) (ps : List Bytes) → parents pair s ≡ some ps → has p ps ≡ true → rank p < rank s
unfolding pair_content parents parents_loop sha1_from_string has_prefix rank
descends s p ps e h = elim (Bool-cases (bytes_eq s left)) [
  | inl y ↦ rw y (omega (arith, linked p ps (sym (some_inj (rw (y, parents) at e))) h))
  | inr n ↦ absurd (omega (arith, alone p ps (sym (some_inj (rw (n, parents) at e))) h))
]

rank_left : rank left < 2
unfolding rank bytes_eq
rank_left = omega arith

ancestor_map-ne-unfinished_example : ancestor_map pair 2 left ≢ unfinished
ancestor_map-ne-unfinished_example = ancestor_map-ne-unfinished pair rank descends 2 left rank_left

heads_not_middle :
    rev_list history 5 none (left ∷ right ∷ []) (middle ∷ []) ≡ listed (left ∷ right ∷ [])
unfolding content rev_list walk visit call report exclude finish has parents parents_loop
    sha1_from_string bytes_eq has_prefix
heads_not_middle = refl

rev_list-exact_example :
    IsDistinct (left ∷ right ∷ [])
    × ((k : Bytes)
        → (has k (left ∷ right ∷ []) ≡ true)
          ↔ (From history (left ∷ right ∷ []) k × ¬ From history (middle ∷ []) k))
rev_list-exact_example = rev_list-exact history 5 (left ∷ right ∷ []) (middle ∷ []) heads_not_middle

two_of_left :
    rev_list history 5 (some 2) (left ∷ right ∷ []) (root ∷ []) ≡ listed (left ∷ middle ∷ [])
unfolding content rev_list walk visit call report exclude finish has parents parents_loop
    sha1_from_string bytes_eq has_prefix
two_of_left = refl

length-rev_list_example : length (left ∷ middle ∷ []) ≤ 2
length-rev_list_example = length-rev_list history 5 2 (left ∷ right ∷ []) (root ∷ []) two_of_left

left_below : (x : Bytes) → has x (left ∷ []) ≡ true → rank x < 2
unfolding has rank
left_below x h = ground arith

root_below : (x : Bytes) → has x (root ∷ []) ≡ true → rank x < 2
unfolding rank
root_below x h = ground arith

rev_list-ne-unfinished_example : rev_list pair 3 none (left ∷ []) (root ∷ []) ≢ list_unfinished
rev_list-ne-unfinished_example =
    rev_list-ne-unfinished pair rank descends 2 none (left ∷ []) (root ∷ []) left_below root_below
