-- ===== src/ReadTree/AllPaths.antt =====
-- git/readtree.go: the paths that the three-way merge goes over stand in one of the three trees.
use dgit.Prelude.{
  ◌≡◌, inl, inr, refl, Bool, true, ◌||◌, List, [], ◌∷◌, ◌++◌, Bytes, bytes_eq, bytes_eq_iff,
  has_prefix, Bool-cases, All, All-append, arith,
}
use dgit.Index.Entry.{IndexEntry, sort_by_path}
use dgit.Index.Sorted.{All-sort_by_path, All-weaken}
use dgit.Index.Stages.{slash}
use dgit.Index.Placed.{OfPaths}
use dgit.ReadTree.Maps.{IndexMap, get, has_dir}
use dgit.ReadTree.ThreeWay.{blank, blanks, without_repeats, all_objects}
use dgit.ReadTree.Sides.{is_there}

-- A file of the map lies below a directory that the map knows.
has_dir-get :
    (path file : Bytes) (m : IndexMap)
    → is_there (get file m) ≡ true
    → has_prefix file (slash path) ≡ true
    → has_dir path m ≡ true
unfolding has_dir get is_there
has_dir-get path file [] there h = cc
has_dir-get path file (e ∷ m) there h = elim (Bool-cases (bytes_eq e.path_name file)) [
  | inl y ↦ rw ((bytes_eq_iff e.path_name file).0 y, h) refl
  | inr n ↦ ground (arith, has_dir-get path file m (rw (n, get) at there) h)
]

get-later :
    (e : IndexEntry) (m : IndexMap) (path : Bytes)
    → is_there (get path m) ≡ true
    → is_there (get path (e ∷ m)) ≡ true
unfolding get is_there
get-later e m path h = elim (Bool-cases (bytes_eq e.path_name path)) [
  | inl y ↦ rw y refl
  | inr n ↦ rw n h
]

own_paths : (m : IndexMap) → OfPaths (λ path. is_there (get path m) ≡ true) m
unfolding get is_there
own_paths [] = tt
own_paths (e ∷ m) = (
  rw ((bytes_eq_iff e.path_name e.path_name).1 refl) refl,
  All-weaken _ _ (λ x h. get-later e m x.path_name h) m (own_paths m),
)

blanks-OfPaths : (P : Bytes → Type 0) (m : IndexMap) → OfPaths P m → OfPaths P (blanks m)
unfolding blanks blank
blanks-OfPaths P [] h = tt
blanks-OfPaths P (e ∷ m) (p, h) = (p, blanks-OfPaths P m h)

without_repeats-All :
    (P : Bytes → Type 0) (es : List IndexEntry) → OfPaths P es → All P (without_repeats es)
unfolding without_repeats
without_repeats-All P [] h = tt
without_repeats-All P (x ∷ []) (p, h) = (p, tt)
without_repeats-All P (x ∷ (y ∷ es)) (p, h) = elim (Bool-cases (bytes_eq y.path_name x.path_name)) [
  | inl e ↦ rw (e, without_repeats) (without_repeats-All P (y ∷ es) h)
  | inr n ↦ rw (n, without_repeats) (p, without_repeats-All P (y ∷ es) h)
]

module _ (base ours theirs : IndexMap) where
  -- One of the trees has a file of the path.
  unfoldable pub in_a_tree : Bytes → Bool
  in_a_tree path =
      is_there (get path base) || (is_there (get path ours) || is_there (get path theirs))

  unfoldable pub dir_in_a_tree : Bytes → Bool
  dir_in_a_tree path = has_dir path base || has_dir path ours || has_dir path theirs

  pub dir_in_a_tree_above :
      (path file : Bytes)
      → in_a_tree file ≡ true
      → has_prefix file (slash path) ≡ true
      → dir_in_a_tree path ≡ true
  unfolding in_a_tree dir_in_a_tree
  dir_in_a_tree_above path file there h =
      ground (
        arith,
        has_dir-get path file base,
        has_dir-get path file ours,
        has_dir-get path file theirs,
      )

  pub all_objects-in_a_tree : All (λ p. in_a_tree p ≡ true) (all_objects base ours theirs)
  unfolding all_objects in_a_tree
  all_objects-in_a_tree =
      without_repeats-All Known (sort_by_path (blanks base ++ (blanks ours ++ blanks theirs))) (
        All-sort_by_path OfEntry (blanks base ++ (blanks ours ++ blanks theirs)) (
          All-append OfEntry (blanks base) (blanks ours ++ blanks theirs)
            (blanks-OfPaths Known base (All-weaken _ _ (λ e h. rw h refl) base (own_paths base)))
            (All-append OfEntry (blanks ours) (blanks theirs)
              (blanks-OfPaths Known ours
                (All-weaken _ _ (λ e h. ground (arith, h)) ours (own_paths ours)))
              (blanks-OfPaths Known theirs
                (All-weaken _ _ (λ e h. ground (arith, h)) theirs (own_paths theirs))))))
    where
      Known : Bytes → Type 0
      Known p = in_a_tree p ≡ true

      OfEntry : IndexEntry → Type 0
      OfEntry e = in_a_tree e.path_name ≡ true
