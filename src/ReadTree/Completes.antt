-- ===== src/ReadTree/Completes.antt =====
-- git/readtree.go: the loop of `ReadTreeThreeWay` comes to its end, without an error or a panic.
use dgit.Prelude.{
  ℕ, ◌≡◌, ◌≢◌, ◌⊎◌, inl, inr, refl, sym, ◌∙◌, subst, true, false, not, ◌&&◌, List, [], ◌∷◌, ◌++◌,
  Bytes, has_prefix, Bool-cases, Option, Option-cases, none, some, All, arith,
}
use dgit.Index.Entry.{IndexEntry, Index, new_index}
use dgit.Index.Stages.{WorkTree, Stat, Options, slash, add_stage}
use dgit.Index.Files.{remove_file}
use dgit.Index.Sorted.{All-weaken}
use dgit.Index.WellFormed.{IsWellFormed}
use dgit.Index.Placed.{OfPaths, Apart, add_stage-OfPaths, add_stage-succeeds, remove_file-OfPaths}
use dgit.ReadTree.Maps.{IndexMap, get}
use dgit.ReadTree.ThreeWay.{
  adding, replacing, MergeOptions, nil_pointer, resolution, Loop, going, addition, add_from,
  add_three, add_three_checked, resolve, below, three_way_step, three_way_loop, three_way,
  all_objects,
}
use dgit.ReadTree.Sides.{is_there, differs, sides, take_side, resolution-sides}
use dgit.ReadTree.Invariant.{Resolution-cases, Sound, add_from-none, three_way-Sound}
use dgit.ReadTree.AllPaths.{in_a_tree, dir_in_a_tree, dir_in_a_tree_above, all_objects-in_a_tree}

sides-ne-nil_pointer : (o a b : Option IndexEntry) → sides o a b ≢ nil_pointer
unfolding sides take_side differs
sides-ne-nil_pointer none none none h = cc
sides-ne-nil_pointer none none (some z) h = cc
sides-ne-nil_pointer none (some y) none h = cc
sides-ne-nil_pointer none (some y) (some z) h = ground arith
sides-ne-nil_pointer (some x) none none h = cc
sides-ne-nil_pointer (some x) none (some z) h = ground arith
sides-ne-nil_pointer (some x) (some y) none h = ground arith
sides-ne-nil_pointer (some x) (some y) (some z) h = ground arith

module _ (c : WorkTree) (now : ℕ) (base ours theirs : IndexMap) where
  -- A path of the index is a file of a tree. If it is a directory of a tree too, the files below it
  -- are known to be in conflict.
  abbrev Placed : List Bytes → Bytes → Type 0
  Placed dirs path =
      (in_a_tree base ours theirs path ≡ true)
      × (dir_in_a_tree base ours theirs path ≡ true
          → (file : Bytes) → has_prefix file (slash path) ≡ true
          → below c now dirs file ≡ true)

  abbrev Inv : Index → List Bytes → Type 0
  Inv g dirs = OfPaths (Placed dirs) g.objects

  abbrev Continues : Loop → Type 0
  Continues l = (g : Index) × (dirs : List Bytes) × (l ≡ going g dirs) × Inv g dirs

  plain_file :
      (dirs : List Bytes) (path : Bytes)
      → in_a_tree base ours theirs path ≡ true
      → dir_in_a_tree base ours theirs path ≡ false
      → Placed dirs path
  plain_file dirs path known file = (known, λ d. absurd (cc (sym d ∙ file)))

  below-append :
      (dirs : List Bytes) (d file : Bytes)
      → below c now dirs file ≡ true
      → below c now (dirs ++ (d ∷ [])) file ≡ true
  unfolding below
  below-append [] d file h = cc
  below-append (e ∷ dirs) d file h = ground (arith, below-append dirs d file)

  below_last :
      (dirs : List Bytes) (d file : Bytes)
      → has_prefix file (slash d) ≡ true
      → below c now (dirs ++ (d ∷ [])) file ≡ true
  unfolding below
  below_last [] d file h = rw h refl
  below_last (e ∷ dirs) d file h = ground (arith, below_last dirs d file h)

  more_dirs : (dirs : List Bytes) (d : Bytes) (g : Index) → Inv g dirs → Inv g (dirs ++ (d ∷ []))
  more_dirs dirs d g h =
      All-weaken _ _
        (λ e (known, covered). (known, λ y file p. below-append dirs d file (covered y file p)))
        g.objects h

  module _ (dirs : List Bytes) (path : Bytes) (placed : Placed dirs path) where
    add_from-Inv :
        (opts : Options) (s : ℕ) (m : IndexMap) (g : Index)
        → Inv g dirs
        → Inv (add_from c now opts s path m g).0 dirs
    unfolding add_from addition
    add_from-Inv opts s m g h = elim (Option-cases (get path m)) [
      | inl absent ↦ rw (absent, add_from) h
      | inr (p, present) ↦
          rw (present, add_from)
            (add_stage-OfPaths (Placed dirs) c opts (addition now s path p) placed g h)
    ]

    add_three-Inv : (g : Index) → Inv g dirs → Inv (add_three c now base ours theirs path g) dirs
    unfolding add_three
    add_three-Inv g h =
        add_from-Inv adding 3 theirs _
          (add_from-Inv adding 2 ours _ (add_from-Inv adding 1 base g h))

    add_three_checked-Continues :
        (g : Index) → Inv g dirs → Continues (add_three_checked c now base ours theirs dirs path g)
    unfolding add_three_checked
    add_three_checked-Continues g h =
        let g1 = (add_from c now adding 1 path base g).0 in
        let g2 = (add_from c now replacing 2 path ours g1).0 in
        (
          (add_from c now adding 3 path theirs g2).0,
          dirs,
          rw
              (
                add_from-none c now adding 1 path base g refl (omega arith),
                add_from-none c now replacing 2 path ours g1 refl (omega arith),
                add_from-none c now adding 3 path theirs g2 refl (omega arith),
                add_three_checked,
              )
              refl,
          add_from-Inv adding 3 theirs g2
              (add_from-Inv replacing 2 ours g1 (add_from-Inv adding 1 base g h)),
        )

    module _ (stats : (p : Bytes) → c.exists p ≡ true → (s : Stat) × (c.stat p ≡ some s))
        (file : dir_in_a_tree base ours theirs path ≡ false)
        (outside : below c now dirs path ≡ false) where
      -- No entry of the index stands above or below the path.
      every-Apart : (g : Index) → Inv g dirs → OfPaths (Apart path) g.objects
      every-Apart g h = All-weaken _ _ apart g.objects h
        where
          apart : (e : IndexEntry) → Placed dirs e.path_name → Apart path e.path_name
          apart e (known, covered) = (
            elim (Bool-cases (has_prefix e.path_name (slash path))) [
              | inr n ↦ n
              | inl y ↦
                  cc (sym (dir_in_a_tree_above base ours theirs path e.path_name known y) ∙ file)
            ],
            elim (Bool-cases (has_prefix path (slash e.path_name))) [
              | inr n ↦ n
              | inl y ↦
                  let above = dir_in_a_tree_above base ours theirs e.path_name path placed.0 y in
                  cc (sym (covered above path y) ∙ outside)
            ],
          )

      resolved : resolution base ours theirs path ≢ nil_pointer
      unfolding in_a_tree dir_in_a_tree
      resolved h = sides-ne-nil_pointer _ _ _ (
          sym (
            resolution-sides base ours theirs path (ground (arith, file)) (ground (arith, file))
              there)
          ∙ h)
        where
          there :
              (is_there (get path base) ≡ true)
              ⊎ ((is_there (get path ours) ≡ true) ⊎ (is_there (get path theirs) ≡ true))
          there = ground (arith, placed.0)

      resolve-Continues :
          (g : Index) → Inv g dirs → Continues (resolve c now base ours theirs dirs path g)
      unfolding resolve addition
      resolve-Continues g h = elim (Resolution-cases c now (resolution base ours theirs path)) [
        | inr (inr e) ↦ absurd (resolved e)
        | inr (inl e) ↦ (
          add_three c now base ours theirs path (remove_file path g),
          dirs,
          rw (e, resolve) refl,
          add_three-Inv (remove_file path g) (remove_file-OfPaths (Placed dirs) path g h),
        )
        | inl (p, e) ↦ (
          (add_stage c adding (addition now 0 path p) g).0,
          dirs,
          rw
              (
                e,
                add_stage-succeeds c adding (addition now 0 path p) g refl refl stats
                    (every-Apart g h),
                resolve,
              )
              refl,
          add_stage-OfPaths (Placed dirs) c adding (addition now 0 path p) placed g h,
        )
      ]

  module _ (stats : (p : Bytes) → c.exists p ≡ true → (s : Stat) × (c.stat p ≡ some s))
      (opt : MergeOptions) where
    three_way_step-Continues :
        (path : Bytes) (g : Index) (dirs : List Bytes)
        → in_a_tree base ours theirs path ≡ true
        → Inv g dirs
        → Continues (three_way_step c now opt base ours theirs path g dirs)
    unfolding three_way_step dir_in_a_tree
    three_way_step-Continues path g dirs known h =
        elim (Bool-cases (dir_in_a_tree base ours theirs path)) [
          | inl d ↦ elim (Bool-cases (not opt.merge && not opt.reset)) [
            | inl k ↦ (g, dirs, rw (d, k, three_way_step) refl, h)
            | inr k ↦ (
              add_three c now base ours theirs path g,
              dirs ++ (path ∷ []),
              rw (d, k, three_way_step) refl,
              add_three-Inv (dirs ++ (path ∷ [])) path
                  (known, λ y file p. below_last dirs path file p) g (more_dirs dirs path g h),
            )
          ]
          | inr file ↦
              let placed = plain_file dirs path known file in
              elim (Bool-cases (below c now dirs path)) [
                | inl y ↦
                    let (g', dirs', e, k) = add_three_checked-Continues dirs path placed g h in
                    (g', dirs', rw (file, y, three_way_step) e, k)
                | inr n ↦
                    let (g', dirs', e, k) = resolve-Continues dirs path placed stats file n g h in
                    (g', dirs', rw (file, n, three_way_step) e, k)
              ]
        ]

    three_way_loop-Continues :
        (paths : List Bytes) (g : Index) (dirs : List Bytes)
        → All (λ p. in_a_tree base ours theirs p ≡ true) paths
        → Inv g dirs
        → Continues (three_way_loop c now opt base ours theirs paths g dirs)
    unfolding three_way_loop
    three_way_loop-Continues [] g dirs known h = (g, dirs, refl, h)
    three_way_loop-Continues (path ∷ paths) g dirs (known, all) h =
        let (g', dirs', e, k) = three_way_step-Continues path g dirs known h in
        let (g2, dirs2, e2, k2) = three_way_loop-Continues paths g' dirs' all k in
        (g2, dirs2, rw (e, three_way_loop) e2, k2)

    -- The merge comes to its end, by no error and no panic, if a file that exists can be asked for its
    -- stat data. Its index stands in strict order of path and stage, is counted in its header, has
    -- flags of 16 bits, and has only paths of files of the three trees.
    pub three_way-IsWellFormed :
        (g : Index) × (dirs : List Bytes) × (three_way c now opt base ours theirs ≡ going g dirs)
        × IsWellFormed g
        × OfPaths (λ p. in_a_tree base ours theirs p ≡ true) g.objects
    unfolding three_way new_index
    three_way-IsWellFormed =
        let (g, dirs, e, h) =
          three_way_loop-Continues (all_objects base ours theirs) new_index []
            (all_objects-in_a_tree base ours theirs) tt in
        (
          g,
          dirs,
          e,
          subst Sound e (three_way-Sound c now opt base ours theirs),
          All-weaken _ _ (λ x placed. placed.0) g.objects h,
        )
