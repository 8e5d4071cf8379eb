-- ===== src/ReadTree/Invariant.antt =====
-- The index that the three-way merge builds is well-formed, and no call of `AddStage` for the
-- stages 1 to 3 fails.
use dgit.Prelude.{
  ℕ, ◌<◌, ◌≡◌, ◌≢◌, refl, ◌⊎◌, inl, inr, true, false, not, ◌&&◌, ◌||◌, ◌==◌, List, [], ◌∷◌, Bytes,
  none, Option-cases, Bool-cases, arith,
}
use dgit.Index.Entry.{IndexEntry, Index, new_index}
use dgit.Index.Stages.{
  WorkTree, IndexError, Options, Addition, find_key, replace_entries_check, overwrite, append_entry,
  add_stage_body, add_stage,
}
use dgit.Index.Files.{remove_file}
use dgit.Index.WellFormed.{IsWellFormed}
use dgit.Index.AddStage.{add_stage-IsWellFormed}
use dgit.Index.Removing.{remove_file-IsWellFormed}
use dgit.ReadTree.Maps.{IndexMap, get, has_dir}
use dgit.ReadTree.ThreeWay.{
  adding, replacing, MergeOptions, Resolution, collapse, all_stages, nil_pointer, resolution, Loop,
  going, stopped, panicked, addition, add_from, add_three, add_three_checked, resolve, below,
  three_way_step, three_way_loop, three_way, all_objects,
}

-- The loop has not ended by an error, and its index is well-formed if it has not panicked.
abbrev pub Sound : Loop → Type 0
Sound (going g dirs) = IsWellFormed g
Sound (stopped x) = true ≡ false
Sound panicked = Unit {0}

new_index-IsWellFormed : IsWellFormed new_index
unfolding new_index
new_index-IsWellFormed = record { sorted = tt; counted = refl; words = tt }

module _ (c : WorkTree) where
  -- A stage that is not 0 is added without an error, if it may be added.
  pub add_stage-none :
      (opts : Options) (a : Addition) (g : Index)
      → opts.add ≡ true
      → a.stage ≢ 0
      → (add_stage c opts a g).1 ≡ none
  unfolding add_stage add_stage_body replace_entries_check overwrite append_entry
  add_stage-none opts a g add ne = elim (Bool-cases (a.stage == 0)) [
    | inl z ↦ absurd (ne (ground (arith, z)))
    | inr z ↦ elim (Option-cases (find_key a.path a.stage g.objects)) [
      | inl missing ↦ rw (missing, add, add_stage_body) (rw (z, replace_entries_check) refl)
      | inr (e, found) ↦
          rw (found, add_stage_body)
            (rw (z, replace_entries_check)
              (elim (Bool-cases (c.exists a.path)) [
                | inl y ↦ rw (y, z, overwrite) refl
                | inr n ↦ rw (n, overwrite) refl
              ]))
    ]
  ]

  module _ (now : ℕ) where
    pub add_from-none :
        (opts : Options) (s : ℕ) (path : Bytes) (m : IndexMap) (g : Index)
        → opts.add ≡ true
        → s ≢ 0
        → (add_from c now opts s path m g).1 ≡ none
    unfolding add_from addition
    add_from-none opts s path m g add ne = elim (Option-cases (get path m)) [
      | inl absent ↦ rw (absent, add_from) refl
      | inr (p, present) ↦
          rw (present, add_from) (add_stage-none opts (addition now s path p) g add ne)
    ]

    add_from-IsWellFormed :
        (opts : Options) (s : ℕ) (path : Bytes) (m : IndexMap) (g : Index)
        → s < 4
        → IsWellFormed g
        → IsWellFormed (add_from c now opts s path m g).0
    unfolding add_from addition
    add_from-IsWellFormed opts s path m g fits w = elim (Option-cases (get path m)) [
      | inl absent ↦ rw (absent, add_from) w
      | inr (p, present) ↦
          rw (present, add_from) (add_stage-IsWellFormed c opts (addition now s path p) fits g w)
    ]

    add_three-IsWellFormed :
        (base ours theirs : IndexMap) (path : Bytes) (g : Index)
        → IsWellFormed g
        → IsWellFormed (add_three c now base ours theirs path g)
    unfolding add_three
    add_three-IsWellFormed base ours theirs path g w =
        add_from-IsWellFormed adding 3 path theirs _ (omega arith) (
          add_from-IsWellFormed adding 2 path ours _ (omega arith)
            (add_from-IsWellFormed adding 1 path base g (omega arith) w))

    add_three_checked-Sound :
        (base ours theirs : IndexMap) (dirs : List Bytes) (path : Bytes) (g : Index)
        → IsWellFormed g
        → Sound (add_three_checked c now base ours theirs dirs path g)
    unfolding add_three_checked
    add_three_checked-Sound base ours theirs dirs path g w =
        let g1 = (add_from c now adding 1 path base g).0 in
        let g2 = (add_from c now replacing 2 path ours g1).0 in
        let w1 = add_from-IsWellFormed adding 1 path base g (omega arith) w in
        let w2 = add_from-IsWellFormed replacing 2 path ours g1 (omega arith) w1 in
        rw
          (
            add_from-none adding 1 path base g refl (omega arith),
            add_from-none replacing 2 path ours g1 refl (omega arith),
            add_from-none adding 3 path theirs g2 refl (omega arith),
            add_three_checked,
            Sound,
          )
          (add_from-IsWellFormed adding 3 path theirs g2 (omega arith) w2)

    pub Resolution-cases :
        (r : Resolution)
        → ((e : IndexEntry) × (r ≡ collapse e)) ⊎ ((r ≡ all_stages) ⊎ (r ≡ nil_pointer))
    Resolution-cases (collapse e) = inl (e, refl)
    Resolution-cases all_stages = inr (inl refl)
    Resolution-cases nil_pointer = inr (inr refl)

    resolve-Sound :
        (base ours theirs : IndexMap) (dirs : List Bytes) (path : Bytes) (g : Index)
        → IsWellFormed g
        → Sound (resolve c now base ours theirs dirs path g)
    unfolding resolve addition
    resolve-Sound base ours theirs dirs path g w =
        elim (Resolution-cases (resolution base ours theirs path)) [
          | inr (inr e) ↦ rw (e, resolve, Sound) tt
          | inr (inl e) ↦
              rw (e, resolve, Sound)
                (add_three-IsWellFormed base ours theirs path (remove_file path g)
                  (remove_file-IsWellFormed path g w))
          | inl (p, e) ↦
              rw (e, resolve, Sound)
                (elim (Option-cases (add_stage c adding (addition now 0 path p) g).1) [
                  | inr (x, bad) ↦ rw bad tt
                  | inl good ↦
                      rw good
                        (add_stage-IsWellFormed c adding (addition now 0 path p) (omega arith) g w)
                ])
        ]

    three_way_step-Sound :
        (opt : MergeOptions) (base ours theirs : IndexMap) (path : Bytes) (g : Index)
        (dirs : List Bytes)
        → IsWellFormed g
        → Sound (three_way_step c now opt base ours theirs path g dirs)
    unfolding three_way_step
    three_way_step-Sound opt base ours theirs path g dirs w =
        elim (Bool-cases (has_dir path base || has_dir path ours || has_dir path theirs)) [
          | inl d ↦ elim (Bool-cases (not opt.merge && not opt.reset)) [
            | inl k ↦ rw (d, k) w
            | inr k ↦ rw (d, k) (add_three-IsWellFormed base ours theirs path g w)
          ]
          | inr f ↦ elim (Bool-cases (below c now dirs path)) [
            | inl k ↦ rw (f, k) (add_three_checked-Sound base ours theirs dirs path g w)
            | inr k ↦ rw (f, k) (resolve-Sound base ours theirs dirs path g w)
          ]
        ]

    Loop-cases :
        (l : Loop)
        → ((g : Index) × (d : List Bytes) × (l ≡ going g d))
          ⊎ (((x : IndexError) × (l ≡ stopped x)) ⊎ (l ≡ panicked))
    Loop-cases (going g d) = inl (g, d, refl)
    Loop-cases (stopped x) = inr (inl (x, refl))
    Loop-cases panicked = inr (inr refl)

    three_way_loop-Sound :
        (opt : MergeOptions) (base ours theirs : IndexMap) (paths : List Bytes) (g : Index)
        (dirs : List Bytes)
        → IsWellFormed g
        → Sound (three_way_loop c now opt base ours theirs paths g dirs)
    unfolding three_way_loop
    three_way_loop-Sound opt base ours theirs [] g dirs w = w
    three_way_loop-Sound opt base ours theirs (path ∷ paths) g dirs w =
        let s = three_way_step-Sound opt base ours theirs path g dirs w in
        elim (Loop-cases (three_way_step c now opt base ours theirs path g dirs)) [
          | inl (g', d', e) ↦
              rw (e, three_way_loop, Sound)
                (three_way_loop-Sound opt base ours theirs paths g' d' (rw e at s))
          | inr (inl (x, e)) ↦ rw (e, three_way_loop, Sound) (rw e at s)
          | inr (inr e) ↦ rw (e, three_way_loop, Sound) tt
        ]

    -- The merge does not end by an error, and where it does not panic its index is well-formed.
    pub three_way-Sound :
        (opt : MergeOptions) (base ours theirs : IndexMap)
        → Sound (three_way c now opt base ours theirs)
    unfolding three_way
    three_way-Sound opt base ours theirs =
        three_way_loop-Sound opt base ours theirs (all_objects base ours theirs) new_index []
          new_index-IsWellFormed
