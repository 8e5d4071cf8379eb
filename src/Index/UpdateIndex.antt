-- ===== src/Index/UpdateIndex.antt =====
-- git/updateindex.go: `UpdateIndex` keeps the invariant of the index, on all its ways.
use dgit.Prelude.{
  ◌<◌, ◌≡◌, inl, inr, refl, Bool, true, false, not, ◌&&◌, ◌||◌, List, [], ◌∷◌, Bytes, Bool-cases,
  Option-cases, Option, none, some, if◌then◌else◌, arith,
}
use dgit.Index.Entry.{Index}
use dgit.Index.Stages.{WorkTree, IndexError, Options, Addition, add_stage}
use dgit.Index.Files.{remove_file}
use dgit.Index.WellFormed.{IsWellFormed}
use dgit.Index.AddStage.{add_stage-IsWellFormed}
use dgit.Index.Removing.{remove_file-IsWellFormed}
use dgit.Index.Update.{
  UpdateError, is_directory, missing_remove, UpdateIndexOptions, WorkFile, options_of, with_error,
  add_blob, add_file, remove_files, skip_modified, added, remove_listed, update_named, update_file,
  no_index_path, update_loop, update_index_refresh, update_index_cache_info,
}
use dgit.Index.IndexInfo.{update_index}
use dgit.Index.Updating.{index_set_skip_worktree-IsWellFormed, update_index_refresh-IsWellFormed}

abbrev pub Result : Type 0
Result = Index × Option UpdateError

-- One of two results.
pub one_of :
    (b : Bool) (r s : Result)
    → (b ≡ true → IsWellFormed r.0)
    → (b ≡ false → IsWellFormed s.0)
    → IsWellFormed (if b then r else s).0
one_of true r s h k = h refl
one_of false r s h k = k refl

with_error-IsWellFormed :
    (r : Index × Option IndexError) → IsWellFormed r.0 → IsWellFormed (with_error r).0
unfolding with_error
with_error-IsWellFormed (g, none) w = w
with_error-IsWellFormed (g, some e) w = w

module _ (c : WorkTree) where
  pub stage_added :
      (opts : Options) (a : Addition) (g : Index)
      → a.stage < 4
      → IsWellFormed g
      → IsWellFormed (with_error (add_stage c opts a g)).0
  stage_added opts a g h w =
      with_error-IsWellFormed (add_stage c opts a g) (add_stage-IsWellFormed c opts a h g w)

  module _ (write_object : Bytes → Bytes × Bool) where
    add_file-IsWellFormed :
        (opts : Options) (f : WorkFile) (g : Index)
        → IsWellFormed g
        → IsWellFormed (add_file c write_object opts f g).0
    unfolding add_file add_blob
    add_file-IsWellFormed opts f g w =
        one_of (not f.exists) _ _ (λ y. w)
          λ n.
            one_of f.is_dir _ _ (λ y. w)
              λ m. elim (Option-cases f.contents) [
                | inl e ↦ rw e w
                | inr (contents, e) ↦ rw e (
                    one_of f.is_symlink _ _ (λ y. stage_added opts _ g (omega arith) w)
                      λ k.
                        one_of (not (write_object contents).1) _ _ (λ y. w)
                          λ l. stage_added opts _ g (omega arith) w)
              ]

    remove_files-IsWellFormed :
        (ps : List Bytes) (g : Index)
        → IsWellFormed g
        → IsWellFormed (remove_files c write_object ps g)
    unfolding remove_files
    remove_files-IsWellFormed [] g w = w
    remove_files-IsWellFormed (p ∷ ps) g w =
        remove_files-IsWellFormed ps (remove_file p g) (remove_file-IsWellFormed p g w)

    skip_modified-IsWellFormed :
        (opts : UpdateIndexOptions) (path : Bytes) (g : Index)
        → IsWellFormed g
        → IsWellFormed (skip_modified c write_object opts path g)
    unfolding skip_modified
    skip_modified-IsWellFormed opts path g w = elim (Bool-cases opts.modify_skip_worktree) [
      | inl y ↦ simp y (index_set_skip_worktree-IsWellFormed path opts.skip_worktree_value g w)
      | inr n ↦ simp n w
    ]

    added-IsWellFormed :
        (opts : UpdateIndexOptions) (path : Bytes) (r : Result)
        → IsWellFormed r.0
        → IsWellFormed (added c write_object opts path r).0
    unfolding added
    added-IsWellFormed opts path (g, some e) w = w
    added-IsWellFormed opts path (g, none) w = skip_modified-IsWellFormed opts path g w

    remove_listed-IsWellFormed :
        (listed : Option (List Bytes)) (g : Index)
        → IsWellFormed g
        → IsWellFormed (remove_listed c write_object listed g).0
    unfolding remove_listed
    remove_listed-IsWellFormed none g w = w
    remove_listed-IsWellFormed (some paths) g w = remove_files-IsWellFormed paths g w

    update_named-IsWellFormed :
        (cached : Bytes → Option (List Bytes)) (opts : UpdateIndexOptions) (f : WorkFile)
        (g : Index)
        → IsWellFormed g
        → IsWellFormed (update_named c write_object cached opts f g).0
    unfolding update_named
    update_named-IsWellFormed cached opts f g w =
        one_of (f.is_dir && (opts.remove || opts.force_remove))
          (remove_listed c write_object (cached f.path) g)
          (if f.is_dir && opts.add then (g, some is_directory) else single)
          (λ y. remove_listed-IsWellFormed (cached f.path) g w)
          λ n.
            one_of (f.is_dir && opts.add) (g, some is_directory) single (λ y. w)
              λ m.
                one_of ((not f.exists || opts.force_remove) && (opts.remove || opts.force_remove))
                  removed present
                  (λ y.
                    skip_modified-IsWellFormed opts f.path (remove_file f.path g)
                      (remove_file-IsWellFormed f.path g w))
                  λ k.
                    one_of (not f.exists || opts.force_remove) (g, some missing_remove) put (λ y. w)
                      λ l.
                        added-IsWellFormed opts f.path
                          (add_file c write_object (options_of opts) f g)
                          (add_file-IsWellFormed (options_of opts) f g w)
      where
        put : Result
        put = added c write_object opts f.path (add_file c write_object (options_of opts) f g)

        present : Result
        present = if not f.exists || opts.force_remove then (g, some missing_remove) else put

        removed : Result
        removed = (skip_modified c write_object opts f.path (remove_file f.path g), none)

        single : Result
        single =
            if (not f.exists || opts.force_remove) && (opts.remove || opts.force_remove)
            then removed
            else present

    update_file-IsWellFormed :
        (cached : Bytes → Option (List Bytes)) (opts : UpdateIndexOptions) (f : WorkFile)
        (g : Index)
        → IsWellFormed g
        → IsWellFormed (update_file c write_object cached opts f g).0
    unfolding update_file
    update_file-IsWellFormed cached opts f g w =
        one_of (not f.has_index_path) (g, some no_index_path)
          (update_named c write_object cached opts f g) (λ y. w)
          (λ n. update_named-IsWellFormed cached opts f g w)

    update_loop-IsWellFormed :
        (cached : Bytes → Option (List Bytes)) (opts : UpdateIndexOptions) (fs : List WorkFile)
        (g : Index)
        → IsWellFormed g
        → IsWellFormed (update_loop c write_object cached opts fs g).0
    unfolding update_loop
    update_loop-IsWellFormed cached opts [] g w = w
    update_loop-IsWellFormed cached opts (f ∷ fs) g w =
        let turn = update_file-IsWellFormed cached opts f g w in
        elim (Option-cases (update_file c write_object cached opts f g).1) [
          | inr (e, h) ↦ rw (h, update_loop) turn
          | inl h ↦ rw (h, update_loop) (update_loop-IsWellFormed cached opts fs _ turn)
        ]

-- Updating files, refreshing all entries and adding a given entry keep the order of the objects,
-- their count in the header and flags of 16 bits, with every option, for every state of the files,
-- and also where there is an error on the way.
pub update_index-IsWellFormed :
    (c : WorkTree) (write_object : Bytes → Bytes × Bool) (cached : Bytes → Option (List Bytes))
    → (opts : UpdateIndexOptions) (files : List WorkFile) (g : Index) → IsWellFormed g
    → IsWellFormed (update_index c write_object cached opts files g).0
unfolding update_index update_index_cache_info
update_index-IsWellFormed c write_object cached opts files g w =
    one_of opts.refresh (update_index_refresh c g)
      (elim opts.cache_info [
        | some info ↦ update_index_cache_info c opts info g
        | none ↦ update_loop c write_object cached opts files g
      ])
      (λ y. update_index_refresh-IsWellFormed c g w) λ n. given opts.cache_info
  where
    given :
        (o : Option Addition)
        → IsWellFormed
            (elim o as (λ x. Result) [
              | some info ↦ update_index_cache_info c opts info g
              | none ↦ update_loop c write_object cached opts files g
            ]).0
    given none = update_loop-IsWellFormed c write_object cached opts files g w
    given (some info) = stage_added c (options_of opts) _ g (omega arith) w
