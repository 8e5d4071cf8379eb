-- ===== src/ReadTree/LocalChanges.antt =====
-- git/readtree.go: which local changes `checkMergeAndUpdate` keeps.
use dgit.Prelude.{
  ◌≡◌, refl, inl, inr, Bool, true, false, not, ◌&&◌, ◌||◌, List, [], ◌∷◌, map, Bytes, has_prefix,
  All, Bool-cases, Option-cases, some, some_inj, if◌then◌else◌, arith, subst,
}
use dgit.Index.Entry.{IndexEntry, Index, set_skip_worktree}
use dgit.Index.Stages.{slash}
use dgit.ReadTree.Maps.{IndexMap, get, get_map}
use dgit.ReadTree.WorkTree.{FileTree, file_at}
use dgit.ReadTree.Update.{
  ReadTreeOptions, Surroundings, check_sparse_matches, no_sparse, skip_unmatched, some_match,
  some_newly_skipped, apply_sparse, some_invalid, verify,
}
use dgit.ReadTree.UpdateTree.{
  checkout_index_uncommitted, delete_loop, refresh_loop, reset_removals, Updated, change_files,
  refresh_and_reset, update_files, check_and_update, check_merge_and_update,
}
use dgit.ReadTree.Kept.{IsClear}
use dgit.ReadTree.Verified.{Lack, NoneBelow, verify_loop-IsClear}
use dgit.ReadTree.Loops.{
  Has, then_do-Has, remove_killed-Has, get-Lack, checkout_files-Has, delete_loop-Has,
  refresh_loop-Has,
}

module _ (env : Surroundings) (opt : ReadTreeOptions) (q x : Bytes) where
  skip_unmatched-Lack :
      (es : List IndexEntry) → Lack q x es → Lack q x (map (skip_unmatched env opt) es)
  unfolding skip_unmatched set_skip_worktree
  skip_unmatched-Lack [] l = tt
  skip_unmatched-Lack (e ∷ es) (l, ls) = (
    elim (Bool-cases (check_sparse_matches env opt e.path_name)) [
      | inl y ↦ rw y l
      | inr n ↦ rw n l
    ],
    skip_unmatched-Lack es ls,
  )

  skip_unmatched-NoneBelow :
      (es : List IndexEntry) → NoneBelow q es → NoneBelow q (map (skip_unmatched env opt) es)
  unfolding skip_unmatched set_skip_worktree
  skip_unmatched-NoneBelow [] l = tt
  skip_unmatched-NoneBelow (e ∷ es) (l, ls) = (
    elim (Bool-cases (check_sparse_matches env opt e.path_name)) [
      | inl y ↦ rw y l
      | inr n ↦ rw n l
    ],
    skip_unmatched-NoneBelow es ls,
  )

  apply_sparse-kept :
      (orig : IndexMap) (new : Index) {idx : Index}
      → apply_sparse env opt orig new ≡ some idx
      → Lack q x new.objects
      → NoneBelow q new.objects
      → Lack q x idx.objects × NoneBelow q idx.objects
  unfolding apply_sparse
  apply_sparse-kept orig new {idx} e l b = elim (Bool-cases (no_sparse env opt)) [
    | inl y ↦ subst Kept (some_inj (rw (y, apply_sparse) at e)) (l, b)
    | inr n ↦ elim (Bool-cases bare) [
      | inl z ↦ cc (rw (n, z, apply_sparse) at e)
      | inr m ↦
          subst Kept (some_inj (rw (n, m, apply_sparse) at e))
            (skip_unmatched-Lack new.objects l, skip_unmatched-NoneBelow new.objects b)
    ]
  ]
    where
      Kept : Index → Type 0
      Kept i = Lack q x i.objects × NoneBelow q i.objects

      bare : Bool
      bare =
          not (some_match env opt new.objects || some_match env opt orig)
          && some_newly_skipped env opt orig new.objects

  one_of :
      (b : Bool) (u v : Updated)
      → (b ≡ true → Has q x u.tree)
      → Has q x v.tree
      → Has q x (if b then u else v).tree
  one_of true u v h k = h refl
  one_of false u v h k = k

  module _ (keeping : opt.reset ≡ false) (plain : opt.prefix ≡ [])
      (matching : check_sparse_matches env opt q ≡ true)
      (killed : (files : List Bytes) → All (IsClear q) (env.killed files)) where
    change_files-Has :
        (orig : IndexMap) (es : List IndexEntry) (files : List Bytes) (w : FileTree)
        → Lack q x orig
        → All (IsClear q) files
        → Has q x w
        → Has q x (change_files env opt orig es files w).0
    unfolding change_files checkout_index_uncommitted
    change_files-Has orig es files w l c h =
        then_do-Has q x _ (delete_loop env opt (get_map es) orig)
          (checkout_files-Has q x env opt es files _ plain c
            (remove_killed-Has q x (env.killed files) w (killed files) h))
          (λ v k. delete_loop-Has q x env opt (get_map es) orig v matching l k)

    refresh_and_reset-Has :
        (removals : List Bytes) (idx : Index) (r : FileTree × Bool)
        → Lack q x idx.objects
        → Has q x r.0
        → Has q x (refresh_and_reset env opt removals idx r).tree
    unfolding refresh_and_reset reset_removals
    refresh_and_reset-Has removals idx (w, false) l h = h
    refresh_and_reset-Has removals idx (w, true) l h =
        then_do-Has q x (refresh_loop env opt idx.objects w).1 (reset_removals env opt removals)
          (refresh_loop-Has q x env opt idx.objects w l h) (λ v k. rw keeping k)

    update_files-Has :
        (orig : IndexMap) (removals : List Bytes) (idx : Index) (files : List Bytes) (w : FileTree)
        → Lack q x orig
        → Lack q x idx.objects
        → (opt.update ≡ true → All (IsClear q) files)
        → Has q x w
        → Has q x (update_files env opt orig removals idx files w).tree
    unfolding update_files
    update_files-Has orig removals idx files w l k c h =
        one_of (not opt.dry_run && (opt.update || opt.reset)) _ _
          (λ b.
            refresh_and_reset-Has removals idx _ k
              (change_files-Has orig idx.objects files w l (c (ground arith)) h))
          h

    module _ (listed : (t : Bytes) → has_prefix q (slash t) ≡ true → env.would_lose t ≡ true) where
      verify-IsClear :
          (orig : IndexMap) (es : List IndexEntry) (w : FileTree) {o : IndexEntry}
          {files : List Bytes}
          → Has q x w
          → get q orig ≡ some o
          → Lack q x orig
          → NoneBelow q es
          → verify env opt w orig es ≡ some files
          → opt.update ≡ true
          → All (IsClear q) files
      unfolding verify
      verify-IsClear orig es w {o} h tracked l b e y =
          verify_loop-IsClear env opt w orig q x o h tracked (get-Lack q x orig tracked l) keeping y
            listed es [] b tt (ground arith)

      check_and_update-Has :
          (orig : IndexMap) (removals : List Bytes) (idx : Index) (w : FileTree) {o : IndexEntry}
          → Has q x w
          → get q orig ≡ some o
          → Lack q x orig
          → Lack q x idx.objects
          → NoneBelow q idx.objects
          → Has q x (check_and_update env opt orig removals idx w).tree
      unfolding check_and_update
      check_and_update-Has orig removals idx w h tracked l k b =
          elim (Bool-cases (some_invalid env opt idx.objects)) [
            | inl y ↦ rw (y, check_and_update) h
            | inr n ↦ elim (Option-cases (verify env opt w orig idx.objects)) [
              | inl e ↦ rw (n, e, check_and_update) h
              | inr (files, e) ↦
                  rw (n, e, check_and_update)
                    (update_files-Has orig removals idx files w l k
                      (verify-IsClear orig idx.objects w h tracked l b e) h)
            ]
          ]

-- Without `Reset` and without a prefix, a file of the old index whose contents are those of no entry of
-- its path in the old or the new index still has these contents, whether there is an error on the way
-- or not, if: the sparse checkout takes the path; the new index has no path below it; `LsFiles`
-- lists every directory above it as holding modified files; and the files that `LsFiles` names as
-- killed are not the file, nor above or below it.
pub file_at-check_merge_and_update :
    (env : Surroundings) (opt : ReadTreeOptions) (q x : Bytes)
    → (orig : IndexMap) (removals : List Bytes) (new : Index) (w : FileTree) {o : IndexEntry}
    → opt.reset ≡ false
    → opt.prefix ≡ []
    → check_sparse_matches env opt q ≡ true
    → ((files : List Bytes) → All (IsClear q) (env.killed files))
    → ((t : Bytes) → has_prefix q (slash t) ≡ true → env.would_lose t ≡ true)
    → file_at q w ≡ some x
    → get q orig ≡ some o
    → Lack q x orig
    → Lack q x new.objects
    → NoneBelow q new.objects
    → file_at q (check_merge_and_update env opt orig removals new w).tree ≡ some x
unfolding check_merge_and_update
file_at-check_merge_and_update env opt q x orig removals new w keeping plain matching killed listed
      h tracked l k b =
    elim (Option-cases (apply_sparse env opt orig new)) [
      | inl e ↦ rw (e, check_merge_and_update) h
      | inr (idx, e) ↦
          let kept = apply_sparse-kept env opt q x orig new e k b in
          rw (e, check_merge_and_update)
            (check_and_update-Has env opt q x keeping plain matching killed listed orig removals idx
              w h tracked l kept.0 kept.1)
    ]
