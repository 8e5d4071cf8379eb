-- ===== src/ReadTree/UpdateTree.antt =====
-- git/readtree.go and git/checkoutindex.go: the part of `checkMergeAndUpdate` that changes the work
-- tree, and the whole of it. A tree with false stands for an error after these changes.
use dgit.Prelude.{
  Bool, true, false, not, ◌&&◌, ◌||◌, List, [], ◌∷◌, ◌++◌, Bytes, bytes_eq, ◌==◌, if◌then◌else◌,
  Option, none, some,
}
use dgit.Index.Entry.{IndexEntry, Index, stage, skip_worktree}
use dgit.Index.Stages.{refresh_stat}
use dgit.ReadTree.Maps.{IndexMap, get, get_map, is_clean}
use dgit.ReadTree.WorkTree.{
  FileTree, exists, files_of, remove_all, checkout_file, file_remove, remove_file_clean,
}
use dgit.ReadTree.Update.{
  ReadTreeOptions, Surroundings, check_sparse_matches, no_sparse, apply_sparse, some_invalid,
  verify,
}

unfoldable pub then_do : FileTree × Bool → (FileTree → FileTree × Bool) → FileTree × Bool
then_do (w, true) f = f w
then_do (w, false) f = (w, false)

unfoldable pub remove_killed : List Bytes → FileTree → FileTree
remove_killed [] w = w
remove_killed (q ∷ qs) w = remove_killed qs (remove_all q w)

unfoldable pub reset_loop : List Bytes → FileTree → FileTree × Bool
reset_loop [] w = (w, true)
reset_loop (q ∷ qs) w = then_do (if exists q w then file_remove q w else (w, true)) (reset_loop qs)

unfoldable pub skip_file : IndexEntry → FileTree → FileTree × Bool
skip_file e w =
    if exists e.path_name w && skip_worktree e && is_clean (files_of w) e.path_name e.sha1
    then remove_file_clean e.path_name w
    else (w, true)

-- The work tree, the new index, and false for an error.
pub record Updated : Type 0 where
  pub tree : FileTree
  pub index : Index
  pub done : Bool

module _ (env : Surroundings) (opt : ReadTreeOptions) where
  -- The loop of `CheckoutIndexUncommited` over the index for one file, with `Force` and `Quiet`.
  unfoldable pub checkout_entries : List IndexEntry → Bytes → FileTree → FileTree × Bool
  checkout_entries [] path w = (w, true)
  checkout_entries (e ∷ es) path w = elim (bytes_eq e.path_name path) [
    | false ↦ checkout_entries es path w
    | true ↦ elim (stage e == 0) [
      | true ↦
          checkout_entries es path
            (checkout_file (env.has_object e.sha1) (opt.prefix ++ e.path_name) e.sha1 w)
      | false ↦ (w, false)
    ]
  ]

  unfoldable pub checkout_files : List IndexEntry → List Bytes → FileTree → FileTree × Bool
  checkout_files objects [] w = (w, true)
  checkout_files objects (path ∷ paths) w =
      then_do (checkout_entries objects path w) (checkout_files objects paths)

  unfoldable pub checkout_index_uncommitted :
      List IndexEntry → List Bytes → FileTree → FileTree × Bool
  checkout_index_uncommitted objects files w =
      checkout_files objects files (remove_killed (env.killed files) w)

  -- What was in the old index and is not in the new one.
  unfoldable pub delete_entry : IndexMap → IndexEntry → FileTree → FileTree × Bool
  delete_entry new e w = elim (get e.path_name new) [
    | some f ↦ (w, true)
    | none ↦
        if is_clean (files_of w) e.path_name e.sha1
        then remove_file_clean e.path_name w
        else if not (no_sparse env opt)
            && not (check_sparse_matches env opt e.path_name)
            && exists e.path_name w
        then remove_file_clean e.path_name w
        else (w, true)
  ]

  unfoldable pub delete_loop : IndexMap → IndexMap → FileTree → FileTree × Bool
  delete_loop new [] w = (w, true)
  delete_loop new (e ∷ es) w = then_do (delete_entry new e w) (delete_loop new es)

  -- The loop that refreshes the entries, and removes the files of those that are skipped.
  unfoldable pub refresh_entry : IndexEntry → FileTree → Option IndexEntry
  refresh_entry e w =
      if exists e.path_name w && not (skip_worktree e) then refresh_stat (env.stats w) e else some e

  -- The entry after its turn, and whether there was no error.
  unfoldable pub refresh_turn : IndexEntry → FileTree → IndexEntry × (FileTree × Bool)
  refresh_turn e w = elim (refresh_entry e w) [
    | none ↦ (e, (w, false))
    | some new ↦ (new, skip_file e w)
  ]

  unfoldable pub refresh_loop : List IndexEntry → FileTree → List IndexEntry × (FileTree × Bool)
  refresh_loop [] w = ([], (w, true))
  refresh_loop (e ∷ es) w =
      let turn : IndexEntry × (FileTree × Bool) = refresh_turn e w in
      elim turn.1.1 [
        | false ↦ (turn.0 ∷ es, turn.1)
        | true ↦
            let rest : List IndexEntry × (FileTree × Bool) = refresh_loop es turn.1.0 in
            (turn.0 ∷ rest.0, rest.1)
      ]

  -- The tree before its last loop, and the whole.
  unfoldable pub change_files : IndexMap → List IndexEntry → List Bytes → FileTree → FileTree × Bool
  change_files orig objects files w =
      then_do (checkout_index_uncommitted objects files w) (delete_loop (get_map objects) orig)

  unfoldable pub reset_removals : List Bytes → FileTree → FileTree × Bool
  reset_removals removals w = if opt.reset then reset_loop removals w else (w, true)

  unfoldable pub refresh_and_reset : List Bytes → Index → FileTree × Bool → Updated
  refresh_and_reset removals idx (w, false) = record { tree = w; index = idx; done = false }
  refresh_and_reset removals idx (w, true) =
      let last : List IndexEntry × (FileTree × Bool) = refresh_loop idx.objects w in
      let end : FileTree × Bool = then_do last.1 (reset_removals removals) in
      record { tree = end.0; index = record idx { objects = last.0 }; done = end.1 }

  unfoldable pub update_files : IndexMap → List Bytes → Index → List Bytes → FileTree → Updated
  update_files orig removals idx files w =
      if not opt.dry_run && (opt.update || opt.reset)
      then refresh_and_reset removals idx (change_files orig idx.objects files w)
      else record { tree = w; index = idx; done = true }

  unfoldable pub check_and_update : IndexMap → List Bytes → Index → FileTree → Updated
  check_and_update orig removals idx w =
      if some_invalid env opt idx.objects
      then record { tree = w; index = idx; done = false }
      else elim (verify env opt w orig idx.objects) [
        | none ↦ record { tree = w; index = idx; done = false }
        | some files ↦ update_files orig removals idx files w
      ]

  unfoldable pub check_merge_and_update : IndexMap → List Bytes → Index → FileTree → Updated
  check_merge_and_update orig removals new w = elim (apply_sparse env opt orig new) [
    | none ↦ record { tree = w; index = new; done = false }
    | some idx ↦ check_and_update orig removals idx w
  ]
