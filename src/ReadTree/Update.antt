-- ===== src/ReadTree/Update.antt =====
-- git/readtree.go: `checkReadtreePrereqs`, `checkSparseMatches` and `checkMergeAndUpdate`, with
-- `CheckoutIndexUncommited` of git/checkoutindex.go as that calls it.
use dgit.Prelude.{
  Bool, true, false, not, ◌&&◌, ◌||◌, List, [], ◌∷◌, ◌++◌, Bytes, bytes_eq, ◌==◌, leb, map,
  if◌then◌else◌, Option, none, some,
}
use dgit.Index.Entry.{IndexEntry, Index, stage, skip_worktree, set_skip_worktree}
use dgit.Index.Stages
use dgit.Index.Stages.{refresh_stat}
use dgit.Ignore.{IgnorePattern, negates}
use dgit.ReadTree.Maps.{IndexMap, get, is_clean}
use dgit.ReadTree.Paths.{PathRules, is_invalid}
use dgit.ReadTree.WorkTree.{FileTree, exists, is_dir, files_of}

pub record ReadTreeOptions : Type 0 where
  pub merge : Bool
  pub reset : Bool
  pub update : Bool
  pub dry_run : Bool
  pub no_sparse_checkout : Bool
  pub prefix : Bytes
  pub exclude_per_directory : Bytes

-- What the code asks of others: `LsFiles` with `Others` and `Modified`, with `Others`, and with
-- `Killed`, on the index and the work tree before the change; whether `GetObject` finds an object; the
-- file system's data of a work tree; the settings for paths; and the patterns of
-- info/sparse-checkout, if there is such a file, with `IgnorePattern.Matches`.
pub record Surroundings : Type 0 where
  pub would_lose : Bytes → Bool
  pub untracked : Bytes → Bool
  pub killed : List Bytes → List Bytes
  pub has_object : Bytes → Bool
  pub stats : FileTree → Stages.WorkTree
  pub rules : PathRules
  pub sparse_patterns : Option (List IgnorePattern)
  pub pattern_matches : IgnorePattern → Bytes → Bool

-- The loop of `checkReadtreePrereqs` over the index: `none` is its error.
unfoldable pub last_is : Bytes → List Bytes → Bool
last_is path [] = false
last_is path (p ∷ []) = bytes_eq p path
last_is path (p ∷ (q ∷ ps)) = last_is path (q ∷ ps)

unfoldable pub prereqs_loop : ReadTreeOptions → List IndexEntry → List Bytes → Option (List Bytes)
prereqs_loop opt [] to_remove = some to_remove
prereqs_loop opt (e ∷ es) to_remove = elim (not (stage e == 0) && opt.merge) [
  | true ↦ none
  | false ↦ prereqs_loop opt es (
      if not (stage e == 0) && opt.reset && not (last_is e.path_name to_remove)
      then to_remove ++ (e.path_name ∷ [])
      else to_remove)
]

abbrev given : Bytes → Bool
given s = not (bytes_eq s [])

unfoldable pub check_readtree_prereqs : ReadTreeOptions → List IndexEntry → Option (List Bytes)
check_readtree_prereqs opt objects =
    if opt.update && not (given opt.prefix) && not opt.merge && not opt.reset
    then none
    else if (given opt.prefix && (opt.merge || opt.reset))
        || (opt.merge && (given opt.prefix || opt.reset))
        || (opt.reset && (given opt.prefix || opt.merge))
    then none
    else if given opt.exclude_per_directory && not opt.update
    then none
    else prereqs_loop opt objects []

module _ (env : Surroundings) (opt : ReadTreeOptions) where
  unfoldable pub sparse_fold : List IgnorePattern → Bytes → Bool → Bool
  sparse_fold [] path matches = matches
  sparse_fold (p ∷ ps) path matches =
      sparse_fold ps path
        (if env.pattern_matches p path then (if negates p then not matches else true) else matches)

  -- `parseSparsePatterns` with `checkSparseMatches`
  unfoldable pub check_sparse_matches : Bytes → Bool
  check_sparse_matches path =
      if opt.no_sparse_checkout
      then true
      else elim env.sparse_patterns [ none ↦ true | some ps ↦ sparse_fold ps path false ]

  unfoldable pub no_sparse : Bool
  no_sparse = opt.no_sparse_checkout || elim env.sparse_patterns [ none ↦ true | some ps ↦ false ]

  unfoldable pub skip_unmatched : IndexEntry → IndexEntry
  skip_unmatched e = if check_sparse_matches e.path_name then e else set_skip_worktree true e

  unfoldable pub some_match : List IndexEntry → Bool
  some_match [] = false
  some_match (e ∷ es) = check_sparse_matches e.path_name || some_match es

  unfoldable pub all_match : List IndexEntry → Bool
  all_match [] = true
  all_match (e ∷ es) = check_sparse_matches e.path_name && all_match es

  unfoldable pub newly_skipped : IndexMap → IndexEntry → Bool
  newly_skipped orig e =
      not (check_sparse_matches e.path_name)
      && elim (get e.path_name orig) [ none ↦ false | some o ↦ not (skip_worktree o) ]

  unfoldable pub some_newly_skipped : IndexMap → List IndexEntry → Bool
  some_newly_skipped orig [] = false
  some_newly_skipped orig (e ∷ es) = newly_skipped orig e || some_newly_skipped orig es

  -- The first part: `none` says that the sparse checkout would leave no file.
  unfoldable pub apply_sparse : IndexMap → Index → Option Index
  apply_sparse orig idx =
      if no_sparse
      then some idx
      else if not (some_match idx.objects || some_match orig) && some_newly_skipped orig idx.objects
      then none
      else some (record idx {
        objects = map skip_unmatched idx.objects;
        version = (if not (all_match idx.objects) && leb idx.version 2 then 3 else idx.version);
      })

  unfoldable pub some_invalid : List IndexEntry → Bool
  some_invalid [] = false
  some_invalid (e ∷ es) = is_invalid env.rules e.path_name || some_invalid es

  -- One entry of the loop that verifies, with the files to be checked out so far; `none` refuses.
  unfoldable pub verify_tracked :
      FileTree → IndexEntry → IndexEntry → List Bytes → Option (List Bytes)
  verify_tracked w e orig files =
      if bytes_eq orig.sha1 e.sha1
      then some files
      else if is_clean (files_of w) e.path_name orig.sha1
      then some (files ++ (e.path_name ∷ []))
      else if not opt.reset
      then none
      else some (files ++ (e.path_name ∷ []))

  unfoldable pub verify_entry : FileTree → IndexMap → IndexEntry → List Bytes → Option (List Bytes)
  verify_entry w orig e files =
      if opt.update && is_dir e.path_name w && env.would_lose e.path_name
      then none
      else if not (stage e == 0)
      then some files
      else if skip_worktree e
      then some files
      else if opt.update && not (exists e.path_name w)
      then some (files ++ (e.path_name ∷ []))
      else elim (get e.path_name orig) [
        | some o ↦ verify_tracked w e o files
        | none ↦
            if opt.update
              && exists e.path_name w
              && env.untracked e.path_name
              && not (is_clean (files_of w) e.path_name e.sha1)
            then none
            else some (files ++ (e.path_name ∷ []))
      ]

  unfoldable pub verify_loop :
      FileTree → IndexMap → List IndexEntry → List Bytes → Option (List Bytes)
  verify_loop w orig [] files = some files
  verify_loop w orig (e ∷ es) files = elim (verify_entry w orig e files) [
    | none ↦ none
    | some more ↦ verify_loop w orig es more
  ]

  unfoldable pub verify : FileTree → IndexMap → List IndexEntry → Option (List Bytes)
  verify w orig objects =
      if opt.merge || opt.reset || opt.update then verify_loop w orig objects [] else some []
