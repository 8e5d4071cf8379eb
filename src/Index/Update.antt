-- ===== src/Index/Update.antt =====
-- git/updateindex.go, with `AddFile` of git/index.go and `Sha1FromString` of git/sha1.go. An operation
-- gives the index as it leaves it, with its error.
use dgit.Prelude.{ℕ, Bool, not, ◌&&◌, ◌||◌, List, [], ◌∷◌, Bytes, if◌then◌else◌, Option, none, some}
use dgit.EntryMode.{mode_blob, mode_symlink}
use dgit.Index.Entry.{IndexEntry, Index}
use dgit.Index.Stages.{WorkTree, IndexError, Options, Addition, refresh_stat, add_stage}
use dgit.Index.Files.{remove_file, index_set_skip_worktree}

pub data UpdateError : Type 0 where
  no_index_path : UpdateError
  not_listed : UpdateError
  not_read : UpdateError
  not_stored : UpdateError
  refused : IndexError → UpdateError
  missing_add : UpdateError
  is_directory : UpdateError
  missing_remove : UpdateError
  no_stat : UpdateError
  invalid_line : UpdateError
  invalid_sha1 : UpdateError
  invalid_mode : UpdateError
  invalid_stage : UpdateError
  type_differs : UpdateError
  no_type : UpdateError

pub record UpdateIndexOptions : Type 0 where
  pub add : Bool
  pub remove : Bool
  pub force_remove : Bool
  pub replace : Bool
  pub refresh : Bool
  pub modify_skip_worktree : Bool
  pub skip_worktree_value : Bool
  pub cache_info : Option Addition

-- A file as the operating system has it: whether it has an `IndexPath`, `Lstat`, and `Readlink` or
-- `ReadFile`.
pub record WorkFile : Type 0 where
  pub path : Bytes
  pub has_index_path : Bool
  pub exists : Bool
  pub is_dir : Bool
  pub is_symlink : Bool
  pub mtime : ℕ
  pub fsize : ℕ
  pub contents : Option Bytes

unfoldable pub options_of : UpdateIndexOptions → Options
options_of opts = record { add = opts.add; replace = opts.replace }

unfoldable pub with_error : Index × Option IndexError → Index × Option UpdateError
with_error (g, none) = (g, none)
with_error (g, some e) = (g, some (refused e))

unfoldable pub add_blob :
    WorkTree → Options → WorkFile → ℕ → Bytes → Index → Index × Option UpdateError
add_blob c opts f mode id g = with_error (
    add_stage c opts
      (record { path = f.path; mode = mode; sha1 = id; stage = 0; size = f.fsize; mtime = f.mtime })
      g)

-- `WriteObject("blob", …)`: the id, and whether it could be stored.
module _ (c : WorkTree) (write_object : Bytes → Bytes × Bool) where
  -- `AddFile`, for a file with an `IndexPath`. For a symbolic link an error in storing it is printed only.
  unfoldable pub add_file : Options → WorkFile → Index → Index × Option UpdateError
  add_file opts f g =
      if not f.exists
      then (g, some not_read)
      else if f.is_dir
      then (g, some is_directory)
      else elim f.contents [
        | none ↦ (g, some not_read)
        | some contents ↦
            if f.is_symlink
            then add_blob c opts f mode_symlink (write_object contents).0 g
            else if not (write_object contents).1
            then (g, some not_stored)
            else add_blob c opts f mode_blob (write_object contents).0 g
      ]

  unfoldable pub remove_files : List Bytes → Index → Index
  remove_files [] g = g
  remove_files (p ∷ ps) g = remove_files ps (remove_file p g)

  unfoldable pub skip_modified : UpdateIndexOptions → Bytes → Index → Index
  skip_modified opts path g =
      if opts.modify_skip_worktree
      then (index_set_skip_worktree path opts.skip_worktree_value g).0
      else g

  unfoldable pub added :
      UpdateIndexOptions → Bytes → Index × Option UpdateError → Index × Option UpdateError
  added opts path (g, some e) = (g, some (if not opts.add then missing_add else e))
  added opts path (g, none) = (skip_modified opts path g, none)

  -- One turn of the loop, for a file with an `IndexPath` and for any. `cached` are the paths that
  -- `LsFiles` has below a directory, and `none` is its error.
  unfoldable pub remove_listed : Option (List Bytes) → Index → Index × Option UpdateError
  remove_listed none g = (g, some not_listed)
  remove_listed (some paths) g = (remove_files paths g, none)

  unfoldable pub update_named :
      (Bytes → Option (List Bytes))
      → UpdateIndexOptions
      → WorkFile
      → Index
      → Index × Option UpdateError
  update_named cached opts f g =
      if f.is_dir && (opts.remove || opts.force_remove)
      then remove_listed (cached f.path) g
      else if f.is_dir && opts.add
      then (g, some is_directory)
      else if (not f.exists || opts.force_remove) && (opts.remove || opts.force_remove)
      then (skip_modified opts f.path (remove_file f.path g), none)
      else if not f.exists || opts.force_remove
      then (g, some missing_remove)
      else added opts f.path (add_file (options_of opts) f g)

  unfoldable pub update_file :
      (Bytes → Option (List Bytes))
      → UpdateIndexOptions
      → WorkFile
      → Index
      → Index × Option UpdateError
  update_file cached opts f g =
      if not f.has_index_path then (g, some no_index_path) else update_named cached opts f g

  unfoldable pub update_loop :
      (Bytes → Option (List Bytes))
      → UpdateIndexOptions
      → List WorkFile
      → Index
      → Index × Option UpdateError
  update_loop cached opts [] g = (g, none)
  update_loop cached opts (f ∷ fs) g = elim (update_file cached opts f g).1 [
    | some e ↦ update_file cached opts f g
    | none ↦ update_loop cached opts fs (update_file cached opts f g).0
  ]

-- `UpdateIndexRefresh`: the entries up to an error are refreshed.
unfoldable pub refresh_objects : WorkTree → List IndexEntry → List IndexEntry × Option UpdateError
refresh_objects c [] = ([], none)
refresh_objects c (e ∷ es) =
    let rest : List IndexEntry × Option UpdateError = refresh_objects c es in
    if not (c.exists e.path_name) then (e ∷ rest.0, rest.1) else elim (refresh_stat c e) [
      | none ↦ (e ∷ es, some no_stat)
      | some new ↦ (new ∷ rest.0, rest.1)
    ]

unfoldable pub update_index_refresh : WorkTree → Index → Index × Option UpdateError
update_index_refresh c g =
    (record g { objects = (refresh_objects c g.objects).0 }, (refresh_objects c g.objects).1)

-- `UpdateIndexCacheInfo`: path, mode and id are given.
unfoldable pub update_index_cache_info :
    WorkTree → UpdateIndexOptions → Addition → Index → Index × Option UpdateError
update_index_cache_info c opts info g =
    with_error (add_stage c (options_of opts) (record info { stage = 0; size = 0; mtime = 0 }) g)
