-- ===== src/Index/Files.antt =====
-- git/index.go: the operations on the first entry of a path.
use dgit.Prelude.{
  ◌+◌, ◌-◌, ◌%◌, ◌^◌, Bool, false, not, ◌&&◌, ◌||◌, List, [], ◌∷◌, Bytes, leb, ◌==◌, if◌then◌else◌,
  bytes_eq, Option, none, some,
}
use dgit.Index.Entry.{IndexEntry, Index, stage, set_skip_worktree}
use dgit.Index.Stages.{IndexError, unmerged}

unfoldable pub remove_first : Bytes → List IndexEntry → List IndexEntry
remove_first file [] = []
remove_first file (e ∷ es) = if bytes_eq e.path_name file then es else e ∷ remove_first file es

unfoldable pub has_path : Bytes → List IndexEntry → Bool
has_path file [] = false
has_path file (e ∷ es) = bytes_eq e.path_name file || has_path file es

-- `RemoveFile`; the count is a `uint32`.
unfoldable pub remove_file : Bytes → Index → Index
remove_file file g =
    if has_path file g.objects
    then record g {
      objects = remove_first file g.objects;
      number_index_entries = (g.number_index_entries + 2 ^ 32 - 1) % 2 ^ 32;
    }
    else g

-- `Index.SetSkipWorktree`: the first entry of the path, if it is merged.
pub data Marked : Type 0 where
  marked : List IndexEntry → Marked
  is_unmerged : Marked

unfoldable pub mark_first : Bytes → Bool → List IndexEntry → Marked
mark_first path value [] = marked []
mark_first path value (e ∷ es) =
    let rest = mark_first path value es in
    if bytes_eq e.path_name path
    then (if not (stage e == 0) then is_unmerged else marked (set_skip_worktree value e ∷ es))
    else elim rest [ marked kept ↦ marked (e ∷ kept) | is_unmerged ↦ is_unmerged ]

unfoldable pub index_set_skip_worktree : Bytes → Bool → Index → Index × Option IndexError
index_set_skip_worktree path value g = elim (mark_first path value g.objects) [
  | is_unmerged ↦ (g, some unmerged)
  | marked objects ↦ (
    record g { objects = objects; version = (if leb g.version 2 && value then 3 else g.version) },
    none,
  )
]

unfoldable pub get_sha1 : Bytes → List IndexEntry → Option Bytes
get_sha1 path [] = none
get_sha1 path (e ∷ es) = if bytes_eq e.path_name path then some e.sha1 else get_sha1 path es
