-- ===== src/ReadTree/WorkTree.antt =====
-- git/checkoutindex.go and git/readtree.go: the files of the work tree and their changes. A work
-- tree stands as the ids of its files' contents by path, a directory as the files below it.
use dgit.Prelude.{
  Bool, true, false, not, ◌||◌, List, [], ◌∷◌, Bytes, ◌==◌, if◌then◌else◌, bytes_eq, has_prefix,
  Option, none, some,
}
use dgit.Index.Stages.{slash}
use dgit.ReadTree.Maps.{Files}

abbrev pub FileTree : Type 0
FileTree = List (Bytes × Bytes)

unfoldable pub file_at : Bytes → FileTree → Option Bytes
file_at q [] = none
file_at q ((p, id) ∷ w) = if bytes_eq p q then some id else file_at q w

unfoldable pub is_dir : Bytes → FileTree → Bool
is_dir q [] = false
is_dir q ((p, id) ∷ w) = has_prefix p (slash q) || is_dir q w

unfoldable pub is_file : Bytes → FileTree → Bool
is_file q w = elim (file_at q w) [ none ↦ false | some id ↦ true ]

unfoldable pub exists : Bytes → FileTree → Bool
exists q w = is_file q w || is_dir q w

-- What `IsClean` reads of it.
unfoldable pub files_of : FileTree → Files
files_of w = record { exists = λ q. exists q w; hash_file = λ q. file_at q w }

unfoldable pub remove : Bytes → FileTree → FileTree
remove q [] = []
remove q ((p, id) ∷ w) = if bytes_eq p q then remove q w else (p, id) ∷ remove q w

unfoldable pub remove_below : Bytes → FileTree → FileTree
remove_below q [] = []
remove_below q ((p, id) ∷ w) =
    if has_prefix p (slash q) then remove_below q w else (p, id) ∷ remove_below q w

-- `os.RemoveAll`
unfoldable pub remove_all : Bytes → FileTree → FileTree
remove_all q w = remove q (remove_below q w)

-- `filepath.Dir`, and `none` for the work tree itself.
unfoldable pub parent : Bytes → Option Bytes
parent [] = none
parent (c ∷ s) = elim (parent s) [
  | some p ↦ some (c ∷ p)
  | none ↦ if c == b'/' then some [] else none
]

unfoldable pub has_file_above : Bytes → FileTree → Bool
has_file_above q [] = false
has_file_above q ((p, id) ∷ w) = has_prefix q (slash p) || has_file_above q w

-- A parent that is a file makes way; `MkdirAll` fails at a file further up.
unfoldable pub clear_parent : Option Bytes → FileTree → FileTree
clear_parent none w = w
clear_parent (some p) w = if is_file p w then remove p w else w

-- `checkoutFile` with `Force`, for an object that is there or not. An error is printed and ends the
-- change of this file.
unfoldable pub checkout_file : Bool → Bytes → Bytes → FileTree → FileTree
checkout_file known q id w =
    let v : FileTree = clear_parent (parent q) (remove_below q w) in
    if not known then w else if has_file_above q v then v else (q, id) ∷ remove q v

-- `File.Remove`: its tree, and false for an error.
unfoldable pub file_remove : Bytes → FileTree → FileTree × Bool
file_remove q w = if is_file q w then (remove q w, true) else (w, false)

-- `removeFileClean`. The directory that it removes behind the last file holds no file.
unfoldable pub remove_file_clean : Bytes → FileTree → FileTree × Bool
remove_file_clean q w = file_remove q w
