-- ===== src/ReadTree/Maps.antt =====
-- git/index.go, git/readtree.go and git/client.go: index maps, and what the merges ask of them. A
-- map stands as the list of its entries in the order of one iteration.
use dgit.Prelude.{
  ◌≡◌, Bool, true, false, not, ◌||◌, List, [], ◌∷◌, Bytes, if◌then◌else◌, bytes_eq, has_prefix,
  Option, none, some,
}
use dgit.Index.Entry.{IndexEntry}
use dgit.Index.Stages.{slash}

abbrev pub IndexMap : Type 0
IndexMap = List IndexEntry

unfoldable pub get : Bytes → IndexMap → Option IndexEntry
get path [] = none
get path (e ∷ es) = if bytes_eq e.path_name path then some e else get path es

-- An assignment to the map: the entry of the path is replaced.
unfoldable pub put : IndexEntry → IndexMap → IndexMap
put new [] = new ∷ []
put new (e ∷ es) = if bytes_eq e.path_name new.path_name then new ∷ es else e ∷ put new es

unfoldable pub put_all : IndexMap → List IndexEntry → IndexMap
put_all m [] = m
put_all m (e ∷ es) = put_all (put e m) es

-- `Index.GetMap`
unfoldable pub get_map : List IndexEntry → IndexMap
get_map objects = put_all [] objects

unfoldable pub has_dir : Bytes → IndexMap → Bool
has_dir path [] = false
has_dir path (e ∷ es) = has_prefix e.path_name (slash path) || has_dir path es

unfoldable pub contains : Bytes → IndexMap → Bool
contains path m = elim (get path m) [ some e ↦ true | none ↦ has_dir path m ]

unfoldable pub same_path : IndexMap → IndexMap → Bytes → Bool
same_path p q path = elim (get path p) [
  | none ↦ elim (get path q) [ none ↦ true | some b ↦ false ]
  | some a ↦ elim (get path q) [ none ↦ false | some b ↦ bytes_eq a.sha1 b.sha1 ]
]

-- The work tree: the files that exist, and the ids of their contents as blobs (`HashFile`).
pub record Files : Type 0 where
  pub exists : Bytes → Bool
  pub hash_file : Bytes → Option Bytes

abbrev pub no_id : Bytes
no_id = 0 ∷ 0 ∷ 0 ∷ 0 ∷ 0 ∷ 0 ∷ 0 ∷ 0 ∷ 0 ∷ 0 ∷ 0 ∷ 0 ∷ 0 ∷ 0 ∷ 0 ∷ 0 ∷ 0 ∷ 0 ∷ 0 ∷ 0 ∷ []

-- `IndexPath.IsClean`
unfoldable pub is_clean : Files → Bytes → Bytes → Bool
is_clean c path s =
    if not (c.exists path)
    then bytes_eq s no_id
    else elim (c.hash_file path) [ none ↦ false | some fs ↦ bytes_eq fs s ]

-- No path stands twice.
abbrev pub IsMap : IndexMap → Type 0
IsMap [] = Unit {0}
IsMap (e ∷ es) = (get e.path_name es ≡ none) × IsMap es
