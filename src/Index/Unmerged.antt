-- ===== src/Index/Unmerged.antt =====
-- git/index.go: `GetStageMap` and `GetUnmerged`, the lookups of an index by path and stage.
use dgit.Prelude.{not, ◌==◌, List, [], ◌∷◌, Bytes, if◌then◌else◌, bytes_eq, Option, none, some}
use dgit.Index.Entry.{IndexEntry, stage}
use dgit.Index.Stages.{has_key}

-- The map of `GetStageMap` stands as the list of its entries: a key is the path and the stage of
-- the entry that it leads to.
unfoldable pub put_key : IndexEntry → List IndexEntry → List IndexEntry
put_key new [] = new ∷ []
put_key new (e ∷ es) = if has_key new.path_name (stage new) e then new ∷ es else e ∷ put_key new es

unfoldable pub put_keys : List IndexEntry → List IndexEntry → List IndexEntry
put_keys m [] = m
put_keys m (e ∷ es) = put_keys (put_key e m) es

unfoldable pub get_stage_map : List IndexEntry → List IndexEntry
get_stage_map objects = put_keys [] objects

pub record UnmergedPath : Type 0 where
  pub stage1 : Option IndexEntry
  pub stage2 : Option IndexEntry
  pub stage3 : Option IndexEntry

unfoldable pub nothing_unmerged : UnmergedPath
nothing_unmerged = record { stage1 = none; stage2 = none; stage3 = none }

-- The map of `GetUnmerged`, each path with what its pointer leads to.
abbrev pub UnmergedMap : Type 0
UnmergedMap = List (Bytes × UnmergedPath)

unfoldable pub get_path : Bytes → UnmergedMap → Option UnmergedPath
get_path path [] = none
get_path path (r ∷ m) = if bytes_eq r.0 path then some r.1 else get_path path m

unfoldable pub put_path : Bytes → UnmergedPath → UnmergedMap → UnmergedMap
put_path path u [] = (path, u) ∷ []
put_path path u (r ∷ m) = if bytes_eq r.0 path then (path, u) ∷ m else r ∷ put_path path u m

unfoldable pub set_stage : IndexEntry → UnmergedPath → UnmergedPath
set_stage e u =
    if stage e == 1
    then record u { stage1 = some e }
    else if stage e == 2
    then record u { stage2 = some e }
    else if stage e == 3
    then record u { stage3 = some e }
    else u

unfoldable pub or_nothing : Option UnmergedPath → UnmergedPath
or_nothing none = nothing_unmerged
or_nothing (some u) = u

unfoldable pub note_unmerged : UnmergedMap → IndexEntry → UnmergedMap
note_unmerged m e =
    if not (stage e == 0)
    then put_path e.path_name (set_stage e (or_nothing (get_path e.path_name m))) m
    else m

unfoldable pub unmerged_loop : UnmergedMap → List IndexEntry → UnmergedMap
unmerged_loop m [] = m
unmerged_loop m (e ∷ es) = unmerged_loop (note_unmerged m e) es

unfoldable pub get_unmerged : List IndexEntry → UnmergedMap
get_unmerged objects = unmerged_loop [] objects
