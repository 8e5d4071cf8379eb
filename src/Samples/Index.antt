-- ===== src/Samples/Index.antt =====
-- An index of three entries, and the operations on it.
use dgit.Prelude.{
  ℕ, ◌+◌, ◌*◌, ◌^◌, ◌≡◌, refl, List, [], ◌∷◌, Bytes, codes, true, false, none, some, All, arith,
  length, bytes_eq, has_prefix,
}
use dgit.Index.Entry.{
  IndexEntry, Index, stage, stage_bits, less, less_bytes, insert_sorted, sort_by_path, keep,
}
use dgit.Index.Stages.{
  WorkTree, Options, Addition, new_flags, add_stage, add_stage_body, find_key, has_key,
  replace_entries_check, replace_loop, append_entry, refresh_stat, new_entry,
  remove_unmerged_stages, stays_merged,
}
use dgit.Index.WellFormed.{IsWellFormed}
use dgit.Index.AddStage.{add_stage-IsWellFormed}
use dgit.Index.Effect.{IsMerged, add_stage-IsMerged}
use dgit.Index.Unmerged.{
  get_stage_map, get_path, put_path, get_unmerged, unmerged_loop, note_unmerged, set_stage,
  or_nothing, nothing_unmerged,
}
use dgit.Index.Lookups.{unmerged_at, present, get_unmerged-get_stage_map}
use dgit.Index.Compare.{no_link, compare_stat, compare_stat-refresh_stat}

abbrev entry : Bytes → ℕ → IndexEntry
entry path s = record {
  ctime = 0;
  ctimenano = 0;
  mtime = 0;
  dev = 0;
  ino = 0;
  mode = 0x81a4;
  uid = 0;
  gid = 0;
  fsize = 3;
  sha1 = codes "old";
  flags = s * 2 ^ 12 + length path;
  extensions = none;
  path_name = path;
}

abbrev conflicted : Index
conflicted = record {
  version = 2;
  number_index_entries = 3;
  objects = entry (codes "a") 0 ∷ entry (codes "b") 2 ∷ entry (codes "b") 3 ∷ [];
}

conflicted-IsWellFormed : IsWellFormed conflicted
unfolding less less_bytes stage_bits bytes_eq
conflicted-IsWellFormed = record {
  sorted = ((refl, (refl, tt)), ((refl, tt), (tt, tt)));
  counted = refl;
  words = (omega arith, (omega arith, (omega arith, tt)));
}

abbrev tree : WorkTree
tree = record {
  exists = λ path. true;
  stat = λ path. some (record { mtime = 7; fsize = 5; ctime = 7; ctimenano = 0; ino = 3 });
}

abbrev resolved : Addition
resolved = record {
  path = codes "b";
  mode = 0x81a4;
  sha1 = codes "new";
  stage = 0;
  size = 5;
  mtime = 7;
}

abbrev adding : Options
adding = record { add = true; replace = false }

keys : List IndexEntry → List (Bytes × ℕ)
keys [] = []
keys (e ∷ es) = (e.path_name, stage e) ∷ keys es

-- Adding `b` at stage 0 settles its conflict.
add_stage_resolves :
    keys (add_stage tree adding resolved conflicted).0.objects
    ≡ (codes "a", 0) ∷ (codes "b", 0) ∷ []
unfolding keys add_stage add_stage_body find_key has_key replace_entries_check replace_loop
    append_entry refresh_stat new_entry new_flags sort_by_path insert_sorted less less_bytes
    stage_bits bytes_eq has_prefix remove_unmerged_stages stays_merged keep
add_stage_resolves = refl

-- It settles it too where the addition is refused: the entry of `b` is lost.
add_stage_loses :
    keys (add_stage tree (record { add = false; replace = false }) resolved conflicted).0.objects
    ≡ (codes "a", 0) ∷ []
unfolding keys add_stage add_stage_body find_key has_key stage_bits bytes_eq remove_unmerged_stages
    stays_merged keep
add_stage_loses = refl

add_stage-IsWellFormed_example : IsWellFormed (add_stage tree adding resolved conflicted).0
add_stage-IsWellFormed_example =
    add_stage-IsWellFormed tree adding resolved (omega arith) conflicted conflicted-IsWellFormed

add_stage-IsMerged_example :
    All (IsMerged (codes "b")) ((add_stage tree adding resolved conflicted).0.objects)
add_stage-IsMerged_example = add_stage-IsMerged tree adding resolved conflicted refl

abbrev refreshed : IndexEntry
refreshed = record (entry (codes "a") 0) { mtime = 7; fsize = 5; ctime = 7; ctimenano = 0; ino = 3 }

refreshes : refresh_stat tree (entry (codes "a") 0) ≡ some refreshed
unfolding refresh_stat
refreshes = refl

compare_stat-refresh_stat_example : compare_stat (tree.stat (codes "a")) no_link refreshed ≡ none
compare_stat-refresh_stat_example =
    compare_stat-refresh_stat tree (entry (codes "a") 0) no_link refl tt refreshes

-- The second entry of the path keeps what the first noted.
unmerged_paths :
    get_path (codes "b") (get_unmerged conflicted.objects)
    ≡ some (record {
      stage1 = none;
      stage2 = some (entry (codes "b") 2);
      stage3 = some (entry (codes "b") 3);
    })
unfolding get_path get_unmerged unmerged_loop note_unmerged set_stage or_nothing nothing_unmerged
    put_path stage_bits bytes_eq
unmerged_paths = refl

get_unmerged-get_stage_map_example :
    (find_key (codes "b") 3 (get_stage_map conflicted.objects)
      ≡ find_key (codes "b") 3 conflicted.objects)
    × (get_path (codes "b") (get_unmerged conflicted.objects)
        ≡ present (unmerged_at (codes "b") conflicted.objects))
get_unmerged-get_stage_map_example =
    get_unmerged-get_stage_map conflicted conflicted-IsWellFormed (codes "b") 3
