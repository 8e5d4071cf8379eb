-- ===== src/Samples/UpdateIndex.antt =====
-- An index that is updated by a file, and one that is read from a line of index-info.
use dgit.Prelude.{◌≡◌, refl, Bool, true, false, [], ◌∷◌, Bytes, codes, bytes_eq, none, some}
use dgit.EntryMode.{mode_from_string}
use dgit.PacketLine.{digit_value}
use dgit.Config.{prepend, is_space}
use dgit.Config.Spaces.{
  two_bytes_space, three_bytes_space, space_ahead, space_behind, trim_from, backwards, trim_spaces,
}
use dgit.Config.Parse.{split_by}
use dgit.Index.Entry.{IndexEntry, Index, new_index, sort_by_path, insert_sorted, keep, stage_bits}
use dgit.Index.Stages.{
  WorkTree, refresh_stat, add_stage, add_stage_body, append_entry, new_entry, new_flags, find_key,
  replace_entries_check, replace_loop, remove_unmerged_stages, stays_merged,
}
use dgit.Index.WellFormed.{IsWellFormed}
use dgit.Index.Update.{
  UpdateIndexOptions, WorkFile, options_of, with_error, add_blob, add_file, skip_modified, added,
  update_file, update_named, update_loop,
}
use dgit.Index.IndexInfo.{
  decode_hex, sha1_from_string, add_info, info_of_two, info_fields, info_pieces, info_line,
  info_loop, update_index_from_reader, update_index,
}
use dgit.Index.UpdateIndex.{update_index-IsWellFormed}
use dgit.Index.ReadInfo.{update_index_from_reader-IsWellFormed}

abbrev nothing_there : WorkTree
nothing_there = record { exists = λ path. false; stat = λ path. none }

abbrev options : UpdateIndexOptions
options = record {
  add = true;
  remove = false;
  force_remove = false;
  replace = false;
  refresh = false;
  modify_skip_worktree = false;
  skip_worktree_value = false;
  cache_info = none;
}

abbrev file : WorkFile
file = record {
  path = codes "a";
  has_index_path = true;
  exists = true;
  is_dir = false;
  is_symlink = false;
  mtime = 5;
  fsize = 2;
  contents = some (codes "hi");
}

abbrev store : Bytes → Bytes × Bool
store contents = (contents, true)

empty_IsWellFormed : IsWellFormed new_index
unfolding new_index
empty_IsWellFormed = record { sorted = tt; counted = refl; words = tt }

adds :
    (update_index nothing_there store
      (λ path. some [])
      options
      (file ∷ [])
      new_index).0.number_index_entries
    ≡ 1
unfolding update_index update_loop update_file update_named added add_file add_blob options_of
    with_error skip_modified add_stage add_stage_body append_entry new_entry new_flags find_key
    replace_entries_check replace_loop remove_unmerged_stages stays_merged refresh_stat sort_by_path
    insert_sorted keep stage_bits bytes_eq new_index
adds = refl

update_index-IsWellFormed_example :
    IsWellFormed
      (update_index nothing_there store (λ path. some []) options (file ∷ []) new_index).0
update_index-IsWellFormed_example =
    update_index-IsWellFormed nothing_there store (λ path. some []) options (file ∷ []) new_index
      empty_IsWellFormed

abbrev info : Bytes
info = codes "100644 0101010101010101010101010101010101010101\ta"

abbrev entry : IndexEntry
entry = record {
  ctime = 0;
  ctimenano = 0;
  mtime = 0;
  dev = 0;
  ino = 0;
  mode = 0x81a4;
  uid = 0;
  gid = 0;
  fsize = 0;
  sha1 = 1 ∷ 1 ∷ 1 ∷ 1 ∷ 1 ∷ 1 ∷ 1 ∷ 1 ∷ 1 ∷ 1 ∷ 1 ∷ 1 ∷ 1 ∷ 1 ∷ 1 ∷ 1 ∷ 1 ∷ 1 ∷ 1 ∷ 1 ∷ [];
  flags = 1;
  extensions = some 0;
  path_name = codes "a";
}

abbrev read : Index
read = record { version = 2; number_index_entries = 1; objects = entry ∷ [] }

reads : update_index_from_reader nothing_there (info ∷ []) true ≡ some read
unfolding update_index_from_reader info_loop info_line info_pieces info_fields info_of_two
    sha1_from_string decode_hex digit_value mode_from_string add_info with_error add_stage
    add_stage_body append_entry new_entry new_flags find_key replace_entries_check replace_loop
    remove_unmerged_stages stays_merged refresh_stat sort_by_path insert_sorted keep stage_bits
    bytes_eq new_index split_by prepend trim_spaces trim_from space_ahead space_behind
    two_bytes_space three_bytes_space backwards is_space
reads = refl

update_index_from_reader-IsWellFormed_example : IsWellFormed read
update_index_from_reader-IsWellFormed_example =
    update_index_from_reader-IsWellFormed nothing_there (info ∷ []) true reads
