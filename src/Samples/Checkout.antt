-- ===== src/Samples/Checkout.antt =====
-- An update of the work tree over a file with local changes, and paths that are refused.
use dgit.Prelude.{
  ◌≡◌, refl, true, false, ◌||◌, [], ◌∷◌, ◌++◌, Bytes, codes, bytes_eq, has_prefix, none, some,
  arith,
}
use dgit.Index.Entry.{IndexEntry, Index, stage_bits, skip_worktree, extended_flag}
use dgit.Index.Stages.{refresh_stat}
use dgit.Ignore.{split_slashes}
use dgit.ReadTree.Maps.{IndexMap, get, get_map, put, put_all, is_clean}
use dgit.Config.{is_space}
use dgit.Config.Spaces.{
  two_bytes_space, three_bytes_space, space_ahead, space_behind, trim_from, backwards, trim_spaces,
}
use dgit.ReadTree.Paths.{
  PathRules, without_joiners, has_suffix, has_infix, spelled, matches_ntfs, folded, has_piece,
  disallow, is_invalid, has_segment, is_invalid-segments,
}
use dgit.ReadTree.WorkTree.{
  FileTree, file_at, is_dir, is_file, exists, files_of, remove, remove_all, remove_below, parent,
  has_file_above, clear_parent, checkout_file,
}
use dgit.ReadTree.Update.{
  ReadTreeOptions, Surroundings, check_sparse_matches, no_sparse, apply_sparse, some_invalid,
  verify, verify_loop, verify_entry, verify_tracked,
}
use dgit.ReadTree.UpdateTree.{
  then_do, remove_killed, checkout_entries, checkout_files, checkout_index_uncommitted,
  delete_entry, delete_loop, refresh_entry, skip_file, refresh_turn, refresh_loop, reset_removals,
  change_files, refresh_and_reset, update_files, check_and_update, check_merge_and_update,
}
use dgit.ReadTree.LocalChanges.{file_at-check_merge_and_update}

abbrev blob : Bytes → Bytes → IndexEntry
blob path id = record {
  ctime = 0;
  ctimenano = 0;
  mtime = 0;
  dev = 0;
  ino = 0;
  mode = 0x81a4;
  uid = 0;
  gid = 0;
  fsize = 3;
  sha1 = id;
  flags = 1;
  extensions = none;
  path_name = path;
}

abbrev plain_rules : PathRules
plain_rules = record {
  protect_hfs = false;
  protect_ntfs = false;
  matches_short_name = λ path. false;
  matches_dot_git = λ path. false;
  to_lower = λ path. path;
}

abbrev surroundings : Surroundings
surroundings = record {
  would_lose = λ path. bytes_eq path (codes "d");
  untracked = λ path. false;
  killed = λ files. codes "k" ∷ [];
  has_object = λ id. true;
  stats = λ w. record {
    exists = λ path. true;
    stat = λ path. some (record { mtime = 1; fsize = 3; ctime = 1; ctimenano = 1; ino = 1 });
  };
  rules = plain_rules;
  sparse_patterns = none;
  pattern_matches = λ p path. false;
}

abbrev options : ReadTreeOptions
options = record {
  merge = true;
  reset = false;
  update = true;
  dry_run = false;
  no_sparse_checkout = true;
  prefix = [];
  exclude_per_directory = [];
}

abbrev old : IndexMap
old = blob (codes "d/a") (codes "1") ∷ (blob (codes "b") (codes "2") ∷ [])

-- The new index has another `b`, and a new `c`.
abbrev new : Index
new = record {
  version = 2;
  number_index_entries = 3;
  objects =
      blob (codes "d/a") (codes "1")
      ∷ (blob (codes "b") (codes "3") ∷ (blob (codes "c") (codes "4") ∷ []));
}

-- `d/a` is changed in the work tree; `b` is as in the old index.
abbrev tree : FileTree
tree = (codes "d/a", codes "9") ∷ ((codes "b", codes "2") ∷ [])

updates :
    (check_merge_and_update surroundings options old [] new tree).tree
    ≡ (codes "c", codes "4") ∷ ((codes "b", codes "3") ∷ ((codes "d/a", codes "9") ∷ []))
unfolding check_merge_and_update apply_sparse no_sparse check_and_update some_invalid is_invalid
    disallow spelled matches_ntfs folded has_piece has_suffix has_infix bytes_eq has_prefix verify
    verify_loop verify_entry verify_tracked stage_bits skip_worktree extended_flag exists is_file
    is_dir file_at get is_clean files_of update_files change_files checkout_index_uncommitted
    remove_killed checkout_files checkout_entries checkout_file remove remove_below parent
    clear_parent has_file_above then_do delete_loop delete_entry get_map put_all put remove_all
    refresh_and_reset refresh_loop refresh_turn refresh_entry refresh_stat skip_file reset_removals
updates = refl

file_there : file_at (codes "d/a") tree ≡ some (codes "9")
unfolding file_at bytes_eq
file_there = refl

tracked : get (codes "d/a") old ≡ some (blob (codes "d/a") (codes "1"))
unfolding get bytes_eq
tracked = refl

taken : check_sparse_matches surroundings options (codes "d/a") ≡ true
unfolding check_sparse_matches
taken = refl

-- The one directory above the file is listed.
above :
    (t : Bytes) → has_prefix (codes "d/a") (t ++ (b'/' ∷ [])) ≡ true → bytes_eq t (codes "d") ≡ true
unfolding has_prefix bytes_eq
above [] h = ground arith
above (c ∷ []) h = ground arith
above (c ∷ (d ∷ [])) h = ground arith
above (c ∷ (d ∷ (e ∷ []))) h = ground arith
above (c ∷ (d ∷ (e ∷ (f ∷ t)))) h = ground arith

file_at-check_merge_and_update_example :
    file_at (codes "d/a") (check_merge_and_update surroundings options old [] new tree).tree
    ≡ some (codes "9")
unfolding bytes_eq has_prefix
file_at-check_merge_and_update_example =
    file_at-check_merge_and_update surroundings options (codes "d/a") (codes "9") old [] new tree
      refl refl taken (λ files. (record { other = refl; not_above = refl; not_below = refl }, tt))
      above file_there tracked (λ y. refl, (λ y. refl, tt))
      (λ y. refl, (λ y. refl, (λ y. refl, tt))) (refl, (refl, (refl, tt)))

refused : is_invalid plain_rules (codes "a/.git/b") ≡ true
unfolding is_invalid disallow spelled matches_ntfs folded has_piece has_suffix has_infix bytes_eq
    has_prefix
refused = refl

is_invalid-segments_example : is_invalid plain_rules (codes "a/.git/b") ≡ (
    matches_ntfs plain_rules (spelled plain_rules (codes "a/.git/b"))
    || (has_segment
          (codes ".")
          (split_slashes (folded plain_rules (spelled plain_rules (codes "a/.git/b"))))
        || has_segment
            (codes "..")
            (split_slashes (folded plain_rules (spelled plain_rules (codes "a/.git/b"))))
        || has_segment
            (codes ".git")
            (split_slashes (folded plain_rules (spelled plain_rules (codes "a/.git/b"))))))
is_invalid-segments_example = is_invalid-segments plain_rules (codes "a/.git/b")

-- A no-break space behind the name is taken off.
refused_padded :
    is_invalid (record plain_rules { protect_hfs = true }) (codes ".git" ++ (0xc2 ∷ (0xa0 ∷ [])))
    ≡ true
unfolding is_invalid disallow spelled matches_ntfs folded has_piece has_suffix has_infix bytes_eq
    has_prefix without_joiners trim_spaces trim_from space_ahead space_behind backwards is_space
    two_bytes_space three_bytes_space
refused_padded = refl
