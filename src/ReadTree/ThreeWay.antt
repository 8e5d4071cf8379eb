-- ===== src/ReadTree/ThreeWay.antt =====
-- git/readtree.go: the loop of `ReadTreeThreeWay` that builds the new index from the maps of the
-- three trees. `now` is the time in every call of `AddStage`.
use dgit.Prelude.{
  ℕ, Bool, true, false, not, ◌&&◌, ◌||◌, List, [], ◌∷◌, ◌++◌, Bytes, if◌then◌else◌, bytes_eq,
  has_prefix, Option, none, some,
}
use dgit.Index.Entry.{IndexEntry, Index, new_index, sort_by_path}
use dgit.Index.Stages.{WorkTree, IndexError, Options, Addition, slash, add_stage}
use dgit.Index.Files.{remove_file}
use dgit.ReadTree.Maps.{IndexMap, get, has_dir, contains, same_path}

abbrev pub adding : Options
adding = record { add = true; replace = false }

abbrev pub replacing : Options
replacing = record { add = true; replace = true }

-- `&IndexEntry{PathName: path}`
unfoldable pub blank : Bytes → IndexEntry
blank path = record {
  ctime = 0;
  ctimenano = 0;
  mtime = 0;
  dev = 0;
  ino = 0;
  mode = 0;
  uid = 0;
  gid = 0;
  fsize = 0;
  sha1 = 0 ∷ 0 ∷ 0 ∷ 0 ∷ 0 ∷ 0 ∷ 0 ∷ 0 ∷ 0 ∷ 0 ∷ 0 ∷ 0 ∷ 0 ∷ 0 ∷ 0 ∷ 0 ∷ 0 ∷ 0 ∷ 0 ∷ 0 ∷ [];
  flags = 0;
  extensions = none;
  path_name = path;
}

unfoldable pub blanks : IndexMap → List IndexEntry
blanks [] = []
blanks (e ∷ m) = blank e.path_name ∷ blanks m

-- The paths of a sorted list, without repetitions.
unfoldable pub without_repeats : List IndexEntry → List Bytes
without_repeats [] = []
without_repeats (x ∷ []) = x.path_name ∷ []
without_repeats (x ∷ (y ∷ es)) =
    let rest = without_repeats (y ∷ es) in
    if bytes_eq y.path_name x.path_name then rest else x.path_name ∷ rest

unfoldable pub all_objects : IndexMap → IndexMap → IndexMap → List Bytes
all_objects base ours theirs =
    without_repeats (sort_by_path (blanks base ++ (blanks ours ++ blanks theirs)))

-- What is done for a path that is a file everywhere: one entry at stage 0, or all three stages.
pub data Resolution : Type 0 where
  collapse : IndexEntry → Resolution
  all_stages : Resolution
  nil_pointer : Resolution

unfoldable pub take_from : IndexMap → Bytes → Resolution
take_from m path = elim (get path m) [ none ↦ nil_pointer | some e ↦ collapse e ]

unfoldable pub resolution : IndexMap → IndexMap → IndexMap → Bytes → Resolution
resolution base ours theirs path =
    if same_path base ours path && same_path base theirs path
    then take_from ours path
    else if same_path ours theirs path && contains path ours
    then take_from ours path
    else if same_path base ours path && contains path theirs
    then take_from theirs path
    else if same_path base theirs path && contains path ours
    then take_from ours path
    else all_stages

pub record MergeOptions : Type 0 where
  pub merge : Bool
  pub reset : Bool

-- `idx` and `dirs`, or the end of the loop by an error or by a panic.
pub data Loop : Type 0 where
  going : Index → List Bytes → Loop
  stopped : IndexError → Loop
  panicked : Loop

unfoldable pub addition : ℕ → ℕ → Bytes → IndexEntry → Addition
addition now stage path p = record {
  path = path;
  mode = p.mode;
  sha1 = p.sha1;
  stage = stage;
  size = p.fsize;
  mtime = now;
}

module _ (c : WorkTree) (now : ℕ) where
  -- `if p, ok := m[path]; ok { idx.AddStage(…) }`
  unfoldable pub add_from : Options → ℕ → Bytes → IndexMap → Index → Index × Option IndexError
  add_from opts stage path m g = elim (get path m) [
    | none ↦ (g, none)
    | some p ↦ add_stage c opts (addition now stage path p) g
  ]

  -- The three stages, where the errors are not looked at.
  unfoldable pub add_three : IndexMap → IndexMap → IndexMap → Bytes → Index → Index
  add_three base ours theirs path g =
      (add_from adding 3 path theirs
        (add_from adding 2 path ours (add_from adding 1 path base g).0).0).0

  -- The three stages of a file below a directory in conflict.
  unfoldable pub add_three_checked :
      IndexMap → IndexMap → IndexMap → List Bytes → Bytes → Index → Loop
  add_three_checked base ours theirs dirs path g =
      let r1 = add_from adding 1 path base g in
      let r2 = add_from replacing 2 path ours r1.0 in
      let r3 = add_from adding 3 path theirs r2.0 in
      elim r1.1 [
        | some x ↦ stopped x
        | none ↦ elim r2.1 [
          | some x ↦ stopped x
          | none ↦ elim r3.1 [ some x ↦ stopped x | none ↦ going r3.0 dirs ]
        ]
      ]

  unfoldable pub resolve : IndexMap → IndexMap → IndexMap → List Bytes → Bytes → Index → Loop
  resolve base ours theirs dirs path g = elim (resolution base ours theirs path) [
    | nil_pointer ↦ panicked
    | all_stages ↦ going (add_three base ours theirs path (remove_file path g)) dirs
    | collapse e ↦
        let r = add_stage c adding (addition now 0 path e) g in
        elim r.1 [ some x ↦ panicked | none ↦ going r.0 dirs ]
  ]

  unfoldable pub below : List Bytes → Bytes → Bool
  below [] path = false
  below (d ∷ dirs) path = has_prefix path (slash d) || below dirs path

  unfoldable pub three_way_step :
      MergeOptions → IndexMap → IndexMap → IndexMap → Bytes → Index → List Bytes → Loop
  three_way_step opt base ours theirs path g dirs =
      if has_dir path base || has_dir path ours || has_dir path theirs
      then (if not opt.merge && not opt.reset
          then going g dirs
          else going (add_three base ours theirs path g) (dirs ++ (path ∷ [])))
      else if below dirs path
      then add_three_checked base ours theirs dirs path g
      else resolve base ours theirs dirs path g

  unfoldable pub three_way_loop :
      MergeOptions → IndexMap → IndexMap → IndexMap → List Bytes → Index → List Bytes → Loop
  three_way_loop opt base ours theirs [] g dirs = going g dirs
  three_way_loop opt base ours theirs (path ∷ paths) g dirs =
      elim (three_way_step opt base ours theirs path g dirs) [
        | going g' dirs' ↦ three_way_loop opt base ours theirs paths g' dirs'
        | stopped x ↦ stopped x
        | panicked ↦ panicked
      ]

  -- From an empty index, over all paths.
  unfoldable pub three_way : MergeOptions → IndexMap → IndexMap → IndexMap → Loop
  three_way opt base ours theirs =
      three_way_loop opt base ours theirs (all_objects base ours theirs) new_index []
