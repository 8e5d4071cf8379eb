-- ===== src/Samples/ReadTree.antt =====
-- A fast-forward that changes one file, keeps one that is new in the index, and adds one.
use dgit.Prelude.{
  ◌⊎◌, ◌≡◌, inl, inr, refl, List, [], ◌∷◌, Bytes, codes, true, false, none, some, bytes_eq,
  has_prefix,
}
use dgit.Index.Entry.{IndexEntry, Index, new_index}
use dgit.ReadTree.Maps.{IndexMap, get, has_dir, contains, same_path, IsMap, Files, is_clean}
use dgit.ReadTree.FastForward.{
  not_uptodate, run, concat, decide_index, decide_missing, fast_forward_objects, fast_forward,
}
use dgit.ReadTree.ThreeWay.{
  MergeOptions, collapse, all_stages, take_from, resolution, going, three_way,
}
use dgit.Index.WellFormed.{IsWellFormed}
use dgit.Index.Placed.{OfPaths}
use dgit.ReadTree.AllPaths.{in_a_tree}
use dgit.ReadTree.Completes.{three_way-IsWellFormed}
use dgit.ReadTree.Unharmed.{Unharmed, check_loop-Unharmed}
use dgit.ReadTree.Check.{has_id, check_ours, check_entry, check_loop}
use dgit.Index.Stages.{WorkTree}
use dgit.ReadTree.Table.{result, fail, outcome, Differing}
use dgit.ReadTree.Refines.{fast_forward-outcome, fast_forward-fail}

abbrev blob : Bytes → Bytes → IndexEntry
blob path id = record {
  ctime = 0;
  ctimenano = 0;
  mtime = 0;
  dev = 0;
  ino = 0;
  mode = 0x81a4;
  uid = 0;
  gid = 0;
  fsize = 3;
  sha1 = id;
  flags = 1;
  extensions = none;
  path_name = path;
}

abbrev index : IndexMap
index = blob (codes "a") (codes "1") ∷ blob (codes "n") (codes "5") ∷ []

abbrev parent : IndexMap
parent = blob (codes "a") (codes "1") ∷ []

abbrev dst : IndexMap
dst = blob (codes "a") (codes "2") ∷ blob (codes "c") (codes "3") ∷ []

-- Every file has the content of the index, or another one.
abbrev tidy : Files
tidy = record { exists = λ path. true; hash_file = λ path. some (codes "1") }

abbrev edited : Files
edited = record { exists = λ path. true; hash_file = λ path. some (codes "9") }

abbrev forwarded : Index
forwarded = record {
  version = 2;
  number_index_entries = 3;
  objects =
      blob (codes "a") (codes "2")
      ∷ blob (codes "n") (codes "5")
      ∷ blob (codes "c") (codes "3")
      ∷ [];
}

index-IsMap : IsMap index
unfolding get bytes_eq
index-IsMap = (refl, (refl, tt))

dst-IsMap : IsMap dst
unfolding get bytes_eq
dst-IsMap = (refl, (refl, tt))

forwards : fast_forward tidy true index parent dst ≡ inl forwarded
unfolding fast_forward fast_forward_objects run concat decide_index decide_missing get is_clean
    bytes_eq new_index
forwards = refl

refuses_edit : fast_forward edited true index parent dst ≡ inr (not_uptodate (codes "a"))
unfolding fast_forward fast_forward_objects run concat decide_index decide_missing get is_clean
    bytes_eq new_index
refuses_edit = refl

fast_forward-outcome_example :
    (result (get (codes "a") forwarded.objects) ≡ outcome tidy true index parent dst (codes "a"))
    ⊎ Differing true index parent dst (codes "a") (get (codes "a") forwarded.objects)
fast_forward-outcome_example =
    fast_forward-outcome tidy true index parent dst index-IsMap dst-IsMap forwards (codes "a")

fast_forward-fail_example : (path : Bytes) × (outcome edited true index parent dst path ≡ fail)
fast_forward-fail_example =
    fast_forward-fail edited true index parent dst index-IsMap dst-IsMap refuses_edit

-- Their side changed `a`.
resolution_theirs :
    resolution parent index dst (codes "a") ≡ collapse (blob (codes "a") (codes "2"))
unfolding resolution same_path get contains take_from bytes_eq
resolution_theirs = refl

resolution_both : resolution parent (blob (codes "a") (codes "3") ∷ []) dst (codes "a") ≡ all_stages
unfolding resolution same_path get contains bytes_eq
resolution_both = refl

no_dir_dst : has_dir (codes "a") dst ≡ false
unfolding has_dir has_prefix
no_dir_dst = refl

abbrev tree : WorkTree
tree = record {
  exists = λ path. true;
  stat = λ path. some (record { mtime = 1; fsize = 3; ctime = 1; ctimenano = 1; ino = 1 });
}

abbrev merging : MergeOptions
merging = record { merge = true; reset = false }

three_way-IsWellFormed_example :
    (g : Index) × (dirs : List Bytes) × (three_way tree 7 merging parent index dst ≡ going g dirs)
    × IsWellFormed g
    × OfPaths (λ p. in_a_tree parent index dst p ≡ true) g.objects
three_way-IsWellFormed_example =
    three_way-IsWellFormed tree 7 parent index dst
      (λ p e. (record { mtime = 1; fsize = 3; ctime = 1; ctimenano = 1; ino = 1 }, refl)) merging

parent_passes : check_loop tidy parent parent parent dst parent ≡ none
unfolding check_loop check_entry check_ours has_id contains same_path get is_clean bytes_eq
parent_passes = refl

no_dir_parent : has_dir (codes "a") parent ≡ false
unfolding has_dir has_prefix
no_dir_parent = refl

one_in_parent : get (codes "a") parent ≡ some (blob (codes "a") (codes "1"))
unfolding get bytes_eq
one_in_parent = refl

check_loop-Unharmed_example :
    Unharmed
      (blob (codes "a") (codes "1"))
      (λ o. is_clean tidy (codes "a") o.sha1)
      (get (codes "a") parent)
      (resolution parent parent dst (codes "a"))
check_loop-Unharmed_example =
    check_loop-Unharmed tidy parent parent parent dst (blob (codes "a") (codes "1")) parent_passes
      one_in_parent no_dir_parent no_dir_parent no_dir_dst
