-- ===== src/Index/Removing.antt =====
-- The operations that take entries out, and the skip-worktree mark, keep the invariant.
use dgit.Prelude.{
  ◌+◌, ◌≡◌, refl, true, List, [], ◌∷◌, Bytes, bytes_eq, Bool-cases, inl, inr, length, arith,
}
use dgit.Index.Entry.{IndexEntry, Index}
use dgit.Index.Stages.{remove_unmerged_stages, stays_merged}
use dgit.Index.Files.{remove_first, has_path, remove_file}
use dgit.Index.Sorted.{All-keep, All-remove_first, keep-IsSorted, remove_first-IsSorted}
use dgit.Index.WellFormed.{IsWellFormed, FlagsFit}

-- Removing the unmerged stages of a path keeps the invariant of the index.
pub remove_unmerged_stages-IsWellFormed :
    (path : Bytes) (g : Index) → IsWellFormed g → IsWellFormed (remove_unmerged_stages path g)
unfolding remove_unmerged_stages
remove_unmerged_stages-IsWellFormed path g w = record {
  sorted = keep-IsSorted (stays_merged path) g.objects w.sorted;
  counted = refl;
  words = All-keep FlagsFit (stays_merged path) g.objects w.words;
}

length-remove_first :
    (file : Bytes) (xs : List IndexEntry)
    → has_path file xs ≡ true
    → length xs ≡ length (remove_first file xs) + 1
unfolding has_path remove_first
length-remove_first file [] h = cc
length-remove_first file (x ∷ xs) h = elim (Bool-cases (bytes_eq x.path_name file)) [
  | inl e ↦ rw (e, remove_first) (omega arith)
  | inr e ↦
      rw (e, remove_first) (omega (arith, length-remove_first file xs (rw (e, has_path) at h)))
]

-- Removing a file keeps the invariant of the index: the order of the objects, their count in
-- the header, and flags of 16 bits.
pub remove_file-IsWellFormed :
    (file : Bytes) (g : Index) → IsWellFormed g → IsWellFormed (remove_file file g)
unfolding remove_file
remove_file-IsWellFormed file g w = elim (Bool-cases (has_path file g.objects)) [
  | inl e ↦
      rw (e, remove_file)
        (record {
          sorted = remove_first-IsSorted file g.objects w.sorted;
          counted = omega (arith, w.counted, length-remove_first file g.objects e);
          words = All-remove_first FlagsFit file g.objects w.words;
        })
  | inr e ↦ rw (e, remove_file) w
]
