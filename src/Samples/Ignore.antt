-- ===== src/Samples/Ignore.antt =====
-- A pattern and a path below the directory it names; segments match by equality.
use dgit.Prelude.{
  ◌≡◌, refl, true, false, [], Bytes, codes, bytes_eq, has_prefix, drop, length, Option, some,
}
use dgit.Ignore.{
  split_slashes, prepend_byte, is_empty, IgnorePattern, glob_loop, glob_end, anchored, matches_glob,
  positive, matches,
}
use dgit.Ignore.Globs.{Ignored, matches-Ignored}

-- The path behind the scope, for a scope that is the root.
relative_to : Bytes → Bytes → Option Bytes
relative_to scope path = some (drop (length scope) path)

abbrev build : IgnorePattern
build = record { pattern = codes "build"; scope = [] }

ignored_build : matches bytes_eq relative_to build (codes "src/build/out") false ≡ some true
unfolding relative_to matches positive matches_glob anchored glob_end glob_loop is_empty
    split_slashes prepend_byte has_prefix bytes_eq
ignored_build = refl

-- The loop takes the first `a` of the path for the one of the pattern, and does not come back.
greedy : matches_glob bytes_eq relative_to (codes "/a/a/b") false (codes "a/b") ≡ false
unfolding matches_glob anchored glob_end glob_loop is_empty split_slashes prepend_byte has_prefix
    bytes_eq
greedy = refl

-- The code's leniency: an empty segment inside matches whatever follows.
empty_inside : matches_glob bytes_eq relative_to (codes "/a/c") false (codes "/a//b") ≡ true
unfolding matches_glob anchored glob_end glob_loop is_empty split_slashes prepend_byte has_prefix
    bytes_eq
empty_inside = refl

matches-Ignored_example : Ignored bytes_eq relative_to false build (codes "src/build/out")
unfolding positive anchored split_slashes prepend_byte has_prefix bytes_eq
matches-Ignored_example =
    matches-Ignored bytes_eq relative_to false build (codes "src/build/out") refl (refl, tt) refl
      ignored_build
