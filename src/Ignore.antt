-- ===== src/Ignore.antt =====
-- git/ignore.go: whether an ignore pattern matches a path.
pub mod Globs
use dgit.Prelude.{
  ℕ, Bool, true, false, not, ◌&&◌, List, [], ◌∷◌, ◌++◌, Bytes, codes, bytes_eq, has_prefix, ltb,
  ◌==◌, if◌then◌else◌, length, drop, Option, none, some,
}

-- `strings.Split(s, "/")`
unfoldable pub prepend_byte : ℕ → List Bytes → List Bytes
prepend_byte c [] = (c ∷ []) ∷ []
prepend_byte c (p ∷ pieces) = (c ∷ p) ∷ pieces

unfoldable pub split_slashes : Bytes → List Bytes
split_slashes [] = [] ∷ []
split_slashes (c ∷ s) =
    let pieces : List Bytes = split_slashes s in
    if c == b'/' then [] ∷ pieces else prepend_byte c pieces

unfoldable pub is_empty {ℓ} : {A : Type ℓ} → List A → Bool
is_empty [] = true
is_empty (x ∷ xs) = false

-- The pattern and its scope.
pub record IgnorePattern : Type 0 where
  pub pattern : Bytes
  pub scope : Bytes

unfoldable pub negates : IgnorePattern → Bool
negates p = ltb 1 (length p.pattern) && has_prefix p.pattern (b'!' ∷ [])

-- `filepath.Match` of the Go library, false where it has an error, and `filepath.Rel`.
module _ (match : Bytes → Bytes → Bool) (rel : Bytes → Bytes → Option Bytes) where
  -- The loop over the segments of the path, up to what is left of path and pattern.
  unfoldable pub glob_loop : List Bytes → List Bytes → List Bytes × List Bytes
  glob_loop [] ps = ([], ps)
  glob_loop (x ∷ xs) [] = (x ∷ xs, [])
  glob_loop (x ∷ xs) (p ∷ []) = elim (match p x) [
    | true ↦ glob_loop xs []
    | false ↦ (x ∷ xs, p ∷ [])
  ]
  glob_loop (x ∷ xs) (p ∷ (q ∷ qs)) = elim (bytes_eq p (codes "**")) [
    | true ↦ elim (match q x) [ true ↦ glob_loop xs qs | false ↦ glob_loop xs (p ∷ (q ∷ qs)) ]
    | false ↦ elim (match p x) [ true ↦ glob_loop xs (q ∷ qs) | false ↦ (x ∷ xs, p ∷ (q ∷ qs)) ]
  ]

  unfoldable pub glob_end : Bool → List Bytes × List Bytes → Bool
  glob_end is_dir (xs, []) = true
  glob_end is_dir (xs, p ∷ ps) =
      if bytes_eq p [] && not (is_empty xs) then true else bytes_eq p [] && is_dir

  unfoldable pub anchored : Bytes → Bytes
  anchored pattern =
      if not (has_prefix pattern (codes "/")) then codes "/**/" ++ pattern else pattern

  unfoldable pub matches_glob : Bytes → Bool → Bytes → Bool
  matches_glob path is_dir pattern =
      glob_end is_dir (glob_loop (split_slashes path) (split_slashes (anchored pattern)))

  -- `pattern = pattern[1:]` for a negated pattern; `none` is the panic on an empty one.
  unfoldable pub positive : Bytes → Option Bytes
  positive [] = none
  positive (c ∷ s) = some (if c == b'!' then s else c ∷ s)

  unfoldable pub matches : IgnorePattern → Bytes → Bool → Option Bool
  matches p ignore_path is_dir =
      if not (has_prefix ignore_path p.scope)
      then some false
      else elim (rel (b'/' ∷ p.scope) (b'/' ∷ ignore_path)) [
        | none ↦ some false
        | some r ↦ if has_prefix r (codes ".") then some false else elim (positive p.pattern) [
          | none ↦ none
          | some pattern ↦ some (matches_glob (b'/' ∷ r) is_dir pattern)
        ]
      ]
