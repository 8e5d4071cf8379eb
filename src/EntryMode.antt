-- ===== src/EntryMode.antt =====
-- git/entrymode.go: the modes of entries of a tree.
use dgit.Prelude.{
  ℕ, ◌≡◌, ◌≢◌, Bool, true, false, ◌==◌, ◌||◌, Bytes, codes, if◌then◌else◌, bytes_eq, Option, none,
  some,
}

abbrev pub mode_blob : ℕ
mode_blob = 0x81a4

abbrev pub mode_exec : ℕ
mode_exec = 0x81ed

abbrev pub mode_symlink : ℕ
mode_symlink = 0xa000

abbrev pub mode_commit : ℕ
mode_commit = 0xe000

abbrev pub mode_tree : ℕ
mode_tree = 0x4000

abbrev pub mode_git9_tree : ℕ
mode_git9_tree = 0x41ed

-- `TreeType`; `none` is its panic.
unfoldable pub tree_type : ℕ → Option Bytes
tree_type e =
    if e == mode_blob || e == mode_exec || e == mode_symlink
    then some (codes "blob")
    else if e == mode_commit
    then some (codes "commit")
    else if e == mode_tree || e == mode_git9_tree
    then some (codes "tree")
    else none

-- The mode, and whether there is no error.
unfoldable pub mode_from_string : Bytes → ℕ × Bool
mode_from_string s =
    if bytes_eq s (codes "100644")
    then (mode_blob, true)
    else if bytes_eq s (codes "100755")
    then (mode_exec, true)
    else if bytes_eq s (codes "120000")
    then (mode_symlink, true)
    else if bytes_eq s (codes "160000")
    then (mode_commit, true)
    else if bytes_eq s (codes "040755")
    then (mode_git9_tree, false)
    else if bytes_eq s (codes "040000")
    then (mode_tree, true)
    else (0, false)

typed :
    (b : Bool) (x y : ℕ × Bool)
    → (x.1 ≡ true → tree_type x.0 ≢ none)
    → (y.1 ≡ true → tree_type y.0 ≢ none)
    → (if b then x else y).1 ≡ true
    → tree_type (if b then x else y).0 ≢ none
typed true x y p q = p
typed false x y p q = q

-- A mode that is read without an error has a type: `TreeType` does not panic on it.
pub tree_type-mode_from_string :
    (s : Bytes) → (mode_from_string s).1 ≡ true → tree_type (mode_from_string s).0 ≢ none
unfolding mode_from_string tree_type
tree_type-mode_from_string s =
    typed _ (mode_blob, true) _ (λ h e. cc e)
      (typed _ (mode_exec, true) _ (λ h e. cc e)
        (typed _ (mode_symlink, true) _ (λ h e. cc e)
          (typed _ (mode_commit, true) _ (λ h e. cc e)
            (typed _ (mode_git9_tree, false) _ (λ h. cc h)
              (typed _ (mode_tree, true) (0, false) (λ h e. cc e) (λ h. cc h))))))
