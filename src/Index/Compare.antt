-- ===== src/Index/Compare.antt =====
-- git/index.go: `CompareStat`, against `RefreshStat`.
use dgit.Prelude.{
  ℕ, ◌%◌, ◌^◌, ◌<◌, ◌≡◌, true, false, not, ◌&&◌, ◌==◌, if◌then◌else◌, Option, none, some, some_inj,
  subst, arith,
}
use dgit.Index.Entry.{IndexEntry}
use dgit.Index.Stages.{Stat, WorkTree, refresh_stat}

-- The length of what a symbolic link says, if the file is one and can be read.
pub data Link : Type 0 where
  no_link : Link
  unreadable : Link
  points : ℕ → Link

pub data StatError : Type 0 where
  no_stat : StatError
  mtime_differs : StatError
  size_differs : StatError
  ctime_differs : StatError
  inode_differs : StatError

unfoldable pub size_error : Link → ℕ → ℕ → Option StatError
size_error no_link fsize size = if not (fsize == size % 2 ^ 32) then some size_differs else none
size_error unreadable fsize size = some no_stat
size_error (points n) fsize size = if not (fsize == n) then some size_differs else none

-- `none` says that all of them are equal.
unfoldable pub compare_stat : Option Stat → Link → IndexEntry → Option StatError
compare_stat none link e = some no_stat
compare_stat (some s) link e =
    if not (e.mtime == s.mtime)
    then some mtime_differs
    else elim (size_error link e.fsize s.fsize) [
      | some x ↦ some x
      | none ↦
          if not (e.ctime == s.ctime && e.ctimenano == s.ctimenano)
          then some ctime_differs
          else if not (e.ino == s.ino)
          then some inode_differs
          else none
    ]

-- The size of a link is the length of what it says, as the operating system has it.
abbrev pub LinkFits : Link → ℕ → Type 0
LinkFits no_link size = Unit {0}
LinkFits unreadable size = true ≡ false
LinkFits (points n) size = (size ≡ n) × (n < 2 ^ 32)

fresh_size :
    (link : Link) (size : ℕ) → LinkFits link size → size_error link (size % 2 ^ 32) size ≡ none
unfolding size_error
fresh_size no_link size h = ground arith
fresh_size unreadable size h = cc h
fresh_size (points n) size (h, k) = ground arith

-- What `RefreshStat` wrote compares as equal, as long as the file stays as it is: for a file that is
-- no symbolic link, and for one whose size is the length of what it says.
pub compare_stat-refresh_stat :
    (c : WorkTree) (e : IndexEntry) (link : Link) {s : Stat} {new : IndexEntry}
    → c.stat e.path_name ≡ some s
    → LinkFits link s.fsize
    → refresh_stat c e ≡ some new
    → compare_stat (c.stat e.path_name) link new ≡ none
unfolding compare_stat refresh_stat
compare_stat-refresh_stat c e link {s} {new} present fits h = rw present (
    subst (λ (z : IndexEntry). compare_stat (some s) link z ≡ none)
      (some_inj (rw (present, refresh_stat) at h)) (ground (arith, fresh_size link s.fsize fits)))
