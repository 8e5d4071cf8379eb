-- ===== src/Index/Stages.antt =====
-- git/index.go: `AddStage`, `RemoveUnmergedStages` and what they call. The file system enters as
-- `WorkTree`.
use dgit.Prelude.{
  ℕ, ◌+◌, ◌*◌, ◌%◌, ◌^◌, Bool, true, false, not, ◌&&◌, List, [], ◌∷◌, ◌++◌, Bytes, leb, ◌==◌,
  if◌then◌else◌, length, bit_and, bit_or, bytes_eq, has_prefix, Option, none, some,
}
use dgit.Index.Entry.{IndexEntry, Index, stage, sort_by_path, keep}

-- The loop of `RemoveUnmergedStages`.
unfoldable pub stays_merged : Bytes → IndexEntry → Bool
stays_merged path e =
    if bytes_eq e.path_name path && stage e == 0
    then true
    else if bytes_eq e.path_name path && not (stage e == 0)
    then false
    else true

unfoldable pub remove_unmerged_stages : Bytes → Index → Index
remove_unmerged_stages path g =
    let newobjects = keep (stays_merged path) g.objects in
    record g { objects = newobjects; number_index_entries = length newobjects % 2 ^ 32 }

-- What the work tree says of a path: `Lstat`, `MTime`, `CTime` and `INode`. `none` is an error of
-- `FilePath`, `Lstat` or `MTime`.
pub record Stat : Type 0 where
  pub mtime : ℕ
  pub fsize : ℕ
  pub ctime : ℕ
  pub ctimenano : ℕ
  pub ino : ℕ

pub record WorkTree : Type 0 where
  pub exists : Bytes → Bool
  pub stat : Bytes → Option Stat

-- `RefreshStat`; `none` is its error.
unfoldable pub refresh_stat : WorkTree → IndexEntry → Option IndexEntry
refresh_stat c e = elim (c.stat e.path_name) [
  | none ↦ none
  | some s ↦ some (record e {
    mtime = s.mtime;
    fsize = s.fsize % 2 ^ 32;
    ctime = s.ctime;
    ctimenano = s.ctimenano;
    ino = s.ino;
  })
]

pub data IndexError : Type 0 where
  existing_under : Bytes → IndexError
  parent_above : Bytes → IndexError
  not_found : IndexError
  stat_failed : IndexError
  unmerged : IndexError

abbrev pub slash : Bytes → Bytes
slash path = path ++ (b'/' ∷ [])

-- The loop of `replaceEntriesCheck`: the objects that stay, or the error of the first conflict.
pub data Checked : Type 0 where
  stay : List IndexEntry → Checked
  conflict : IndexError → Checked

unfoldable pub replace_loop : Bytes → Bool → List IndexEntry → Checked
replace_loop path replace [] = stay []
replace_loop path replace (e ∷ es) =
    let rest = replace_loop path replace es in
    if has_prefix e.path_name (slash path)
    then (if replace then rest else conflict (existing_under e.path_name))
    else if has_prefix path (slash e.path_name)
    then (if replace then rest else conflict (parent_above e.path_name))
    else elim rest [ stay kept ↦ stay (e ∷ kept) | conflict x ↦ conflict x ]

unfoldable pub replace_entries_check : Bytes → ℕ → Bool → List IndexEntry → Checked
replace_entries_check path s replace objects =
    if not (s == 0) then stay objects else replace_loop path replace objects

unfoldable pub has_key : Bytes → ℕ → IndexEntry → Bool
has_key path s e = bytes_eq e.path_name path && stage e == s

-- The first entry with the path and the stage.
unfoldable pub find_key : Bytes → ℕ → List IndexEntry → Option IndexEntry
find_key path s [] = none
find_key path s (e ∷ es) = if has_key path s e then some e else find_key path s es

-- A write through the pointer to that entry.
unfoldable pub write_key : Bytes → ℕ → IndexEntry → List IndexEntry → List IndexEntry
write_key path s new [] = []
write_key path s new (e ∷ es) = if has_key path s e then new ∷ es else e ∷ write_key path s new es

-- `uint16(stage) << 12`, with the length of the name in the low twelve bits.
unfoldable pub new_flags : ℕ → Bytes → ℕ
new_flags s path =
    bit_or (s * 2 ^ 12 % 2 ^ 16)
      (if leb 0xfff (length path) then 0xfff else bit_and (length path % 2 ^ 16) 0xfff)

pub record Options : Type 0 where
  pub add : Bool
  pub replace : Bool

-- The arguments of `AddStage`.
pub record Addition : Type 0 where
  pub path : Bytes
  pub mode : ℕ
  pub sha1 : Bytes
  pub stage : ℕ
  pub size : ℕ
  pub mtime : ℕ

unfoldable pub new_entry : Addition → IndexEntry
new_entry a = record {
  ctime = 0;
  ctimenano = 0;
  mtime = a.mtime;
  dev = 0;
  ino = 0;
  mode = a.mode;
  uid = 0;
  gid = 0;
  fsize = a.size;
  sha1 = a.sha1;
  flags = new_flags a.stage a.path;
  extensions = some 0;
  path_name = a.path;
}

-- The part of the loop of `AddStage` behind a found `entry` and a passed check.
unfoldable pub overwrite : WorkTree → Addition → Index → IndexEntry → Index × Option IndexError
overwrite c a g entry =
    let put = λ (e : IndexEntry). record g {
      objects =
          write_key a.path a.stage (record e { sha1 = a.sha1; mtime = a.mtime; fsize = a.size })
            g.objects;
    } in
    if c.exists a.path && a.stage == 0
    then elim (refresh_stat c entry) [ none ↦ (g, some stat_failed) | some e ↦ (put e, none) ]
    else (put entry, none)

-- The part behind the loop, where there is no such entry.
unfoldable pub append_entry : WorkTree → Addition → Index → Index × Option IndexError
append_entry c a g =
    let e : IndexEntry = elim (refresh_stat c (new_entry a)) [ none ↦ new_entry a | some e ↦ e ] in
    (
      record g {
        objects = sort_by_path (g.objects ++ (e ∷ []));
        number_index_entries = (g.number_index_entries + 1) % 2 ^ 32;
      },
      none,
    )

unfoldable pub add_stage_body : WorkTree → Options → Addition → Index → Index × Option IndexError
add_stage_body c opts a g = elim (find_key a.path a.stage g.objects) [
  | some entry ↦ elim (replace_entries_check a.path a.stage opts.replace g.objects) [
    | conflict x ↦ (g, some x)
    | stay kept ↦ overwrite c a (record g { objects = kept }) entry
  ]
  | none ↦
      if not opts.add
      then (g, some not_found)
      else elim (replace_entries_check a.path a.stage opts.replace g.objects) [
        | conflict x ↦ (g, some x)
        | stay kept ↦ append_entry c a (record g { objects = kept })
      ]
]

-- `AddStage`: for stage 0 the removal of the other stages is deferred to its end.
unfoldable pub add_stage : WorkTree → Options → Addition → Index → Index × Option IndexError
add_stage c opts a g =
    let (g', err) = add_stage_body c opts a g in
    (if a.stage == 0 then remove_unmerged_stages a.path g' else g', err)
