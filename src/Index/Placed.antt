-- ===== src/Index/Placed.antt =====
-- git/index.go: the paths that `AddStage` and `RemoveFile` leave in an index, and when `AddStage`
-- succeeds at stage 0.
use dgit.Prelude.{
  ◌≡◌, inl, inr, refl, sym, ◌∙◌, subst, Bool, true, false, ◌&&◌, ◌==◌, ==_iff, List, [], ◌∷◌, ◌++◌,
  Bytes, ℕ, has_prefix, Bool-cases, Option-cases, none, some, All, All-append,
}
use dgit.Index.Entry.{IndexEntry, Index, sort_by_path}
use dgit.Index.Stages.{
  WorkTree, Stat, Options, Addition, slash, stay, replace_loop, replace_entries_check, find_key,
  has_key, write_key, refresh_stat, new_entry, overwrite, append_entry, add_stage_body, add_stage,
  remove_unmerged_stages, stays_merged,
}
use dgit.Index.Files.{remove_file, has_path}
use dgit.Index.Sorted.{All-keep, All-sort_by_path, All-remove_first}
use dgit.Index.WellFormed.{find_key-some, no_conflict}
use dgit.Index.AddStage.{Checked-cases, replace_entries_check-stay}
use dgit.Index.Adding.{refresh_stat-key}

abbrev pub OfPaths : (Bytes → Type 0) → List IndexEntry → Type 0
OfPaths P xs = All (λ (e : IndexEntry). P e.path_name) xs

module _ (P : Bytes → Type 0) where
  write_key-OfPaths :
      (path : Bytes) (s : ℕ) (new : IndexEntry) (xs : List IndexEntry)
      → P new.path_name
      → OfPaths P xs
      → OfPaths P (write_key path s new xs)
  unfolding write_key
  write_key-OfPaths path s new [] p h = tt
  write_key-OfPaths path s new (x ∷ xs) p (q, h) = elim (Bool-cases (has_key path s x)) [
    | inl y ↦ rw (y, write_key) (p, h)
    | inr n ↦ rw (n, write_key) (q, write_key-OfPaths path s new xs p h)
  ]

  pub remove_file-OfPaths :
      (path : Bytes) (g : Index) → OfPaths P g.objects → OfPaths P (remove_file path g).objects
  unfolding remove_file
  remove_file-OfPaths path g h = elim (Bool-cases (has_path path g.objects)) [
    | inl y ↦ rw (y, remove_file) (All-remove_first (λ e. P e.path_name) path g.objects h)
    | inr n ↦ rw (n, remove_file) h
  ]

  module _ (c : WorkTree) (opts : Options) (a : Addition) (own : P a.path) where
    overwrite-OfPaths :
        (g : Index) (entry : IndexEntry)
        → entry.path_name ≡ a.path
        → OfPaths P g.objects
        → OfPaths P (overwrite c a g entry).0.objects
    unfolding overwrite
    overwrite-OfPaths g entry p h = elim (Bool-cases (c.exists a.path && a.stage == 0)) [
      | inr n ↦
          rw (n, overwrite)
            (write_key-OfPaths a.path a.stage
              (record entry { sha1 = a.sha1; mtime = a.mtime; fsize = a.size }) g.objects
              (subst P (sym p) own) h)
      | inl y ↦ elim (Option-cases (refresh_stat c entry)) [
        | inl failed ↦ rw (y, failed, overwrite) h
        | inr (e, got) ↦
            rw (y, got, overwrite)
              (write_key-OfPaths a.path a.stage
                (record e { sha1 = a.sha1; mtime = a.mtime; fsize = a.size }) g.objects
                (subst P (sym ((refresh_stat-key c entry e got).0 ∙ p)) own) h)
      ]
    ]

    append_entry-OfPaths :
        (g : Index) → OfPaths P g.objects → OfPaths P (append_entry c a g).0.objects
    unfolding append_entry new_entry
    append_entry-OfPaths g h = elim (Option-cases (refresh_stat c (new_entry a))) [
      | inl failed ↦ rw (failed, append_entry) (appended (new_entry a) own)
      | inr (e, got) ↦
          rw (got, append_entry)
            (appended e (subst P (sym ((refresh_stat-key c (new_entry a) e got).0)) own))
    ]
      where
        appended :
            (e : IndexEntry) → P e.path_name → OfPaths P (sort_by_path (g.objects ++ (e ∷ [])))
        appended e p =
            All-sort_by_path (λ e. P e.path_name) (g.objects ++ (e ∷ []))
              (All-append (λ e. P e.path_name) g.objects (e ∷ []) h (p, tt))

    kept-OfPaths :
        (xs : List IndexEntry) {kept : List IndexEntry}
        → replace_entries_check a.path a.stage opts.replace xs ≡ stay kept
        → OfPaths P xs
        → OfPaths P kept
    kept-OfPaths xs e h = elim (replace_entries_check-stay a.path a.stage opts.replace xs e) [
      | inl (n, q) ↦ rw q h
      | inr (z, q) ↦ rw q (All-keep (λ e. P e.path_name) (no_conflict a.path) xs h)
    ]

    add_stage_body-OfPaths :
        (g : Index) → OfPaths P g.objects → OfPaths P (add_stage_body c opts a g).0.objects
    unfolding add_stage_body
    add_stage_body-OfPaths g h = elim (Option-cases (find_key a.path a.stage g.objects)) [
      | inr (entry, found) ↦
          elim (Checked-cases (replace_entries_check a.path a.stage opts.replace g.objects)) [
            | inr (x, bad) ↦ rw (found, bad, add_stage_body) h
            | inl (kept, good) ↦
                let (p, _, _) =
                  find_key-some a.path a.stage g.objects entry found (λ e. P e.path_name) h in
                rw (found, good, add_stage_body)
                  (overwrite-OfPaths (record g { objects = kept }) entry p
                    (kept-OfPaths g.objects good h))
          ]
      | inl missing ↦ elim (Bool-cases opts.add) [
        | inr no_add ↦ rw (missing, no_add, add_stage_body) h
        | inl adds ↦
            elim (Checked-cases (replace_entries_check a.path a.stage opts.replace g.objects)) [
              | inr (x, bad) ↦ rw (missing, adds, bad, add_stage_body) h
              | inl (kept, good) ↦
                  rw (missing, adds, good, add_stage_body)
                    (append_entry-OfPaths (record g { objects = kept })
                      (kept-OfPaths g.objects good h))
            ]
      ]
    ]

    -- The paths of the index and the path that is added.
    pub add_stage-OfPaths :
        (g : Index) → OfPaths P g.objects → OfPaths P (add_stage c opts a g).0.objects
    unfolding add_stage remove_unmerged_stages
    add_stage-OfPaths g h = elim (Bool-cases (a.stage == 0)) [
      | inl z ↦ rw z (
          All-keep (λ e. P e.path_name) (stays_merged a.path) (add_stage_body c opts a g).0.objects
            (add_stage_body-OfPaths g h))
      | inr z ↦ rw z (add_stage_body-OfPaths g h)
    ]

-- Neither path lies below the other.
abbrev pub Apart : Bytes → Bytes → Type 0
Apart path other = (has_prefix other (slash path) ≡ false) × (has_prefix path (slash other) ≡ false)

replace_loop-none :
    (path : Bytes) (r : Bool) (xs : List IndexEntry)
    → OfPaths (Apart path) xs
    → replace_loop path r xs ≡ stay xs
unfolding replace_loop
replace_loop-none path r [] h = refl
replace_loop-none path r (x ∷ xs) ((p, q), h) =
    rw (p, q, replace_loop-none path r xs h, replace_loop) refl

-- An entry is added at stage 0 without an error, if no entry stands above or below it and a file that
-- exists can be asked for its stat data.
pub add_stage-succeeds :
    (c : WorkTree) (opts : Options) (a : Addition) (g : Index)
    → opts.add ≡ true
    → a.stage ≡ 0
    → ((path : Bytes) → c.exists path ≡ true → (s : Stat) × (c.stat path ≡ some s))
    → OfPaths (Apart a.path) g.objects
    → (add_stage c opts a g).1 ≡ none
unfolding add_stage add_stage_body replace_entries_check overwrite append_entry refresh_stat
add_stage-succeeds c opts a g add z stats h =
    let zero_stage = (==_iff a.stage 0).1 z in
    let free = replace_loop-none a.path opts.replace g.objects h in
    elim (Option-cases (find_key a.path a.stage g.objects)) [
      | inl missing ↦ rw (missing, add, add_stage_body) (rw (zero_stage, free) refl)
      | inr (e, found) ↦
          let (p, _, _) =
            find_key-some a.path a.stage g.objects e found (λ e. Apart a.path e.path_name) h in
          rw (found, add_stage_body)
            (rw (zero_stage, free)
              (elim (Bool-cases (c.exists a.path)) [
                | inr n ↦ rw (n, overwrite) refl
                | inl y ↦
                    let (s, got) = stats a.path y in
                    rw (y, zero_stage, overwrite) (rw (p, got, refresh_stat) refl)
              ]))
    ]
