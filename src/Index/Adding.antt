-- ===== src/Index/Adding.antt =====
-- `AddStage` keeps the invariant of the index, whatever the work tree says and on its errors too.
use dgit.Prelude.{
  suc, ◌+◌, ◌%◌, ◌^◌, ◌<◌, ◌≡◌, inl, inr, refl, sym, ap, ◌∙◌, Bool, ◌&&◌, List, [], ◌∷◌, ◌++◌, ◌==◌,
  Bool-cases, Option-cases, none, some, some_inj, length, length-append, All, All-append, arith,
}
use dgit.Index.Entry.{IndexEntry, Index, stage, stage_bits, insert_sorted, sort_by_path, keep}
use dgit.Index.Stages.{
  WorkTree, refresh_stat, find_key, write_key, Addition, new_entry, overwrite, append_entry,
}
use dgit.Index.Flags.{new_flags-eq, new_flags_fields}
use dgit.Index.Sorted.{
  IsSorted, All-keep, All-sort_by_path, keep-IsSorted, sort_by_path-IsSorted, IsSorted→IsDistinct,
  IsDistinct-concat, find_key-none,
}
use dgit.Index.WellFormed.{FlagsFit, length-write_key, All-write_key, write_key-IsSorted}

pub record Core (xs : List IndexEntry) : Type 0 where
  pub sorted : IsSorted xs
  pub words : All FlagsFit xs

pub keep-Core : (p : IndexEntry → Bool) (xs : List IndexEntry) → Core xs → Core (keep p xs)
keep-Core p xs h = record {
  sorted = keep-IsSorted p xs h.sorted;
  words = All-keep FlagsFit p xs h.words;
}

pub refresh_stat-key :
    (c : WorkTree) (e e' : IndexEntry)
    → refresh_stat c e ≡ some e'
    → (e'.path_name ≡ e.path_name) × (e'.flags ≡ e.flags)
unfolding refresh_stat
refresh_stat-key c e e' h = elim (Option-cases (c.stat e.path_name)) [
  | inl missing ↦ cc (rw (missing, refresh_stat) at h)
  | inr (s, found) ↦
      let q = some_inj (rw (found, refresh_stat) at h) in
      (ap (λ (z : IndexEntry). z.path_name) (sym q), ap (λ (z : IndexEntry). z.flags) (sym q))
]

length-insert_sorted :
    (e : IndexEntry) (xs : List IndexEntry) → length (insert_sorted e xs) ≡ suc (length xs)
unfolding insert_sorted
length-insert_sorted e [] = refl
length-insert_sorted e (x ∷ xs) = ground (arith, length-insert_sorted e xs)

pub length-sort_by_path : (xs : List IndexEntry) → length (sort_by_path xs) ≡ length xs
unfolding sort_by_path
length-sort_by_path [] = refl
length-sort_by_path (x ∷ xs) =
    length-insert_sorted x (sort_by_path xs) ∙ ap suc (length-sort_by_path xs)

module _ (c : WorkTree) (a : Addition) (stage_fits : a.stage < 4) where
  -- A replacement of the entry of the key that is added.
  replaced-Core :
      (xs : List IndexEntry) (new : IndexEntry)
      → new.path_name ≡ a.path
      → stage new ≡ a.stage
      → FlagsFit new
      → Core xs
      → Core (write_key a.path a.stage new xs)
  replaced-Core xs new p q f h = record {
    sorted = write_key-IsSorted a.path a.stage new p q xs h.sorted;
    words = All-write_key a.path a.stage new p q FlagsFit (λ y k l. f) xs h.words;
  }

  pub overwrite-Core :
      (g : Index) (entry : IndexEntry)
      → entry.path_name ≡ a.path
      → stage entry ≡ a.stage
      → FlagsFit entry
      → Core g.objects
      → Core ((overwrite c a g entry).0.objects)
        × ((overwrite c a g entry).0.number_index_entries ≡ g.number_index_entries)
        × (length (overwrite c a g entry).0.objects ≡ length g.objects)
  unfolding overwrite
  overwrite-Core g entry p q f h = elim (Bool-cases (c.exists a.path && a.stage == 0)) [
    | inl t ↦ elim (Option-cases (refresh_stat c entry)) [
      | inl failed ↦ rw (t, failed, overwrite) (h, refl, refl)
      | inr (e, got) ↦
          let (pp, ff) = refresh_stat-key c entry e got in
          rw (t, got, overwrite)
            (
              replaced-Core g.objects (record e { sha1 = a.sha1; mtime = a.mtime; fsize = a.size })
                  (pp ∙ p) (ap stage_bits ff ∙ q) (rw ff f) h,
              refl,
              length-write_key a.path a.stage _ g.objects,
            )
    ]
    | inr t ↦
        rw (t, overwrite)
          (
            replaced-Core g.objects
                (record entry { sha1 = a.sha1; mtime = a.mtime; fsize = a.size }) p q f h,
            refl,
            length-write_key a.path a.stage _ g.objects,
          )
  ]

  new_entry_fields : (new_entry a).path_name ≡ a.path
  unfolding new_entry
  new_entry_fields = refl

  new_entry-stage : stage (new_entry a) ≡ a.stage
  unfolding new_entry
  new_entry-stage = (new_flags_fields a.stage a.path stage_fits).0

  new_entry-FlagsFit : FlagsFit (new_entry a)
  unfolding new_entry
  new_entry-FlagsFit = omega (arith, new_flags-eq a.stage a.path stage_fits)

  appended-Core :
      (xs : List IndexEntry) (e : IndexEntry)
      → e.path_name ≡ a.path
      → stage e ≡ a.stage
      → FlagsFit e
      → find_key a.path a.stage xs ≡ none
      → Core xs
      → Core (sort_by_path (xs ++ (e ∷ [])))
        × (length (sort_by_path (xs ++ (e ∷ []))) ≡ length xs + 1)
  appended-Core xs e p q f missing h = (
    record {
      sorted = sort_by_path-IsSorted (xs ++ (e ∷ [])) (
          IsDistinct-concat xs e (IsSorted→IsDistinct xs h.sorted)
            (find_key-none a.path a.stage xs missing e p q));
      words =
          All-sort_by_path FlagsFit (xs ++ (e ∷ []))
            (All-append FlagsFit xs (e ∷ []) h.words (f, tt));
    },
    omega (arith, length-sort_by_path (xs ++ (e ∷ [])), length-append xs (e ∷ [])),
  )

  pub append_entry-Core :
      (g : Index)
      → find_key a.path a.stage g.objects ≡ none
      → Core g.objects
      → Core ((append_entry c a g).0.objects)
        × ((append_entry c a g).0.number_index_entries ≡ (g.number_index_entries + 1) % 2 ^ 32)
        × (length (append_entry c a g).0.objects ≡ length g.objects + 1)
  unfolding append_entry
  append_entry-Core g missing h = elim (Option-cases (refresh_stat c (new_entry a))) [
    | inl failed ↦
        let (k, l) =
          appended-Core g.objects (new_entry a) new_entry_fields new_entry-stage new_entry-FlagsFit
            missing h in
        rw (failed, append_entry) (k, refl, l)
    | inr (e, got) ↦
        let (pp, ff) = refresh_stat-key c (new_entry a) e got in
        let (k, l) =
          appended-Core g.objects e (pp ∙ new_entry_fields) (ap stage_bits ff ∙ new_entry-stage)
            (rw ff new_entry-FlagsFit) missing h in
        rw (got, append_entry) (k, refl, l)
  ]
