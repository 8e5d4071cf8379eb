-- ===== src/Index/AddStage.antt =====
-- What `AddStage` does to the index, on every branch.
use dgit.Prelude.{
  ℕ, ◌%◌, ◌^◌, ◌<◌, ◌≡◌, ◌≢◌, ◌⊎◌, inl, inr, refl, sym, ap, ◌∙◌, Bool, List, [], ◌∷◌, Bytes, ◌==◌,
  ==_iff, ==-false→ne, Bool-cases, Option-cases, none, length, arith,
}
use dgit.Index.Entry.{IndexEntry, Index, keep}
use dgit.Index.Stages.{
  remove_unmerged_stages, stays_merged, WorkTree, IndexError, Checked, stay, conflict,
  replace_entries_check, find_key, has_key, Options, Addition, add_stage_body, add_stage,
}
use dgit.Index.WellFormed.{IsWellFormed, FlagsFit, find_key-some, no_conflict, replace_loop-stay}
use dgit.Index.Adding.{Core, keep-Core, overwrite-Core, append_entry-Core}

pub Checked-cases :
    (r : Checked) → ((k : List IndexEntry) × (r ≡ stay k)) ⊎ ((x : IndexError) × (r ≡ conflict x))
Checked-cases (stay k) = inl (k, refl)
Checked-cases (conflict x) = inr (x, refl)

-- The check passes on all entries, or for stage 0 those without a conflict.
pub replace_entries_check-stay :
    (path : Bytes) (s : ℕ) (r : Bool) (xs : List IndexEntry) {kept : List IndexEntry}
    → replace_entries_check path s r xs ≡ stay kept
    → ((s ≢ 0) × (kept ≡ xs)) ⊎ ((s ≡ 0) × (kept ≡ keep (no_conflict path) xs))
unfolding replace_entries_check
replace_entries_check-stay path s r xs h = elim (Bool-cases (s == 0)) [
  | inl z ↦ inr ((==_iff s 0).0 z, replace_loop-stay path r xs (rw (z, replace_entries_check) at h))
  | inr z ↦ inl (==-false→ne s 0 z, stay_inj (sym (rw (z, replace_entries_check) at h)))
]
  where
    stay_inj : {x y : List IndexEntry} → stay x ≡ stay y → x ≡ y
    stay_inj e = cc

pub find_key-keep :
    (path : Bytes) (s : ℕ) (p : IndexEntry → Bool) (xs : List IndexEntry)
    → find_key path s xs ≡ none
    → find_key path s (keep p xs) ≡ none
unfolding find_key keep
find_key-keep path s p [] h = refl
find_key-keep path s p (x ∷ xs) h = elim (Bool-cases (has_key path s x)) [
  | inl t ↦ cc (rw (t, find_key) at h)
  | inr t ↦
      let ih = find_key-keep path s p xs (rw (t, find_key) at h) in
      elim (Bool-cases (p x)) [
        | inl k ↦ rw (k, keep) (rw (t, find_key) ih)
        | inr k ↦ rw (k, keep) ih
      ]
]

module _ (c : WorkTree) (opts : Options) (a : Addition) (stage_fits : a.stage < 4) where
  -- The order and the flags at every end of the body; the count too, but for stage 0.
  abbrev BodyInv : Index → Type 0
  BodyInv g = Core g.objects × (a.stage ≢ 0 → g.number_index_entries ≡ length g.objects % 2 ^ 32)

  kept-BodyInv :
      (g : Index) {kept : List IndexEntry}
      → IsWellFormed g
      → ((a.stage ≢ 0) × (kept ≡ g.objects))
        ⊎ ((a.stage ≡ 0) × (kept ≡ keep (no_conflict a.path) g.objects))
      → BodyInv (record g { objects = kept })
  kept-BodyInv g w (inl (n, e)) =
      rw e (record { sorted = w.sorted; words = w.words }, λ _. w.counted)
  kept-BodyInv g w (inr (z, e)) = rw e (
    keep-Core (no_conflict a.path) g.objects (record { sorted = w.sorted; words = w.words }),
    λ n. absurd (n z),
  )

  kept_missing :
      (g : Index) {kept : List IndexEntry}
      → find_key a.path a.stage g.objects ≡ none
      → ((a.stage ≢ 0) × (kept ≡ g.objects))
        ⊎ ((a.stage ≡ 0) × (kept ≡ keep (no_conflict a.path) g.objects))
      → find_key a.path a.stage kept ≡ none
  kept_missing g h (inl (n, e)) = rw e h
  kept_missing g h (inr (z, e)) =
      rw e (find_key-keep a.path a.stage (no_conflict a.path) g.objects h)

  same : (g : Index) → IsWellFormed g → BodyInv g
  same g w = (record { sorted = w.sorted; words = w.words }, λ _. w.counted)

  add_stage_body-BodyInv : (g : Index) → IsWellFormed g → BodyInv (add_stage_body c opts a g).0
  unfolding add_stage_body
  add_stage_body-BodyInv g w = elim (Option-cases (find_key a.path a.stage g.objects)) [
    | inr (entry, found) ↦
        elim (Checked-cases (replace_entries_check a.path a.stage opts.replace g.objects)) [
          | inr (x, bad) ↦ rw (found, bad, add_stage_body) (same g w)
          | inl (kept, good) ↦
              let (core, counted) =
                kept-BodyInv g w
                  (replace_entries_check-stay a.path a.stage opts.replace g.objects good) in
              let (p, q, f) = find_key-some a.path a.stage g.objects entry found FlagsFit w.words in
              let (k, n, l) =
                overwrite-Core c a stage_fits (record g { objects = kept }) entry p q f core in
              rw (found, good, add_stage_body)
                (k, λ z. n ∙ counted z ∙ ap (λ (t : ℕ). t % 2 ^ 32) (sym l))
        ]
    | inl missing ↦ elim (Bool-cases opts.add) [
      | inr no_add ↦ rw (missing, no_add, add_stage_body) (same g w)
      | inl adds ↦
          elim (Checked-cases (replace_entries_check a.path a.stage opts.replace g.objects)) [
            | inr (x, bad) ↦ rw (missing, adds, bad, add_stage_body) (same g w)
            | inl (kept, good) ↦
                let passed =
                  replace_entries_check-stay a.path a.stage opts.replace g.objects good in
                let (core, counted) = kept-BodyInv g w passed in
                let (k, n, l) =
                  append_entry-Core c a stage_fits (record g { objects = kept })
                    (kept_missing g missing passed) core in
                rw (missing, adds, good, add_stage_body) (k, λ z. omega (arith, n, l, counted z))
          ]
    ]
  ]

  -- Adding at one of the stages 0 to 3 keeps the order of the objects, their count in the
  -- header and their flags, with or without an error.
  pub add_stage-IsWellFormed : (g : Index) → IsWellFormed g → IsWellFormed (add_stage c opts a g).0
  unfolding add_stage remove_unmerged_stages
  add_stage-IsWellFormed g w =
      let (core, counted) = add_stage_body-BodyInv g w in
      let objects = (add_stage_body c opts a g).0.objects in
      elim (Bool-cases (a.stage == 0)) [
        | inl z ↦ rw z (record {
          sorted = (keep-Core (stays_merged a.path) objects core).sorted;
          counted = refl;
          words = (keep-Core (stays_merged a.path) objects core).words;
        })
        | inr z ↦ rw z (record {
          sorted = core.sorted;
          counted = counted (==-false→ne a.stage 0 z);
          words = core.words;
        })
      ]
