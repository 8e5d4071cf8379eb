-- ===== src/Index/Lookups.antt =====
-- git/index.go: what `GetUnmerged` has of an index without double keys.
use dgit.Prelude.{
  ℕ, ◌≡◌, ◌⊎◌, inl, inr, refl, sym, ap, subst, ◌∙◌, true, false, ◌==◌, ==_iff, List, [], ◌∷◌, Bytes,
  bytes_eq, bytes_eq_iff, Bool-cases, Option, none, some, All, arith,
}
use dgit.Index.Entry.{IndexEntry, Index, stage}
use dgit.Index.Stages.{has_key, find_key}
use dgit.Index.Order.{SameKey}
use dgit.Index.Sorted.{IsDistinct, IsSorted→IsDistinct}
use dgit.Index.WellFormed.{IsWellFormed}
use dgit.Index.Flags.{stage_bits-eq}
use dgit.Index.Unmerged.{
  get_stage_map, UnmergedPath, nothing_unmerged, UnmergedMap, get_path, put_path, set_stage,
  or_nothing, note_unmerged, unmerged_loop, get_unmerged,
}
use dgit.Index.StageMap.{or_else, or_else-none, find_key-absent, find_key-put_keys}

-- What the entries have of a path beyond stage 0.
unfoldable pub unmerged_at : Bytes → List IndexEntry → UnmergedPath
unmerged_at path es = record {
  stage1 = find_key path 1 es;
  stage2 = find_key path 2 es;
  stage3 = find_key path 3 es;
}

unfoldable pub present : UnmergedPath → Option UnmergedPath
present u = elim u.stage1 [
  | some e ↦ some u
  | none ↦ elim u.stage2 [
    | some e ↦ some u
    | none ↦ elim u.stage3 [ some e ↦ some u | none ↦ none ]
  ]
]

over : UnmergedPath → UnmergedPath → UnmergedPath
over u v = record {
  stage1 = or_else u.stage1 v.stage1;
  stage2 = or_else u.stage2 v.stage2;
  stage3 = or_else u.stage3 v.stage3;
}

overlay : UnmergedPath → Option UnmergedPath → Option UnmergedPath
overlay u none = present u
overlay u (some v) = some (over u v)

over_nothing : (u : UnmergedPath) → over u nothing_unmerged ≡ u
unfolding over nothing_unmerged
over_nothing u = rw (or_else-none u.stage1, or_else-none u.stage2, or_else-none u.stage3)

overlay_nothing : (o : Option UnmergedPath) → o ≡ overlay nothing_unmerged o
unfolding overlay present over or_else nothing_unmerged
overlay_nothing none = refl
overlay_nothing (some u) = refl

module _ (e : IndexEntry) where
  abbrev paths_of : Option IndexEntry → Option IndexEntry → Option IndexEntry → UnmergedPath
  paths_of a b c = record { stage1 = a; stage2 = b; stage3 = c }

  present_first :
      (b c : Option IndexEntry) → present (paths_of (some e) b c) ≡ some (paths_of (some e) b c)
  unfolding present
  present_first b c = refl

  present_second :
      (a c : Option IndexEntry) → present (paths_of a (some e) c) ≡ some (paths_of a (some e) c)
  unfolding present
  present_second none c = refl
  present_second (some x) c = refl

  present_third :
      (a b : Option IndexEntry) → present (paths_of a b (some e)) ≡ some (paths_of a b (some e))
  unfolding present
  present_third none none = refl
  present_third none (some y) = refl
  present_third (some x) b = refl

get_path-put_path :
    (path : Bytes) (u : UnmergedPath) (m : UnmergedMap) → get_path path (put_path path u m) ≡ some u
unfolding get_path put_path
get_path-put_path path u [] = rw ((bytes_eq_iff path path).1 refl)
get_path-put_path path u (r ∷ m) = elim (Bool-cases (bytes_eq r.0 path)) [
  | inl y ↦ rw (y, (bytes_eq_iff path path).1 refl) refl
  | inr n ↦ rw n (rw n (get_path-put_path path u m))
]

get_path-put_other :
    (path other : Bytes) (u : UnmergedPath) (m : UnmergedMap)
    → bytes_eq other path ≡ false
    → get_path path (put_path other u m) ≡ get_path path m
unfolding get_path put_path
get_path-put_other path other u [] h = rw h
get_path-put_other path other u (r ∷ m) h = elim (Bool-cases (bytes_eq r.0 other)) [
  | inl y ↦
      let k : bytes_eq r.0 path ≡ false = rw (sym ((bytes_eq_iff r.0 other).0 y)) at h in
      rw y (rw (h, k) refl)
  | inr n ↦ elim (Bool-cases (bytes_eq r.0 path)) [
    | inl y ↦ rw n (rw y refl)
    | inr z ↦ rw n (rw z (get_path-put_other path other u m h))
  ]
]

has_key_at :
    (path : Bytes) (s : ℕ) (e : IndexEntry) → e.path_name ≡ path → has_key path s e ≡ (stage e == s)
unfolding has_key
has_key_at path s e p = rw (p, (bytes_eq_iff path path).1 refl)

has_key_elsewhere :
    (path : Bytes) (s : ℕ) (e : IndexEntry)
    → bytes_eq e.path_name path ≡ false
    → has_key path s e ≡ false
unfolding has_key
has_key_elsewhere path s e n = rw n

stage-cases :
    (e : IndexEntry) → (stage e == 0) ≡ false → (stage e ≡ 1) ⊎ ((stage e ≡ 2) ⊎ (stage e ≡ 3))
stage-cases e n = grind (arith, stage_bits-eq e.flags)

module _ (path : Bytes) (e : IndexEntry) (es : List IndexEntry) where
  unmerged_at-skip :
      has_key path 1 e ≡ false
      → has_key path 2 e ≡ false
      → has_key path 3 e ≡ false
      → unmerged_at path (e ∷ es) ≡ unmerged_at path es
  unfolding unmerged_at find_key
  unmerged_at-skip a b c = rw (a, b, c)

  module _ (p : e.path_name ≡ path) (gone : find_key path (stage e) es ≡ none) where
    over-set_stage :
        (stage e == 0) ≡ false
        → (u : UnmergedPath)
        → over (unmerged_at path es) (set_stage e u) ≡ over (unmerged_at path (e ∷ es)) u
    unfolding unmerged_at find_key set_stage over or_else
    over-set_stage n u = elim (stage-cases e n) [
      | inl q ↦ rw (tests 1, tests 2, tests 3, q) (rw (rw q at gone) refl)
      | inr (inl q) ↦ rw (tests 1, tests 2, tests 3, q) (rw (rw q at gone) refl)
      | inr (inr q) ↦ rw (tests 1, tests 2, tests 3, q) (rw (rw q at gone) refl)
    ]
      where
        tests : (s : ℕ) → has_key path s e ≡ (stage e == s)
        tests s = has_key_at path s e p

    present-unmerged_at :
        (stage e == 0) ≡ false
        → present (unmerged_at path (e ∷ es)) ≡ some (unmerged_at path (e ∷ es))
    unfolding unmerged_at find_key
    present-unmerged_at n = elim (stage-cases e n) [
      | inl q ↦ rw (has_key_at path 1 e p, q) (present_first e _ _)
      | inr (inl q) ↦ rw (has_key_at path 2 e p, q) (present_second e _ _)
      | inr (inr q) ↦ rw (has_key_at path 3 e p, q) (present_third e _ _)
    ]

    -- The entry is noted in what the map has of its path.
    overlay-set_stage :
        (stage e == 0) ≡ false
        → (o : Option UnmergedPath)
        → overlay (unmerged_at path es) (some (set_stage e (or_nothing o)))
          ≡ overlay (unmerged_at path (e ∷ es)) o
    unfolding overlay or_nothing
    overlay-set_stage n none =
        ap some (over-set_stage n nothing_unmerged ∙ over_nothing (unmerged_at path (e ∷ es)))
        ∙ sym (present-unmerged_at n)
    overlay-set_stage n (some u) = ap some (over-set_stage n u)

  -- What an entry leaves of the map's path, with the entries behind it.
  module _ (m : UnmergedMap) where
    abbrev Noted : Type 0
    Noted =
        overlay (unmerged_at path es) (get_path path (note_unmerged m e))
        ≡ overlay (unmerged_at path (e ∷ es)) (get_path path m)

    note-elsewhere : bytes_eq e.path_name path ≡ false → Noted
    unfolding note_unmerged get_path
    note-elsewhere h =
        rw
          (
            note_other,
            unmerged_at-skip (has_key_elsewhere path 1 e h) (has_key_elsewhere path 2 e h)
                (has_key_elsewhere path 3 e h),
          )
          refl
      where
        note_other : get_path path (note_unmerged m e) ≡ get_path path m
        note_other = elim (Bool-cases (stage e == 0)) [
          | inl z ↦ rw (z, note_unmerged) refl
          | inr n ↦ rw (n, note_unmerged) (get_path-put_other path e.path_name _ m h)
        ]

    note-merged : e.path_name ≡ path → (stage e == 0) ≡ true → Noted
    unfolding note_unmerged overlay
    note-merged p z =
        rw (z, note_unmerged)
          (rw (unmerged_at-skip (not_at 1 refl) (not_at 2 refl) (not_at 3 refl)) refl)
      where
        not_at : (s : ℕ) → (0 == s) ≡ false → has_key path s e ≡ false
        not_at s k = has_key_at path s e p ∙ rw ((==_iff (stage e) 0).0 z) k

    note-unmerged :
        e.path_name ≡ path → find_key path (stage e) es ≡ none → (stage e == 0) ≡ false → Noted
    unfolding note_unmerged
    note-unmerged p gone n =
        ap (overlay (unmerged_at path es)) (
          subst
            (λ (q : Bytes).
              get_path q (note_unmerged m e) ≡ some (set_stage e (or_nothing (get_path q m))))
            p own_path)
        ∙ overlay-set_stage p gone n (get_path path m)
      where
        own_path :
            get_path e.path_name (note_unmerged m e)
            ≡ some (set_stage e (or_nothing (get_path e.path_name m)))
        own_path = rw (n, note_unmerged) (get_path-put_path e.path_name _ m)

unmerged_loop-overlay :
    (path : Bytes) (es : List IndexEntry) (m : UnmergedMap)
    → IsDistinct es
    → get_path path (unmerged_loop m es) ≡ overlay (unmerged_at path es) (get_path path m)
unfolding unmerged_loop unmerged_at nothing_unmerged find_key
unmerged_loop-overlay path [] m d = overlay_nothing (get_path path m)
unmerged_loop-overlay path (e ∷ es) m (h, d) =
    unmerged_loop-overlay path es (note_unmerged m e) d
    ∙ elim (Bool-cases (bytes_eq e.path_name path)) [
      | inr other ↦ note-elsewhere path e es m other
      | inl y ↦
          let p = (bytes_eq_iff e.path_name path).0 y in
          elim (Bool-cases (stage e == 0)) [
            | inl z ↦ note-merged path e es m p z
            | inr n ↦ note-unmerged path e es m p (found_later p h) n
          ]
    ]
  where
    found_later :
        e.path_name ≡ path → All (λ y. ¬ SameKey e y) es → find_key path (stage e) es ≡ none
    found_later p h =
        subst (λ (q : Bytes). find_key q (stage e) es ≡ none) p (find_key-absent e es h)

-- In a well formed index `GetStageMap` leads from a path and a stage to the entry with that key, and
-- `GetUnmerged` from a path to its entries at the stages 1 to 3, where there is one of them; neither
-- map has a key without such an entry.
pub get_unmerged-get_stage_map :
    (g : Index)
    → IsWellFormed g
    → (path : Bytes) (s : ℕ)
    → (find_key path s (get_stage_map g.objects) ≡ find_key path s g.objects)
      × (get_path path (get_unmerged g.objects) ≡ present (unmerged_at path g.objects))
unfolding get_stage_map get_unmerged overlay get_path find_key
get_unmerged-get_stage_map g w path s =
    let d = IsSorted→IsDistinct g.objects w.sorted in
    (
      find_key-put_keys path s g.objects [] d ∙ or_else-none (find_key path s g.objects),
      unmerged_loop-overlay path g.objects [] d,
    )
