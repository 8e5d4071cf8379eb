-- ===== src/ReadTree/Followed.antt =====
-- `ReadTreeFastForward` and the rows that its loops follow.
use dgit.Prelude.{
  ◌≡◌, ◌⊎◌, inl, inr, refl, sym, ap, subst, ◌∙◌, Bool, true, not, List, [], ◌∷◌, ◌++◌, Bytes,
  if◌then◌else◌, bytes_eq, bytes_eq_iff, Bool-cases, Option, Option-cases, none, some, some_inj,
  arith,
}
use dgit.Index.Entry.{IndexEntry, Index}
use dgit.ReadTree.Maps.{IndexMap, get, IsMap, Files, is_clean}
use dgit.ReadTree.FastForward.{
  MergeError, append, objects, run, concat, decide_index, decide_missing, fast_forward_objects,
  fast_forward,
}
use dgit.ReadTree.Table.{Outcome, result, fail, same, table, clean_at}
use dgit.ReadTree.Runs.{
  of_decision, of_entry, run-get, run-failed, Merged-cases, get-append, get-append_some,
}

-- The table with the row that the code has for an initial checkout.
unfoldable pub followed :
    Bool → Bool → Option IndexEntry → Option IndexEntry → Option IndexEntry → Outcome
followed clean initial none (some h) (some m) =
    if initial then result (some m) else if same h m then result none else fail
followed clean initial i h m = table clean initial i h m

unfoldable pub followed_at : Files → Bool → IndexMap → IndexMap → IndexMap → Bytes → Outcome
followed_at c index_exists index parent dst path =
    followed (clean_at c (get path index)) (not index_exists) (get path index) (get path parent)
      (get path dst)

get-path : (path : Bytes) (m : IndexMap) (e : IndexEntry) → get path m ≡ some e → e.path_name ≡ path
unfolding get
get-path path [] e h = cc
get-path path (x ∷ m) e h = elim (Bool-cases (bytes_eq x.path_name path)) [
  | inl y ↦
      ap (λ (t : IndexEntry). t.path_name) (sym (some_inj (rw (y, get) at h)))
      ∙ (bytes_eq_iff x.path_name path).0 y
  | inr n ↦ get-path path m e (rw (n, get) at h)
]

pub result_inj : {a b : Option IndexEntry} → result a ≡ result b → a ≡ b
result_inj e = cc

-- What a row puts at a path stood there in the index or in the destination.
followed-from :
    (clean initial : Bool) (i h m : Option IndexEntry) (new : IndexEntry)
    → followed clean initial i h m ≡ result (some new)
    → (i ≡ some new) ⊎ (m ≡ some new)
unfolding followed table
followed-from clean initial none none none new e = cc e
followed-from clean initial none none (some m) new e = inr (result_inj e)
followed-from clean initial none (some h) none new e = cc e
followed-from clean initial none (some h) (some m) new e = ground arith
followed-from clean initial (some i) none none new e = inl (result_inj e)
followed-from clean initial (some i) none (some m) new e = ground arith
followed-from clean initial (some i) (some h) none new e = ground arith
followed-from clean initial (some i) (some h) (some m) new e = ground arith

objects_of : Index ⊎ MergeError → List IndexEntry
objects_of (inl g) = g.objects
objects_of (inr x) = []

module _ (c : Files) (index_exists : Bool) (index parent dst : IndexMap) where
  -- The loop over the index decides rows 4 to 21.
  index_row :
      (e : IndexEntry)
      → of_decision (decide_index c parent dst e)
        ≡ followed
            (is_clean c e.path_name e.sha1)
            (not index_exists)
            (some e)
            (get e.path_name parent)
            (get e.path_name dst)
  unfolding decide_index of_decision followed table
  index_row e = elim (Option-cases (get e.path_name parent)) [
    | inl no_parent ↦ elim (Option-cases (get e.path_name dst)) [
      | inl no_dst ↦ rw (no_parent, no_dst, decide_index) refl
      | inr (m, in_dst) ↦ rw (no_parent, in_dst, decide_index) (ground arith)
    ]
    | inr (h, in_parent) ↦ elim (Option-cases (get e.path_name dst)) [
      | inl no_dst ↦ rw (in_parent, no_dst, decide_index) (ground arith)
      | inr (m, in_dst) ↦
          rw (in_parent, in_dst, decide_index)
            (ground (
              arith,
              bytes_eq_iff e.sha1 h.sha1,
              bytes_eq_iff e.sha1 m.sha1,
              bytes_eq_iff h.sha1 m.sha1,
            ))
    ]
  ]

  -- The loop over the destination decides rows 1 and 3.
  missing_row :
      (m : IndexEntry)
      → get m.path_name index ≡ none
      → of_decision (decide_missing index_exists index parent m)
        ≡ followed true (not index_exists) none (get m.path_name parent) (some m)
  unfolding decide_missing of_decision followed table
  missing_row m absent = elim (Option-cases (get m.path_name parent)) [
    | inl no_parent ↦ rw (absent, no_parent, decide_missing) refl
    | inr (h, in_parent) ↦ rw (absent, in_parent, decide_missing) (ground arith)
  ]

  index_path :
      (e new : IndexEntry) → decide_index c parent dst e ≡ append new → new.path_name ≡ e.path_name
  unfolding of_decision
  index_path e new d = elim (followed-from _ _ _ _ _ new (sym (rw d at (index_row e)))) [
    | inl i ↦ ap (λ (t : IndexEntry). t.path_name) (sym (some_inj i))
    | inr m ↦ get-path e.path_name dst new m
  ]

  missing_path :
      (m new : IndexEntry)
      → decide_missing index_exists index parent m ≡ append new
      → new.path_name ≡ m.path_name
  unfolding of_decision decide_missing
  missing_path m new d = elim (Option-cases (get m.path_name index)) [
    | inr (e, present) ↦ cc (rw (present, decide_missing) at d)
    | inl absent ↦ elim (followed-from _ _ _ _ _ new (sym (rw d at (missing_row m absent)))) [
      | inl i ↦ cc i
      | inr k ↦ ap (λ (t : IndexEntry). t.path_name) (sym (some_inj k))
    ]
  ]

  outcome_present :
      (path : Bytes) (e : IndexEntry)
      → get path index ≡ some e
      → of_decision (decide_index c parent dst e) ≡ followed_at c index_exists index parent dst path
  unfolding followed_at clean_at
  outcome_present path e present = rw (present, ← get-path path index e present) (index_row e)

  outcome_absent :
      (path : Bytes)
      → get path index ≡ none
      → of_entry (decide_missing index_exists index parent) (get path dst)
        ≡ followed_at c index_exists index parent dst path
  unfolding followed_at clean_at of_entry followed table
  outcome_absent path absent = elim (Option-cases (get path dst)) [
    | inl no_dst ↦ elim (Option-cases (get path parent)) [
      | inl no_parent ↦ rw (absent, no_dst, no_parent) refl
      | inr (h, in_parent) ↦ rw (absent, no_dst, in_parent) refl
    ]
    | inr (m, in_dst) ↦
        let p = get-path path dst m in_dst in
        rw (absent, in_dst, ← p) (missing_row m (rw (sym p) at absent))
  ]

  -- The second loop adds nothing at a path of the index.
  missing_present :
      (path : Bytes) (e : IndexEntry)
      → get path index ≡ some e
      → of_entry (decide_missing index_exists index parent) (get path dst) ≡ result none
  unfolding of_entry of_decision decide_missing
  missing_present path e present = elim (Option-cases (get path dst)) [
    | inl no_dst ↦ rw no_dst refl
    | inr (m, in_dst) ↦
        let p : get m.path_name index ≡ some e = rw (get-path path dst m in_dst) present in
        rw in_dst (rw (p, of_decision, decide_missing) refl)
  ]

  module _ (index_map : IsMap index) (dst_map : IsMap dst) where
    -- The objects of both loops together, path by path.
    both_loops :
        (a b : List IndexEntry)
        → run (decide_index c parent dst) index ≡ objects a
        → run (decide_missing index_exists index parent) dst ≡ objects b
        → (path : Bytes)
        → result (get path (a ++ b)) ≡ followed_at c index_exists index parent dst path
    unfolding of_entry
    both_loops a b p q path =
        let r1 = run-get (decide_index c parent dst) index_path index index_map p path in
        let r2 =
          run-get (decide_missing index_exists index parent) missing_path dst dst_map q path in
        elim (Option-cases (get path index)) [
          | inl absent ↦
              ap result (
                get-append path a b
                  (result_inj (r1 ∙ ap (of_entry (decide_index c parent dst)) absent)))
              ∙ r2
              ∙ outcome_absent path absent
          | inr (e, present) ↦
              joined path a b (result_inj (r2 ∙ missing_present path e present))
              ∙ r1
              ∙ ap (of_entry (decide_index c parent dst)) present
              ∙ outcome_present path e present
        ]
      where
        joined :
            (path : Bytes) (a b : List IndexEntry)
            → get path b ≡ none
            → result (get path (a ++ b)) ≡ result (get path a)
        joined path a b no_b = elim (Option-cases (get path a)) [
          | inl no_a ↦ ap result (get-append path a b no_a ∙ no_b ∙ sym no_a)
          | inr (x, in_a) ↦ ap result (get-append_some path a b in_a ∙ sym in_a)
        ]

    -- Where the fast-forward succeeds, on maps of the index and the destination without double
    -- paths, the new index has at every path what the table says for the index, the parent and
    -- the destination there.
    pub fast_forward-followed :
        {g : Index}
        → fast_forward c index_exists index parent dst ≡ inl g
        → (path : Bytes)
        → result (get path g.objects) ≡ followed_at c index_exists index parent dst path
    unfolding fast_forward fast_forward_objects concat objects_of
    fast_forward-followed {g} h path = elim (Merged-cases (run (decide_index c parent dst) index)) [
      | inr (x, p) ↦ cc (rw (p, fast_forward) at h)
      | inl (a, p) ↦ elim (Merged-cases (run (decide_missing index_exists index parent) dst)) [
        | inr (x, q) ↦ cc (rw (p, q, fast_forward) at h)
        | inl (b, q) ↦
            subst
              (λ (l : List IndexEntry).
                result (get path l) ≡ followed_at c index_exists index parent dst path)
              (ap objects_of (rw (p, q, fast_forward) at h)) (both_loops a b p q path)
      ]
    ]

    -- Where the fast-forward fails, on maps of the index and the destination without double
    -- paths, there is a path for which the table says so.
    pub failed-followed :
        {x : MergeError}
        → fast_forward c index_exists index parent dst ≡ inr x
        → (path : Bytes) × (followed_at c index_exists index parent dst path ≡ fail)
    unfolding fast_forward fast_forward_objects concat of_entry
    failed-followed h = elim (Merged-cases (run (decide_index c parent dst) index)) [
      | inr (x, p) ↦
          let (e, k, f) = run-failed (decide_index c parent dst) index index_map p in
          (e.path_name, sym (outcome_present e.path_name e k) ∙ f)
      | inl (a, p) ↦ elim (Merged-cases (run (decide_missing index_exists index parent) dst)) [
        | inl (b, q) ↦ cc (rw (p, q, fast_forward) at h)
        | inr (x, q) ↦
            let (e, k, f) = run-failed (decide_missing index_exists index parent) dst dst_map q in
            let there = ap (of_entry (decide_missing index_exists index parent)) k ∙ f in
            elim (Option-cases (get e.path_name index)) [
              | inl absent ↦ (e.path_name, sym (outcome_absent e.path_name absent) ∙ there)
              | inr (i, present) ↦ cc (sym there ∙ missing_present e.path_name i present)
            ]
      ]
    ]
