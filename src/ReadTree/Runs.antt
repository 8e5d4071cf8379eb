-- ===== src/ReadTree/Runs.antt =====
-- What a loop over a map leaves at a path.
use dgit.Prelude.{
  ◌≡◌, ◌⊎◌, inl, inr, refl, ap, true, List, [], ◌∷◌, ◌++◌, Bytes, bytes_eq, bytes_eq_iff,
  Bool-cases, Option, none, some,
}
use dgit.Index.Entry.{IndexEntry}
use dgit.ReadTree.Maps.{IndexMap, get, IsMap}
use dgit.ReadTree.FastForward.{
  MergeError, Decision, append, leave_out, refuse, Merged, objects, failed, run,
}
use dgit.ReadTree.Table.{Outcome, result, fail}

unfoldable pub of_decision : Decision → Outcome
of_decision (append e) = result (some e)
of_decision leave_out = result none
of_decision (refuse x) = fail

unfoldable pub of_entry : (IndexEntry → Decision) → Option IndexEntry → Outcome
of_entry decide none = result none
of_entry decide (some e) = of_decision (decide e)

pub Merged-cases :
    (r : Merged) → ((l : List IndexEntry) × (r ≡ objects l)) ⊎ ((x : MergeError) × (r ≡ failed x))
Merged-cases (objects l) = inl (l, refl)
Merged-cases (failed x) = inr (x, refl)

pub objects_inj : {l k : List IndexEntry} → objects l ≡ objects k → l ≡ k
objects_inj e = cc

pub data Split (d : Decision) : Type 0 where
  appends : (e : IndexEntry) → d ≡ append e → Split d
  leaves : d ≡ leave_out → Split d
  refuses : (x : MergeError) → d ≡ refuse x → Split d

pub Decision-cases : (d : Decision) → Split d
Decision-cases (append e) = appends e refl
Decision-cases leave_out = leaves refl
Decision-cases (refuse x) = refuses x refl

pub get-append :
    (path : Bytes) (l k : List IndexEntry) → get path l ≡ none → get path (l ++ k) ≡ get path k
unfolding get
get-append path [] k h = refl
get-append path (e ∷ l) k h = elim (Bool-cases (bytes_eq e.path_name path)) [
  | inl y ↦ cc (rw (y, get) at h)
  | inr n ↦ rw n (get-append path l k (rw (n, get) at h))
]

pub get-append_some :
    (path : Bytes) (l k : List IndexEntry) {e : IndexEntry}
    → get path l ≡ some e
    → get path (l ++ k) ≡ some e
unfolding get
get-append_some path [] k h = cc
get-append_some path (e ∷ l) k h = elim (Bool-cases (bytes_eq e.path_name path)) [
  | inl y ↦ rw y (rw (y, get) at h)
  | inr n ↦ rw n (get-append_some path l k (rw (n, get) at h))
]

module _ (decide : IndexEntry → Decision)
    (same_path : (e new : IndexEntry) → decide e ≡ append new → new.path_name ≡ e.path_name) where
  at_head :
      (x : IndexEntry) (xs : IndexMap) (path : Bytes)
      → bytes_eq x.path_name path ≡ true
      → get x.path_name xs ≡ none
      → get path xs ≡ none
  at_head x xs path y h = rw ((bytes_eq_iff x.path_name path).0 y) at h

  -- The entry that is appended for `x` is found where `x` is.
  appended :
      (x new : IndexEntry)
      → decide x ≡ append new
      → (k : List IndexEntry) (xs : IndexMap) (path : Bytes) → get x.path_name xs ≡ none
      → result (get path k) ≡ of_entry decide (get path xs)
      → result (get path (new ∷ k)) ≡ of_entry decide (get path (x ∷ xs))
  unfolding get of_entry of_decision
  appended x new d k xs path fresh ih =
      let z : bytes_eq new.path_name path ≡ bytes_eq x.path_name path =
        ap (λ t. bytes_eq t path) (same_path x new d) in
      elim (Bool-cases (bytes_eq x.path_name path)) [
        | inl y ↦ rw (z, y, d) refl
        | inr n ↦ rw (z, n) ih
      ]

  pub run-get :
      (xs : IndexMap) {l : List IndexEntry}
      → IsMap xs
      → run decide xs ≡ objects l
      → (path : Bytes) → result (get path l) ≡ of_entry decide (get path xs)
  unfolding run get of_entry of_decision
  run-get [] m h path = rw (← objects_inj h) refl
  run-get (x ∷ xs) {l} (fresh, m) h path = elim (Decision-cases (decide x)) [
    | refuses e d ↦ cc (rw (d, run) at h)
    | leaves d ↦
        let ih = run-get xs m (rw (d, run) at h) path in
        elim (Bool-cases (bytes_eq x.path_name path)) [
          | inl y ↦
              rw (y, get) (rw (d, of_decision) (rw (at_head x xs path y fresh, of_entry) at ih))
          | inr n ↦ rw (n, get) ih
        ]
    | appends new d ↦ elim (Merged-cases (run decide xs)) [
      | inr (e, r) ↦ cc (rw (d, r, run) at h)
      | inl (k, r) ↦
          rw (← objects_inj (rw (d, r, run) at h))
            (appended x new d k xs path fresh (run-get xs m r path))
    ]
  ]

module _ (decide : IndexEntry → Decision) where
  later :
      (x e : IndexEntry) (xs : IndexMap)
      → get x.path_name xs ≡ none
      → get e.path_name xs ≡ some e
      → get e.path_name (x ∷ xs) ≡ some e
  unfolding get
  later x e xs fresh h = elim (Bool-cases (bytes_eq x.path_name e.path_name)) [
    | inl y ↦ cc (h, rw ((bytes_eq_iff x.path_name e.path_name).0 y) at fresh)
    | inr n ↦ rw n h
  ]

  first : (x : IndexEntry) (xs : IndexMap) → get x.path_name (x ∷ xs) ≡ some x
  unfolding get
  first x xs = rw ((bytes_eq_iff x.path_name x.path_name).1 refl)

  pub run-failed :
      (xs : IndexMap) {x : MergeError}
      → IsMap xs
      → run decide xs ≡ failed x
      → (e : IndexEntry) × (get e.path_name xs ≡ some e) × (of_decision (decide e) ≡ fail)
  unfolding run of_decision
  run-failed [] m h = cc
  run-failed (e ∷ xs) (fresh, m) h = elim (Decision-cases (decide e)) [
    | refuses x d ↦ (e, first e xs, rw d refl)
    | leaves d ↦ let (u, k, f) = run-failed xs m (rw (d, run) at h) in (u, later e u xs fresh k, f)
    | appends new d ↦ elim (Merged-cases (run decide xs)) [
      | inl (k, r) ↦ cc (rw (d, r, run) at h)
      | inr (y, r) ↦ let (u, k, f) = run-failed xs m r in (u, later e u xs fresh k, f)
    ]
  ]
