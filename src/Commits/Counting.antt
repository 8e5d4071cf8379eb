-- ===== src/Commits/Counting.antt =====
-- The option MaxCount of `RevList`, and its end on a history without cycles.
use dgit.Prelude.{
  ℕ, ◌+◌, ◌≤◌, ◌≡◌, inl, inr, refl, subst, List, [], ◌∷◌, Bytes, ltb, ltb-false→le, Bool-cases,
  some, length, length-append, arith,
}
use dgit.Commits.{Store, has}
use dgit.Commits.RevList.{
  Walk, build_exclude_list, count_and_report, Walked, running, max_count_error, failed, unfinished,
  exclude, report, call, walk, listed, nothing_yet, finish, rev_list,
}
use dgit.Commits.Call.{Walked-cases}
use dgit.Commits.Rule.{Holds, walk-Holds}
use dgit.Commits.Listing.{listed_inj}

-- The callback's count is the number of values, and at most the option's.
record Counts (max : ℕ) (w : Walk) : Type 0 where
  counted : length w.vals ≡ w.callback_count
  bounded : w.callback_count ≤ max

abbrev Fits : ℕ → Walk → Type 0
Fits max w = length w.vals ≤ max

exclude-Counts : (max : ℕ) (x : Bytes) (w : Walk) → Counts max w → Counts max (exclude x w)
unfolding exclude
exclude-Counts max x w h = record { counted = h.counted; bounded = h.bounded }

report-Counts :
    (max : ℕ) (x : Bytes) (w : Walk)
    → Counts max w
    → Holds (Counts max) (Fits max) (call (count_and_report (some max)) x w)
unfolding call report
report-Counts max x w h = elim (Bool-cases (ltb max (w.callback_count + 1))) [
  | inl y ↦ rw (y, call, Holds) (omega (arith, h.counted, h.bounded))
  | inr n ↦
      rw (n, call, Holds)
        (record {
          counted = omega (arith, h.counted, length-append w.vals (x ∷ []));
          bounded = ltb-false→le max (w.callback_count + 1) n;
        })
]

build-Counts :
    (max : ℕ) (x : Bytes) (w : Walk)
    → Counts max w
    → Holds (Counts max) (Fits max) (call build_exclude_list x w)
unfolding call
build-Counts max x w h = elim (Bool-cases (has x w.excluded)) [
  | inl y ↦ rw (y, call, Holds) h
  | inr n ↦ rw (n, call, Holds) (exclude-Counts max x w h)
]

module _ (c : Store) (fuel max : ℕ) where
  build_walk :
      (xs : List Bytes) (w : Walk)
      → Counts max w
      → Holds (Counts max) (Fits max) (walk c fuel build_exclude_list xs w)
  build_walk =
      walk-Holds c build_exclude_list (Counts max) (Fits max) (build-Counts max)
        (exclude-Counts max) fuel

  report_walk :
      (xs : List Bytes) (w : Walk)
      → Counts max w
      → Holds (Counts max) (Fits max) (walk c fuel (count_and_report (some max)) xs w)
  report_walk =
      walk-Holds c (count_and_report (some max)) (Counts max) (Fits max) (report-Counts max)
        (exclude-Counts max) fuel

  nothing-Counts : Counts max nothing_yet
  nothing-Counts = record { counted = refl; bounded = omega arith }

  finish-Fits :
      (r : Walked)
      → Holds (Counts max) (Fits max) r
      → {vals : List Bytes} → finish r ≡ listed vals
      → length vals ≤ max
  unfolding finish
  finish-Fits (running w) h e =
      subst (λ (t : List Bytes). length t ≤ max) (listed_inj e)
        (omega (arith, h.counted, h.bounded))
  finish-Fits (max_count_error w) h e = subst (λ (t : List Bytes). length t ≤ max) (listed_inj e) h
  finish-Fits failed h e = cc e
  finish-Fits unfinished h e = cc e

  -- With MaxCount, a list that `RevList` returns is no longer than the option says.
  pub length-rev_list :
      (includes excludes : List Bytes) {vals : List Bytes}
      → rev_list c fuel (some max) includes excludes ≡ listed vals
      → length vals ≤ max
  unfolding rev_list
  length-rev_list includes [] e = finish-Fits _ (report_walk includes nothing_yet nothing-Counts) e
  length-rev_list includes (x ∷ xs) e =
      let h = build_walk (x ∷ xs) nothing_yet nothing-Counts in
      elim (Walked-cases (walk c fuel build_exclude_list (x ∷ xs) nothing_yet)) [
        | inl (w, f) ↦ finish-Fits _ (report_walk includes w (rw f at h)) (rw (f, rev_list) at e)
        | inr (inl (w, f)) ↦ cc (rw (f, rev_list) at e)
        | inr (inr (inl f)) ↦ cc (rw (f, rev_list) at e)
        | inr (inr (inr f)) ↦ cc (rw (f, rev_list) at e)
      ]
