-- ===== src/Commits/Ending.antt =====
-- `RevList` ends on a history without cycles.
use dgit.Prelude.{
  ℕ, zero, suc, ◌+◌, ◌<◌, ◌≡◌, ◌≢◌, inl, inr, refl, true, List, [], ◌∷◌, Bytes, bytes_eq_iff, ltb,
  Bool-cases, Option, Option-cases, none, some, arith,
}
use dgit.Commits.{Store, has, parents}
use dgit.Commits.RevList.{
  Walk, Callback, build_exclude_list, count_and_report, Walked, running, max_count_error, failed,
  unfinished, exclude, call, visit, walk, list_unfinished, nothing_yet, finish, rev_list,
}
use dgit.Commits.Call.{Walked-cases}

call-ne-unfinished : (cb : Callback) (x : Bytes) (w : Walk) → call cb x w ≢ unfinished
unfolding call
call-ne-unfinished build_exclude_list x w e = elim (Bool-cases (has x w.excluded)) [
  | inl y ↦ cc (rw (y, call) at e)
  | inr n ↦ cc (rw (n, call) at e)
]
call-ne-unfinished (count_and_report none) x w e = cc e
call-ne-unfinished (count_and_report (some max)) x w e =
    elim (Bool-cases (ltb max (w.callback_count + 1))) [
      | inl y ↦ cc (rw (y, call) at e)
      | inr n ↦ cc (rw (n, call) at e)
    ]

finish-ne-unfinished : (r : Walked) → r ≢ unfinished → finish r ≢ list_unfinished
unfolding finish
finish-ne-unfinished (running w) n e = cc e
finish-ne-unfinished (max_count_error w) n e = cc e
finish-ne-unfinished failed n e = cc e
finish-ne-unfinished unfinished n e = n refl

-- A rank that falls from a commit to its parents: no cycles.
module _ (c : Store) (rank : Bytes → ℕ)
    (descends : (s p : Bytes) (ps : List Bytes)
      → parents c s ≡ some ps
      → has p ps ≡ true
      → rank p < rank s) where
  abbrev Below : ℕ → List Bytes → Type 0
  Below n xs = (x : Bytes) → has x xs ≡ true → rank x < n

  visit-ne-unfinished :
      (n : ℕ) (cb : Callback) (recur : List Bytes → Walk → Walked)
      → ((s : Bytes) (ps : List Bytes) (w : Walk)
          → rank s < n
          → parents c s ≡ some ps
          → recur ps w ≢ unfinished)
      → (xs : List Bytes) (w : Walk) → Below n xs
      → visit c cb recur xs w ≢ unfinished
  unfolding visit has
  visit-ne-unfinished n cb recur ih [] w h e = cc e
  visit-ne-unfinished n cb recur ih (x ∷ xs) w h e = elim (Bool-cases (has x w.excluded)) [
    | inl y ↦ visit-ne-unfinished n cb recur ih xs w rest (rw (y, visit) at e)
    | inr new ↦ elim (Walked-cases (call cb x w)) [
      | inr (inl (u, f)) ↦ cc (rw (new, f, visit) at e)
      | inr (inr (inl f)) ↦ cc (rw (new, f, visit) at e)
      | inr (inr (inr f)) ↦ call-ne-unfinished cb x w f
      | inl (w1, f) ↦ elim (Option-cases (parents c x)) [
        | inl p ↦ cc (rw (new, f, p, visit) at e)
        | inr (ps, p) ↦ elim (Walked-cases (recur ps (exclude x w1))) [
          | inl (w3, g) ↦
              visit-ne-unfinished n cb recur ih xs w3 rest (rw (new, f, p, g, visit) at e)
          | inr (inl (u, g)) ↦ cc (rw (new, f, p, g, visit) at e)
          | inr (inr (inl g)) ↦ cc (rw (new, f, p, g, visit) at e)
          | inr (inr (inr g)) ↦ ih x ps (exclude x w1) (h x (ground (arith, bytes_eq_iff x x))) p g
        ]
      ]
    ]
  ]
    where
      rest : Below n xs
      rest y m = h y (ground arith)

  walk-ne-unfinished :
      (n : ℕ) (cb : Callback) (xs : List Bytes) (w : Walk)
      → Below n xs
      → walk c (suc n) cb xs w ≢ unfinished
  unfolding walk
  walk-ne-unfinished zero cb xs w h =
      visit-ne-unfinished zero cb (walk c zero cb) (λ s ps u l p. absurd (omega (arith, l))) xs w h
  walk-ne-unfinished (suc n) cb xs w h =
      visit-ne-unfinished (suc n) cb (walk c (suc n) cb)
        (λ s ps u l p. walk-ne-unfinished n cb ps u (λ x m. omega (arith, l, descends s x ps p m)))
        xs w h

  -- On a history without cycles, where every commit's rank is above its parents' ranks, `RevList` ends
  -- for fuel more than one above the ranks of the includes and of the excludes.
  pub rev_list-ne-unfinished :
      (n : ℕ) (max : Option ℕ) (includes excludes : List Bytes)
      → ((x : Bytes) → has x includes ≡ true → rank x < n)
      → ((x : Bytes) → has x excludes ≡ true → rank x < n)
      → rev_list c (suc n) max includes excludes ≢ list_unfinished
  unfolding rev_list
  rev_list-ne-unfinished n max includes [] i x e =
      finish-ne-unfinished _ (walk-ne-unfinished n (count_and_report max) includes nothing_yet i) e
  rev_list-ne-unfinished n max includes (y ∷ ys) i x e =
      elim (Walked-cases (walk c (suc n) build_exclude_list (y ∷ ys) nothing_yet)) [
        | inl (w, f) ↦
            finish-ne-unfinished _ (walk-ne-unfinished n (count_and_report max) includes w i)
              (rw (f, rev_list) at e)
        | inr (inl (w, f)) ↦ cc (rw (f, rev_list) at e)
        | inr (inr (inl f)) ↦ cc (rw (f, rev_list) at e)
        | inr (inr (inr f)) ↦ walk-ne-unfinished n build_exclude_list (y ∷ ys) nothing_yet x f
      ]
