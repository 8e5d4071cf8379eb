-- ===== src/Commits/Rule.antt =====
-- A rule for the runs of `revListCallback`: what the callback and the growing exclude list keep, the
-- run keeps.
use dgit.Prelude.{ℕ, zero, suc, inl, inr, List, [], ◌∷◌, Bytes, Bool-cases, Option-cases}
use dgit.Commits.{Store, has, parents}
use dgit.Commits.RevList.{
  Walk, Callback, Walked, running, max_count_error, failed, unfinished, exclude, call, visit, walk,
}
use dgit.Commits.Call.{Walked-cases}

-- `P` of the walk of a run that goes on, and `Q` of one that the count ended.
abbrev pub Holds : (Walk → Type 0) → (Walk → Type 0) → Walked → Type 0
Holds P Q (running w) = P w
Holds P Q (max_count_error w) = Q w
Holds P Q failed = Unit {0}
Holds P Q unfinished = Unit {0}

module _ (c : Store) (cb : Callback) (P Q : Walk → Type 0)
    (called : (x : Bytes) (w : Walk) → P w → Holds P Q (call cb x w))
    (excluded : (x : Bytes) (w : Walk) → P w → P (exclude x w)) where
  visit-Holds :
      (recur : List Bytes → Walk → Walked)
      → ((ps : List Bytes) (u : Walk) → P u → Holds P Q (recur ps u))
      → (xs : List Bytes) (w : Walk) → P w
      → Holds P Q (visit c cb recur xs w)
  unfolding visit
  visit-Holds recur ih [] w h = h
  visit-Holds recur ih (x ∷ xs) w h = elim (Bool-cases (has x w.excluded)) [
    | inl y ↦ rw (y, visit, Holds) (visit-Holds recur ih xs w h)
    | inr n ↦
        let a = called x w h in
        elim (Walked-cases (call cb x w)) [
          | inr (inl (u, e)) ↦ rw (n, e, visit, Holds) (rw e at a)
          | inr (inr (inl e)) ↦ rw (n, e, visit, Holds) tt
          | inr (inr (inr e)) ↦ rw (n, e, visit, Holds) tt
          | inl (w1, e) ↦ elim (Option-cases (parents c x)) [
            | inl p ↦ rw (n, e, p, visit, Holds) tt
            | inr (ps, p) ↦
                let b = ih ps (exclude x w1) (excluded x w1 (rw e at a)) in
                elim (Walked-cases (recur ps (exclude x w1))) [
                  | inr (inl (u, f)) ↦ rw (n, e, p, f, visit, Holds) (rw f at b)
                  | inr (inr (inl f)) ↦ rw (n, e, p, f, visit, Holds) tt
                  | inr (inr (inr f)) ↦ rw (n, e, p, f, visit, Holds) tt
                  | inl (w3, f) ↦
                      rw (n, e, p, f, visit, Holds) (visit-Holds recur ih xs w3 (rw f at b))
                ]
          ]
        ]
  ]

  pub walk-Holds : (fuel : ℕ) (xs : List Bytes) (w : Walk) → P w → Holds P Q (walk c fuel cb xs w)
  unfolding walk
  walk-Holds zero xs w h = tt
  walk-Holds (suc fuel) xs w h = visit-Holds (walk c fuel cb) (walk-Holds fuel) xs w h
