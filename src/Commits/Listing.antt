-- ===== src/Commits/Listing.antt =====
-- What `RevList` lists.
use dgit.Prelude.{
  ℕ, ◌≡◌, ◌≢◌, ◌↔◌, inl, inr, refl, sym, subst, ◌∙◌, true, false, List, [], ◌∷◌, Bytes, Bool-cases,
  Option, none, some_inj, arith,
}
use dgit.Commits.{Store, has}
use dgit.Commits.Ancestors.{Reaches, here, up}
use dgit.Commits.RevList.{
  Walk, Callback, build_exclude_list, count_and_report, max_count_error, call, walk, listed,
  nothing_yet, finish, rev_list,
}
use dgit.Commits.Rule.{Holds, walk-Holds}
use dgit.Commits.Call.{reports, IsDistinct, Walked-cases}
use dgit.Commits.Visit.{Closed, From, Visited, Visited-nothing, walk-Visited}

pub listed_inj : {v w : List Bytes} → listed v ≡ listed w → v ≡ w
listed_inj e = cc

module _ (c : Store) where
  -- A closed list has all that its commits reach.
  reached_inside :
      (m : List Bytes)
      → ((k : Bytes) → has k m ≡ true → Closed c k m)
      → (s k : Bytes) → has s m ≡ true
      → Reaches c s k
      → has k m ≡ true
  reached_inside m closed _ _ h (here s) = h
  reached_inside m closed _ _ h (up s p k ps e among r) =
      let f = closed s h in
      reached_inside m closed p k
        (f.inside p (subst (λ (t : List Bytes). has p t ≡ true) (some_inj (sym e ∙ f.known)) among))
        r

  -- The exclude list after its own run: closed, and made of what the excludes reach.
  record Excluded (excludes : List Bytes) (w : Walk) : Type 0 where
    closed : (k : Bytes) → has k w.excluded ≡ true → Closed c k w.excluded
    exact : (k : Bytes) → (has k w.excluded ≡ true) ↔ From c excludes k
    silent : (k : Bytes) → has k w.vals ≡ false
    distinct : IsDistinct w.vals

  Visited-Excluded :
      (xs : List Bytes) (w : Walk) → Visited c build_exclude_list xs nothing_yet w → Excluded xs w
  unfolding has reports
  Visited-Excluded xs w r = record {
    closed = closed;
    exact = λ k. (
      r.sound k refl,
      λ f. reached_inside w.excluded closed f.start k (r.covers f.start f.among) f.reached,
    );
    silent = λ k. ground (arith, r.vals k);
    distinct = r.distinct (λ k h. cc h) tt;
  }
    where
      closed : (k : Bytes) → has k w.excluded ≡ true → Closed c k w.excluded
      closed k h = r.closed k refl h

  walk-Closed :
      (cb : Callback) (xs : List Bytes) (w v : Walk)
      → ((k : Bytes) → has k w.excluded ≡ true → Closed c k w.excluded)
      → Visited c cb xs w v
      → (k : Bytes) → has k v.excluded ≡ true
      → Closed c k v.excluded
  walk-Closed cb xs w v old r k h = elim (Bool-cases (has k w.excluded)) [
    | inl y ↦
        let f = old k y in
        record { ps = f.ps; known = f.known; inside = λ p q. r.grows p (f.inside p q) }
    | inr n ↦ r.closed k n h
  ]

  -- The list of the second run.
  record Lists (includes excludes vals : List Bytes) : Type 0 where
    distinct : IsDistinct vals
    exact : (k : Bytes) → (has k vals ≡ true) ↔ (From c includes k × ¬ From c excludes k)

  both_runs :
      (includes excludes : List Bytes) (max : Option ℕ) (w v : Walk)
      → Excluded excludes w
      → Visited c (count_and_report max) includes w v
      → Lists includes excludes v.vals
  unfolding reports
  both_runs includes excludes max w v x r = record {
    distinct = r.distinct (λ k h. cc (h, x.silent k)) x.distinct;
    exact = λ k. (to k, λ t. back k t.0 t.1);
  }
    where
      to : (k : Bytes) → has k v.vals ≡ true → From c includes k × ¬ From c excludes k
      to k h =
          let new : has k w.excluded ≡ false = ground (arith, r.vals k, x.silent k) in
          (r.sound k new (ground (arith, r.vals k, x.silent k)), λ f. cc (new, (x.exact k).1 f))

      back : (k : Bytes) → From c includes k → ¬ From c excludes k → has k v.vals ≡ true
      back k f n =
          let inside =
            reached_inside v.excluded (walk-Closed (count_and_report max) includes w v x.closed r)
              f.start k (r.covers f.start f.among) f.reached in
          elim (Bool-cases (has k w.excluded)) [
            | inl y ↦ absurd (n ((x.exact k).0 y))
            | inr new ↦ ground (arith, r.vals k)
          ]

  -- Every run that lists has run over the excludes, if there are any, and then over the includes.
  record Runs (fuel : ℕ) (max : Option ℕ) (includes excludes vals : List Bytes) : Type 0 where
    w : Walk
    first : Visited c build_exclude_list excludes nothing_yet w
    second : finish (walk c fuel (count_and_report max) includes w) ≡ listed vals

  rev_list-Runs :
      (fuel : ℕ) (max : Option ℕ) (includes excludes : List Bytes) {vals : List Bytes}
      → rev_list c fuel max includes excludes ≡ listed vals
      → Runs fuel max includes excludes vals
  unfolding rev_list
  rev_list-Runs fuel max includes [] e = record {
    w = nothing_yet;
    first = Visited-nothing c build_exclude_list nothing_yet;
    second = e;
  }
  rev_list-Runs fuel max includes (x ∷ xs) e =
      elim (Walked-cases (walk c fuel build_exclude_list (x ∷ xs) nothing_yet)) [
        | inl (w, f) ↦ record {
          w = w;
          first = walk-Visited c fuel build_exclude_list (x ∷ xs) nothing_yet w f;
          second = rw (f, rev_list) at e;
        }
        | inr (inl (w, f)) ↦ cc (rw (f, rev_list) at e)
        | inr (inr (inl f)) ↦ cc (rw (f, rev_list) at e)
        | inr (inr (inr f)) ↦ cc (rw (f, rev_list) at e)
      ]

  never_max :
      (fuel : ℕ) (xs : List Bytes) (w v : Walk)
      → walk c fuel (count_and_report none) xs w ≢ max_count_error v
  unfolding call
  never_max fuel xs w v e = cc (
      rw e at (
        walk-Holds c (count_and_report none) (λ u. Unit {0}) (λ u. true ≡ false) never_called
          (λ x u h. tt) fuel xs w tt))
    where
      never_called :
          (x : Bytes) (u : Walk)
          → Unit {0}
          → Holds (λ u. Unit {0}) (λ u. true ≡ false) (call (count_and_report none) x u)
      never_called x u h = tt

  -- Without MaxCount, a list that `RevList` returns has no commit twice, and has exactly the commits
  -- that parent links reach from an include and from no exclude.
  pub rev_list-exact :
      (fuel : ℕ) (includes excludes : List Bytes) {vals : List Bytes}
      → rev_list c fuel none includes excludes ≡ listed vals
      → IsDistinct vals
        × ((k : Bytes) → (has k vals ≡ true) ↔ (From c includes k × ¬ From c excludes k))
  unfolding finish
  rev_list-exact fuel includes excludes {vals} e =
      let r = rev_list-Runs fuel none includes excludes e in
      let x = Visited-Excluded excludes r.w r.first in
      elim (Walked-cases (walk c fuel (count_and_report none) includes r.w)) [
        | inl (v, f) ↦
            let l =
              both_runs includes excludes none r.w v x
                (walk-Visited c fuel (count_and_report none) includes r.w v f) in
            subst
              (λ (t : List Bytes).
                IsDistinct t
                × ((k : Bytes) → (has k t ≡ true) ↔ (From c includes k × ¬ From c excludes k)))
              (listed_inj (rw (f, finish) at r.second)) (l.distinct, l.exact)
        | inr (inl (v, f)) ↦ absurd (never_max fuel includes r.w v f)
        | inr (inr (inl f)) ↦ cc (rw (f, finish) at r.second)
        | inr (inr (inr f)) ↦ cc (rw (f, finish) at r.second)
      ]
