-- ===== src/Commits/Visit.antt =====
-- What one run of `revListCallback` visits: the exclude list grows by commits that parent links
-- reach, and stays closed under parents where it was.
use dgit.Prelude.{
  ℕ, zero, suc, ◌≡◌, ◌⊎◌, inl, inr, subst, true, false, not, ◌&&◌, ◌||◌, List, [], ◌∷◌, Bytes,
  bytes_eq, bytes_eq_iff, Bool-cases, Option-cases, some, arith,
}
use dgit.Commits.{Store, has, parents}
use dgit.Commits.Ancestors.{Reaches, here, up}
use dgit.Commits.RevList.{Walk, Callback, Walked, running, exclude, call, visit, walk}
use dgit.Commits.Call.{reports, IsDistinct, running_inj, Walked-cases, Called, call-Called}

module _ (c : Store) where
  -- The parents of the commit are in the list.
  pub record Closed (k : Bytes) (m : List Bytes) : Type 0 where
    pub ps : List Bytes
    pub known : parents c k ≡ some ps
    pub inside : (p : Bytes) → has p ps ≡ true → has p m ≡ true

  -- A commit of the list reaches `k`.
  pub record From (xs : List Bytes) (k : Bytes) : Type 0 where
    pub start : Bytes
    pub among : has start xs ≡ true
    pub reached : Reaches c start k

  -- A run over `xs` from `w` to `v`.
  pub record Visited (cb : Callback) (xs : List Bytes) (w v : Walk) : Type 0 where
    pub grows : (k : Bytes) → has k w.excluded ≡ true → has k v.excluded ≡ true
    pub covers : (k : Bytes) → has k xs ≡ true → has k v.excluded ≡ true
    pub closed :
        (k : Bytes) → has k w.excluded ≡ false → has k v.excluded ≡ true → Closed k v.excluded
    pub sound : (k : Bytes) → has k w.excluded ≡ false → has k v.excluded ≡ true → From xs k
    pub vals :
        (k : Bytes)
        → has k v.vals
          ≡ (has k w.vals || (reports cb && (has k v.excluded && not (has k w.excluded))))
    pub distinct :
        ((k : Bytes) → has k w.vals ≡ true → has k w.excluded ≡ true)
        → IsDistinct w.vals
        → IsDistinct v.vals

  pub Visited-nothing : (cb : Callback) (w : Walk) → Visited cb [] w w
  unfolding has
  Visited-nothing cb w = record {
    grows = λ k h. h;
    covers = λ k h. cc h;
    closed = λ k h i. cc (h, i);
    sound = λ k h i. cc (h, i);
    vals = λ k. ground arith;
    distinct = λ s d. d;
  }

  -- The first commit of the list is excluded already.
  Visited-skip :
      (cb : Callback) (x : Bytes) (xs : List Bytes) (w v : Walk)
      → has x w.excluded ≡ true
      → Visited cb xs w v
      → Visited cb (x ∷ xs) w v
  unfolding has
  Visited-skip cb x xs w v y r = record {
    grows = r.grows;
    covers = λ k h. ground (arith, r.covers k, r.grows x, bytes_eq_iff x k);
    closed = r.closed;
    sound = λ k h i.
        let f = r.sound k h i in
        record { start = f.start; among = ground (arith, f.among); reached = f.reached };
    vals = r.vals;
    distinct = r.distinct;
  }

  -- The callback, the run over the parents, and the run over the rest.
  Visited-cons :
      (cb : Callback) (x : Bytes) (ps xs : List Bytes) (w w2 w3 v : Walk)
      → has x w.excluded ≡ false
      → parents c x ≡ some ps
      → Called cb x w w2
      → Visited cb ps w2 w3
      → Visited cb xs w3 v
      → Visited cb (x ∷ xs) w v
  unfolding has
  Visited-cons cb x ps xs w w2 w3 v new par a r s = record {
    grows = λ k h. s.grows k (r.grows k (ground (arith, a.excluded k)));
    covers = covers;
    closed = closed;
    sound = sound;
    vals = λ k.
        ground (arith, a.vals k, a.excluded k, r.vals k, s.vals k, r.grows k, s.grows k, fresh k);
    distinct = λ sub d.
        s.distinct (inside3 sub) (r.distinct (inside2 sub) (a.distinct (unreported sub) d));
  }
    where
      covers : (k : Bytes) → has k (x ∷ xs) ≡ true → has k v.excluded ≡ true
      covers k h = elim (Bool-cases (bytes_eq x k)) [
        | inl y ↦ s.grows k (r.grows k (ground (arith, a.excluded k)))
        | inr n ↦ s.covers k (ground arith)
      ]

      fresh : (k : Bytes) → bytes_eq x k ≡ true → has k w.excluded ≡ false
      fresh k e = subst (λ (t : Bytes). has t w.excluded ≡ false) ((bytes_eq_iff x k).0 e) new

      first :
          (k : Bytes)
          → has k w.excluded ≡ false
          → has k w3.excluded ≡ true
          → (x ≡ k) ⊎ (has k w2.excluded ≡ false)
      first k h i = elim (Bool-cases (bytes_eq x k)) [
        | inl y ↦ inl ((bytes_eq_iff x k).0 y)
        | inr n ↦ inr (ground (arith, a.excluded k))
      ]

      closed :
          (k : Bytes) → has k w.excluded ≡ false → has k v.excluded ≡ true → Closed k v.excluded
      closed k h i = elim (Bool-cases (has k w3.excluded)) [
        | inr n ↦ s.closed k n i
        | inl y ↦ elim (first k h y) [
          | inl e ↦ record {
            ps = ps;
            known = subst (λ (t : Bytes). parents c t ≡ some ps) e par;
            inside = λ p q. s.grows p (r.covers p q);
          }
          | inr n ↦
              let f = r.closed k n y in
              record { ps = f.ps; known = f.known; inside = λ p q. s.grows p (f.inside p q) }
        ]
      ]

      sound : (k : Bytes) → has k w.excluded ≡ false → has k v.excluded ≡ true → From (x ∷ xs) k
      sound k h i = elim (Bool-cases (has k w3.excluded)) [
        | inr n ↦
            let f = s.sound k n i in
            record { start = f.start; among = ground (arith, f.among); reached = f.reached }
        | inl y ↦ elim (first k h y) [
          | inl e ↦ record {
            start = x;
            among = ground (arith, bytes_eq_iff x x);
            reached = subst (Reaches c x) e (here x);
          }
          | inr n ↦
              let f = r.sound k n y in
              record {
                start = x;
                among = ground (arith, bytes_eq_iff x x);
                reached = up x f.start k ps par f.among f.reached;
              }
        ]
      ]

      unreported :
          ((k : Bytes) → has k w.vals ≡ true → has k w.excluded ≡ true) → has x w.vals ≡ false
      unreported sub = ground (arith, sub x)

      inside2 :
          ((k : Bytes) → has k w.vals ≡ true → has k w.excluded ≡ true)
          → (k : Bytes) → has k w2.vals ≡ true
          → has k w2.excluded ≡ true
      inside2 sub k h = ground (arith, sub k, a.vals k, a.excluded k)

      inside3 :
          ((k : Bytes) → has k w.vals ≡ true → has k w.excluded ≡ true)
          → (k : Bytes) → has k w3.vals ≡ true
          → has k w3.excluded ≡ true
      inside3 sub k h = ground (arith, inside2 sub k, r.vals k, r.grows k)

  -- What the recursive call does, at every list.
  visit-Visited :
      (cb : Callback) (recur : List Bytes → Walk → Walked)
      → ((ps : List Bytes) (u w : Walk) → recur ps u ≡ running w → Visited cb ps u w)
      → (xs : List Bytes) (w v : Walk) → visit c cb recur xs w ≡ running v
      → Visited cb xs w v
  unfolding visit
  visit-Visited cb recur ih [] w v e =
      subst (Visited cb [] w) (running_inj e) (Visited-nothing cb w)
  visit-Visited cb recur ih (x ∷ xs) w v e = elim (Bool-cases (has x w.excluded)) [
    | inl y ↦ Visited-skip cb x xs w v y (visit-Visited cb recur ih xs w v (rw (y, visit) at e))
    | inr n ↦ elim (Walked-cases (call cb x w)) [
      | inr (inl (u, bad)) ↦ cc (rw (n, bad, visit) at e)
      | inr (inr (inl bad)) ↦ cc (rw (n, bad, visit) at e)
      | inr (inr (inr bad)) ↦ cc (rw (n, bad, visit) at e)
      | inl (w1, called) ↦ elim (Option-cases (parents c x)) [
        | inl p ↦ cc (rw (n, called, p, visit) at e)
        | inr (ps, p) ↦ elim (Walked-cases (recur ps (exclude x w1))) [
          | inr (inl (u, bad)) ↦ cc (rw (n, called, p, bad, visit) at e)
          | inr (inr (inl bad)) ↦ cc (rw (n, called, p, bad, visit) at e)
          | inr (inr (inr bad)) ↦ cc (rw (n, called, p, bad, visit) at e)
          | inl (w3, ran) ↦
              Visited-cons cb x ps xs w (exclude x w1) w3 v n p (call-Called cb x w w1 called)
                (ih ps (exclude x w1) w3 ran)
                (visit-Visited cb recur ih xs w3 v (rw (n, called, p, ran, visit) at e))
        ]
      ]
    ]
  ]

  -- The whole run.
  pub walk-Visited :
      (fuel : ℕ) (cb : Callback) (xs : List Bytes) (w v : Walk)
      → walk c fuel cb xs w ≡ running v
      → Visited cb xs w v
  unfolding walk
  walk-Visited zero cb xs w v e = cc e
  walk-Visited (suc fuel) cb xs w v e =
      visit-Visited cb (walk c fuel cb) (walk-Visited fuel cb) xs w v e
