-- ===== src/PackIndex/Lookup.antt =====
-- The search in rows whose first bytes do not fall, from where the fanout table says.
use dgit.Prelude.{
  ℕ, zero, suc, ◌≤◌, ◌<◌, ◌≡◌, inl, inr, refl, sym, ap, ◌∙◌, subst, Bool, true, false, List, [],
  ◌∷◌, Bytes, bytes_eq, bytes_eq_iff, ◌==◌, ==_iff, leb, length, Bool-cases, Option-cases, some,
  some_inj, All, arith,
}
use mathlib.Core.List.{Memᴰ}
use mathlib.Core.List.Memᴰ.{head, tail}
use dgit.PackIndex.{Row, first, element}
use dgit.PackIndex.Search.{has_down, found, find_down}
use dgit.PackIndex.Sorted.{count, IsOrdered}

element_below : (rows : List Row) (i : ℕ) → i < length rows → (r : Row) × (element rows i ≡ some r)
unfolding element
element_below [] i h = absurd (omega arith)
element_below (x ∷ rows) zero h = (x, refl)
element_below (x ∷ rows) (suc i) h = element_below rows i (omega arith)

pub element_mem : (rows : List Row) (i : ℕ) (r : Row) → element rows i ≡ some r → Memᴰ r rows
unfolding element
element_mem [] i r e = cc e
element_mem (x ∷ rows) zero r e = head (sym (some_inj e))
element_mem (x ∷ rows) (suc i) r e = tail (element_mem rows i r e)

-- Where a row stands.
record Stands (rows : List Row) (r : Row) : Type 0 where
  place : ℕ
  there : element rows place ≡ some r

mem_element : (rows : List Row) (r : Row) → Memᴰ r rows → Stands rows r
unfolding element
mem_element [] r m = elim m [ ]
mem_element (x ∷ rows) r (head e) = record { place = 0; there = ap some (sym e) }
mem_element (x ∷ rows) r (tail m) =
    let s = mem_element rows r m in record { place = suc s.place; there = s.there }

pub count_le : (k : ℕ) (rows : List Row) → count k rows ≤ length rows
count_le k [] = omega arith
count_le k (x ∷ rows) = ground (arith, count_le k rows)

count_none :
    (k b : ℕ) (rows : List Row) → k < b → All (λ y. b ≤ first y.sha1) rows → count k rows ≡ 0
count_none k b [] h t = refl
count_none k b (x ∷ rows) h (l, t) = ground (arith, count_none k b rows h t)

All-element :
    (b : ℕ) (rows : List Row) (i : ℕ) (r : Row)
    → All (λ y. b ≤ first y.sha1) rows
    → element rows i ≡ some r
    → b ≤ first r.sha1
unfolding element
All-element b [] i r h e = cc e
All-element b (x ∷ rows) zero r (h, t) e = subst (λ (y : Row). b ≤ first y.sha1) (some_inj e) h
All-element b (x ∷ rows) (suc i) r (h, t) e = All-element b rows i r t e

-- The rows up to `k` stand in front.
in_front :
    (k : ℕ) (rows : List Row) (i : ℕ) (r : Row)
    → IsOrdered rows
    → element rows i ≡ some r
    → first r.sha1 ≤ k
    → i < count k rows
unfolding element
in_front k [] i r h e l = cc e
in_front k (x ∷ rows) zero r (h, t) e l =
    let m : first x.sha1 ≤ k = subst (λ (y : Row). first y.sha1 ≤ k) (sym (some_inj e)) l in
    ground arith
in_front k (x ∷ rows) (suc i) r (h, t) e l =
    ground (arith, in_front k rows i r t e l, All-element (first x.sha1) rows i r h e)

rising :
    (rows : List Row) (i j : ℕ) (q r : Row)
    → IsOrdered rows
    → i < j
    → element rows i ≡ some q
    → element rows j ≡ some r
    → first q.sha1 ≤ first r.sha1
unfolding element
rising [] i j q r h l e f = cc e
rising (x ∷ rows) i zero q r h l e f = absurd (omega arith)
rising (x ∷ rows) zero (suc j) q r (h, t) l e f =
    subst (λ (y : Row). first y.sha1 ≤ first r.sha1) (some_inj e)
      (All-element (first x.sha1) rows j r h f)
rising (x ∷ rows) (suc i) (suc j) q r (h, t) l e f = rising rows i j q r t (omega arith) e f

up_to_count :
    (k : ℕ) (rows : List Row) (i : ℕ) (r : Row)
    → IsOrdered rows
    → element rows i ≡ some r
    → i < count k rows
    → first r.sha1 ≤ k
unfolding element
up_to_count k [] i r h e l = cc e
up_to_count k (x ∷ rows) i r (h, t) e l = elim (Bool-cases (leb (first x.sha1) k)) [
  | inr n ↦ absurd (ground (arith, count_none k (first x.sha1) rows (ground arith) h))
  | inl y ↦
      elim i as (λ j. element (x ∷ rows) j ≡ some r → j < count k (x ∷ rows) → first r.sha1 ≤ k) [
        | zero ↦ λ e l. subst (λ (z : Row). first z.sha1 ≤ k) (some_inj e) (ground arith)
        | suc j ↦ λ e l. up_to_count k rows j r t e (ground arith)
      ]
        e l
]

-- What a search says: a row of the id, and its place.
pub record Hit (rows : List Row) (s : Bytes) (i : ℕ) : Type 0 where
  pub row : Row
  pub here : element rows i ≡ some row
  pub same : row.sha1 ≡ s

module _ (rows : List Row) (s : Bytes) where
  -- One row of the search.
  found_inj : {i j : ℕ} → found i ≡ found j → i ≡ j
  found_inj e = cc

  pub find_down-Hit : (m i : ℕ) → find_down rows s m ≡ found i → Hit rows s i
  unfolding find_down
  find_down-Hit zero i e = cc e
  find_down-Hit (suc m) i e = elim (Option-cases (element rows m)) [
    | inl n ↦ cc (rw (n, find_down) at e)
    | inr (r, f) ↦ elim (Bool-cases (first r.sha1 == first s)) [
      | inr n ↦ cc (rw (f, n, find_down) at e)
      | inl y ↦ elim (Bool-cases (bytes_eq s r.sha1)) [
        | inr n ↦ find_down-Hit m i (rw (f, y, n, find_down) at e)
        | inl z ↦
            subst (Hit rows s) (found_inj (rw (f, y, z, find_down) at e))
              (record { row = r; here = f; same = sym ((bytes_eq_iff s r.sha1).0 z) })
      ]
    ]
  ]

  -- The loops look at the same rows, and say the same of a row that they find.
  pub has_down-find_down : (m i : ℕ) → find_down rows s m ≡ found i → has_down rows s m ≡ some true
  unfolding has_down find_down
  has_down-find_down zero i e = cc e
  has_down-find_down (suc m) i e = elim (Option-cases (element rows m)) [
    | inl n ↦ cc (rw (n, find_down) at e)
    | inr (r, f) ↦ elim (Bool-cases (first r.sha1 == first s)) [
      | inr n ↦ cc (rw (f, n, find_down) at e)
      | inl y ↦ elim (Bool-cases (bytes_eq s r.sha1)) [
        | inr n ↦ rw (f, y, n, has_down) (has_down-find_down m i (rw (f, y, n, find_down) at e))
        | inl z ↦ rw (f, y, z, has_down)
      ]
    ]
  ]

  pub has_down-Hit : (m : ℕ) → has_down rows s m ≡ some true → (i : ℕ) × Hit rows s i
  unfolding has_down
  has_down-Hit zero e = cc e
  has_down-Hit (suc m) e = elim (Option-cases (element rows m)) [
    | inl n ↦ cc (rw (n, has_down) at e)
    | inr (r, f) ↦ elim (Bool-cases (first r.sha1 == first s)) [
      | inr n ↦ cc (rw (f, n, has_down) at e)
      | inl y ↦ elim (Bool-cases (bytes_eq s r.sha1)) [
        | inr n ↦ has_down-Hit m (rw (f, y, n, has_down) at e)
        | inl z ↦ (m, record { row = r; here = f; same = sym ((bytes_eq_iff s r.sha1).0 z) })
      ]
    ]
  ]

  pub has_down_answers : (m : ℕ) → m ≤ length rows → (b : Bool) × (has_down rows s m ≡ some b)
  unfolding has_down
  has_down_answers zero l = (false, refl)
  has_down_answers (suc m) l =
      let (r, f) = element_below rows m l in
      elim (Bool-cases (first r.sha1 == first s)) [
        | inr n ↦ (false, rw (f, n, has_down))
        | inl y ↦ elim (Bool-cases (bytes_eq s r.sha1)) [
          | inr n ↦ let (b, e) = has_down_answers m (omega arith) in (b, rw (f, y, n, has_down) e)
          | inl z ↦ (true, rw (f, y, z, has_down))
        ]
      ]

  -- A row of the id below `m` is found, where all rows below `m` begin with the id's first byte at most.
  find_down_below :
      IsOrdered rows
      → (m i : ℕ) (r : Row) → m ≤ count (first s) rows
      → i < m
      → element rows i ≡ some r
      → r.sha1 ≡ s
      → (j : ℕ) × (find_down rows s m ≡ found j)
  unfolding find_down
  find_down_below ordered zero i r l h e same = absurd (omega arith)
  find_down_below ordered (suc m) i r l h e same =
      let (q, f) = element_below rows m (omega (arith, count_le (first s) rows)) in
      let under : first q.sha1 ≤ first s = up_to_count (first s) rows m q ordered f (omega arith) in
      elim (Bool-cases (bytes_eq s q.sha1)) [
        | inl z ↦ (
          m,
          rw (
            f,
            (==_iff (first q.sha1) (first s)).1 (ap first (sym ((bytes_eq_iff s q.sha1).0 z))),
            z,
            find_down,
          ),
        )
        | inr n ↦ elim (Bool-cases (i == m)) [
          | inl y ↦
              let one : r ≡ q = some_inj (sym e ∙ ap (element rows) ((==_iff i m).0 y) ∙ f) in
              cc (n, (bytes_eq_iff s q.sha1).1 (sym same ∙ ap (λ (t : Row). t.sha1) one))
          | inr less ↦
              let over : first r.sha1 ≤ first q.sha1 =
                rising rows i m r q ordered (ground arith) e f in
              let (j, g) = find_down_below ordered m i r (omega arith) (ground arith) e same in
              (
                j,
                rw
                    (
                      f,
                      (==_iff (first q.sha1) (first s)).1
                          (omega (arith, under, over, ap first same)),
                      n,
                      find_down,
                    )
                    g,
              )
        ]
      ]

  -- A row of the id is found from where the fanout table says.
  pub find_down-finds :
      IsOrdered rows
      → (r : Row) → Memᴰ r rows
      → r.sha1 ≡ s
      → (j : ℕ) × (find_down rows s (count (first s) rows) ≡ found j)
  find_down-finds ordered r m same =
      let p = mem_element rows r m in
      find_down_below ordered (count (first s) rows) p.place r (omega arith)
        (in_front (first s) rows p.place r ordered p.there (omega (arith, ap first same))) p.there
        same
