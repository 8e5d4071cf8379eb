-- ===== src/PackIndex/Sorted.antt =====
-- The sorted rows, and what the fanout table counts.
use dgit.Prelude.{
  ℕ, zero, suc, ◌+◌, ◌^◌, ◌≤◌, ◌<◌, ◌≡◌, inl, inr, refl, true, false, List, [], ◌∷◌, Bytes, leb,
  if◌then◌else◌, length, Bool-cases, All, arith,
}
use mathlib.Core.List.{Memᴰ}
use mathlib.Core.List.Memᴰ.{head, tail}
use dgit.PackIndex.{Row, first, fanout_at}
use dgit.PackIndex.Build.{PackObject, new_eight, replicate, bump, less_id, insert_row, sort_rows}
use dgit.PackIndex.Tables.{rows_from, bumps}

-- The number of rows whose id begins with `k` at most.
abbrev pub count : ℕ → List Row → ℕ
count k [] = 0
count k (r ∷ rows) = (if leb (first r.sha1) k then 1 else 0) + count k rows

-- The first bytes do not fall.
abbrev pub IsOrdered : List Row → Type 0
IsOrdered [] = Unit {0}
IsOrdered (x ∷ rows) = All (λ y. first x.sha1 ≤ first y.sha1) rows × IsOrdered rows

less_first : (s t : Bytes) → less_id s t ≡ true → first s ≤ first t
unfolding less_id first
less_first s [] h = ground arith
less_first [] (y ∷ t) h = ground arith
less_first (x ∷ s) (y ∷ t) h = ground arith

not_less_first : (x : ℕ) (s t : Bytes) → less_id (x ∷ s) t ≡ false → first t ≤ x
unfolding less_id first
not_less_first x s [] h = omega arith
not_less_first x s (y ∷ t) h = ground arith

not_less : (s t : Bytes) → 0 < length s → less_id s t ≡ false → first t ≤ first s
unfolding first
not_less [] t l h = absurd (omega arith)
not_less (x ∷ s) t l h = not_less_first x s t h

module _ (P : Row → Type 0) where
  pub All-insert_row : (r : Row) (rows : List Row) → P r → All P rows → All P (insert_row r rows)
  unfolding insert_row
  All-insert_row r [] h t = (h, tt)
  All-insert_row r (x ∷ rows) h (k, t) = elim (Bool-cases (less_id r.sha1 x.sha1)) [
    | inl c ↦ rw (c, insert_row) (h, (k, t))
    | inr c ↦ rw (c, insert_row) (k, All-insert_row r rows h t)
  ]

  pub All-sort_rows : (rows : List Row) → All P rows → All P (sort_rows rows)
  unfolding sort_rows
  All-sort_rows [] h = tt
  All-sort_rows (x ∷ rows) (h, t) = All-insert_row x (sort_rows rows) h (All-sort_rows rows t)

raise :
    (a b : ℕ) (rows : List Row)
    → a ≤ b
    → All (λ y. b ≤ first y.sha1) rows
    → All (λ y. a ≤ first y.sha1) rows
raise a b [] h t = tt
raise a b (x ∷ rows) h (k, t) = (omega (arith, h, k), raise a b rows h t)

insert_row-IsOrdered :
    (r : Row) (rows : List Row) → 0 < length r.sha1 → IsOrdered rows → IsOrdered (insert_row r rows)
unfolding insert_row
insert_row-IsOrdered r [] l h = (tt, tt)
insert_row-IsOrdered r (x ∷ rows) l (h, t) = elim (Bool-cases (less_id r.sha1 x.sha1)) [
  | inl c ↦
      let f = less_first r.sha1 x.sha1 c in
      rw (c, insert_row) ((f, raise (first r.sha1) (first x.sha1) rows f h), (h, t))
  | inr c ↦
      rw (c, insert_row)
        (
          All-insert_row (λ y. first x.sha1 ≤ first y.sha1) r rows (not_less r.sha1 x.sha1 l c) h,
          insert_row-IsOrdered r rows l t,
        )
]

pub sort_rows-IsOrdered :
    (rows : List Row) → All (λ r. 0 < length r.sha1) rows → IsOrdered (sort_rows rows)
unfolding sort_rows
sort_rows-IsOrdered [] h = tt
sort_rows-IsOrdered (x ∷ rows) (h, t) =
    insert_row-IsOrdered x (sort_rows rows) h (sort_rows-IsOrdered rows t)

-- Sorting keeps the rows.
count-insert_row :
    (k : ℕ) (r : Row) (rows : List Row) → count k (insert_row r rows) ≡ count k (r ∷ rows)
unfolding insert_row
count-insert_row k r [] = refl
count-insert_row k r (x ∷ rows) = elim (Bool-cases (less_id r.sha1 x.sha1)) [
  | inl c ↦ rw (c, insert_row)
  | inr c ↦ rw (c, insert_row) (omega (arith, count-insert_row k r rows))
]

pub count-sort_rows : (k : ℕ) (rows : List Row) → count k (sort_rows rows) ≡ count k rows
unfolding sort_rows
count-sort_rows k [] = refl
count-sort_rows k (x ∷ rows) =
    omega (arith, count-insert_row k x (sort_rows rows), count-sort_rows k rows)

length-insert_row : (r : Row) (rows : List Row) → length (insert_row r rows) ≡ suc (length rows)
unfolding insert_row
length-insert_row r [] = refl
length-insert_row r (x ∷ rows) = elim (Bool-cases (less_id r.sha1 x.sha1)) [
  | inl c ↦ rw (c, insert_row)
  | inr c ↦ rw (c, insert_row) (omega (arith, length-insert_row r rows))
]

pub length-sort_rows : (rows : List Row) → length (sort_rows rows) ≡ length rows
unfolding sort_rows
length-sort_rows [] = refl
length-sort_rows (x ∷ rows) =
    omega (arith, length-insert_row x (sort_rows rows), length-sort_rows rows)

mem-insert_row : (q r : Row) (rows : List Row) → Memᴰ q (r ∷ rows) → Memᴰ q (insert_row r rows)
unfolding insert_row
mem-insert_row q r [] m = m
mem-insert_row q r (x ∷ rows) m = elim (Bool-cases (less_id r.sha1 x.sha1)) [
  | inl c ↦ rw (c, insert_row) m
  | inr c ↦
      rw (c, insert_row)
        (elim m [
          | head e ↦ tail (mem-insert_row q r rows (head e))
          | tail (head e) ↦ head e
          | tail (tail n) ↦ tail (mem-insert_row q r rows (tail n))
        ])
]

behind :
    (q r x : Row) (rows inserted : List Row)
    → (Memᴰ q inserted → Memᴰ q (r ∷ rows))
    → Memᴰ q (x ∷ inserted)
    → Memᴰ q (r ∷ (x ∷ rows))
behind q r x rows inserted f (head e) = tail (head e)
behind q r x rows inserted f (tail n) = elim (f n) [ head e ↦ head e | tail k ↦ tail (tail k) ]

mem_of-insert_row : (q r : Row) (rows : List Row) → Memᴰ q (insert_row r rows) → Memᴰ q (r ∷ rows)
unfolding insert_row
mem_of-insert_row q r [] m = m
mem_of-insert_row q r (x ∷ rows) m = elim (Bool-cases (less_id r.sha1 x.sha1)) [
  | inl c ↦ rw (c, insert_row) at m
  | inr c ↦
      behind q r x rows (insert_row r rows) (mem_of-insert_row q r rows) (rw (c, insert_row) at m)
]

pub mem-sort_rows : (q : Row) (rows : List Row) → Memᴰ q rows → Memᴰ q (sort_rows rows)
unfolding sort_rows
mem-sort_rows q [] m = m
mem-sort_rows q (x ∷ rows) (head e) = mem-insert_row q x (sort_rows rows) (head e)
mem-sort_rows q (x ∷ rows) (tail m) =
    mem-insert_row q x (sort_rows rows) (tail (mem-sort_rows q rows m))

pub mem_of-sort_rows : (q : Row) (rows : List Row) → Memᴰ q (sort_rows rows) → Memᴰ q rows
unfolding sort_rows
mem_of-sort_rows q [] m = m
mem_of-sort_rows q (x ∷ rows) m = elim (mem_of-insert_row q x (sort_rows rows) m) [
  | head e ↦ head e
  | tail n ↦ tail (mem_of-sort_rows q rows n)
]

-- The fanout table counts, as long as it does not wrap.
fanout_at-bump :
    (j k : ℕ) (f : List ℕ)
    → k < length f
    → fanout_at k f + 1 < 2 ^ 32
    → fanout_at k (bump j f) ≡ (if leb j k then 1 else 0) + fanout_at k f
unfolding fanout_at bump
fanout_at-bump j k [] h l = absurd (omega arith)
fanout_at-bump zero zero (x ∷ f) h l = ground arith
fanout_at-bump zero (suc k) (x ∷ f) h l = ground (arith, fanout_at-bump zero k f (omega arith) l)
fanout_at-bump (suc j) zero (x ∷ f) h l = ground arith
fanout_at-bump (suc j) (suc k) (x ∷ f) h l = ground (arith, fanout_at-bump j k f (omega arith) l)

length-bump : (j : ℕ) (f : List ℕ) → length (bump j f) ≡ length f
unfolding bump
length-bump j [] = refl
length-bump zero (x ∷ f) = omega (arith, length-bump zero f)
length-bump (suc j) (x ∷ f) = omega (arith, length-bump j f)

fanout_at-bumps :
    (k : ℕ) (eight : List ℕ) (os : List PackObject) (f : List ℕ)
    → k < length f
    → fanout_at k f + length os < 2 ^ 32
    → fanout_at k (bumps f os) ≡ fanout_at k f + count k (rows_from eight os)
fanout_at-bumps k eight [] f h l = omega arith
fanout_at-bumps k eight (o ∷ os) f h l = ground (
  arith,
  fanout_at-bump (first o.oid) k f h (omega arith),
  fanout_at-bumps k (new_eight o.location eight) os (bump (first o.oid) f)
      (omega (arith, length-bump (first o.oid) f))
      (ground (arith, fanout_at-bump (first o.oid) k f h (omega arith))),
)

fanout_at-replicate : (n k : ℕ) → fanout_at k (replicate n 0) ≡ 0
unfolding fanout_at replicate
fanout_at-replicate zero k = refl
fanout_at-replicate (suc n) zero = refl
fanout_at-replicate (suc n) (suc k) = fanout_at-replicate n k

pub length-replicate : (n : ℕ) → length {A = ℕ} (replicate n 0) ≡ n
unfolding replicate
length-replicate zero = refl
length-replicate (suc n) = omega (arith, length-replicate n)

pub fanout_at-count :
    (k : ℕ) (os : List PackObject)
    → k < 256
    → length os < 2 ^ 32
    → fanout_at k (bumps (replicate 256 0) os) ≡ count k (rows_from [] os)
fanout_at-count k os h l = omega (
  arith,
  fanout_at-bumps k [] os (replicate 256 0) (omega (arith, length-replicate 256, h))
      (omega (arith, fanout_at-replicate 256 k)),
  fanout_at-replicate 256 k,
)
