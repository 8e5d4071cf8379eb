-- ===== src/Delta/Search.antt =====
-- The searches of the calculator: they end, and what they find occurs where they say.
use dgit.Prelude.{
  ℕ, zero, suc, ◌+◌, ◌-◌, ◌/◌, ◌≤◌, ◌<◌, ◌≡◌, ◌≢◌, refl, Bool-cases, Option-cases, inl, inr, [],
  ◌∷◌, Bytes, ltb, ltb→lt, ltb-false→le, length, take, drop, take_all, some_inj, subst, ◌⊎◌, arith,
  Option, none, some,
}
use dgit.Delta.Calculator.{
  Index, OccursAt, search_loop, longest_prefix, next_prefix_from, next_prefix_start,
}

module _ (src : Bytes) (index : Index src) where
  -- A prefix of `dst` of length `l`, at least 3, occurs in `src` at `o`.
  abbrev pub IsMatch : Bytes → Option (ℕ × ℕ) → Type 0
  IsMatch dst none = Unit {0}
  IsMatch dst (some (o, l)) = (3 ≤ l) × (l ≤ length dst) × OccursAt src (take l dst) o

  found_prefix :
      (dst : Bytes) (i r : ℕ)
      → 3 ≤ i
      → i ≤ length dst
      → index.lookup (take i dst) ≡ some r
      → IsMatch dst (some (r, i))
  found_prefix dst i r a b e = (a, b, index.found (take i dst) r e)

  search_loop-IsMatch :
      (fuel : ℕ) (dst : Bytes) (best : Option (ℕ × ℕ)) (lo hi i : ℕ) {r : Option (ℕ × ℕ)}
      → 3 ≤ lo
      → lo ≤ i
      → i ≤ length dst
      → hi ≤ length dst
      → IsMatch dst best
      → search_loop index.lookup fuel dst best lo hi i ≡ some r
      → IsMatch dst r
  unfolding search_loop
  search_loop-IsMatch zero dst best lo hi i a b c d m e = cc
  search_loop-IsMatch (suc fuel) dst best lo hi i a b c d m e =
      elim (Bool-cases (ltb 1 (hi - lo))) [
        | inl more ↦ elim (Option-cases (index.lookup (take i dst))) [
          | inl none_found ↦
              search_loop-IsMatch fuel dst best lo (i - 1) ((i - 1 - lo) / 2 + lo) a (omega arith)
                (omega arith) (omega arith) m (rw (more, none_found, search_loop) at e)
          | inr (o, one) ↦
              search_loop-IsMatch fuel dst (some (o, i)) i hi ((hi - i) / 2 + i) (omega arith)
                (omega arith) (omega arith) d (found_prefix dst i o (omega arith) c one)
                (rw (more, one, search_loop) at e)
        ]
        | inr over ↦ subst (IsMatch dst) (some_inj (rw (over, search_loop) at e)) m
      ]

  -- The loop ends in as many rounds as there are lengths left, and one.
  search_loop_total :
      (fuel : ℕ) (dst : Bytes) (best : Option (ℕ × ℕ)) (lo hi i : ℕ)
      → (hi - lo ≤ 1) ⊎ ((lo < i) × (i ≤ hi))
      → hi - lo < fuel
      → search_loop index.lookup fuel dst best lo hi i ≢ none
  unfolding search_loop
  search_loop_total zero dst best lo hi i a b e = absurd (omega arith)
  search_loop_total (suc fuel) dst best lo hi i a b e = elim (Bool-cases (ltb 1 (hi - lo))) [
    | inl more ↦
        let wide = ltb→lt 1 (hi - lo) more in
        elim (Option-cases (index.lookup (take i dst))) [
          | inl none_found ↦
              search_loop_total fuel dst best lo (i - 1) ((i - 1 - lo) / 2 + lo)
                (next_bounds lo (i - 1)) (omega arith) (rw (more, none_found, search_loop) at e)
          | inr (o, one) ↦
              search_loop_total fuel dst (some (o, i)) i hi ((hi - i) / 2 + i) (next_bounds i hi)
                (omega arith) (rw (more, one, search_loop) at e)
        ]
    | inr over ↦ cc (rw (over, search_loop) at e)
  ]
    where
      next_bounds : (l h : ℕ) → (h - l ≤ 1) ⊎ ((l < (h - l) / 2 + l) × ((h - l) / 2 + l ≤ h))
      next_bounds l h = grind arith

  first_round :
      (fuel : ℕ) (dst : Bytes) (hi o : ℕ)
      → index.lookup (take 3 dst) ≡ some o
      → hi - 3 < fuel
      → 4 ≤ hi
      → search_loop index.lookup (suc fuel) dst none 3 hi 3 ≢ none
  unfolding search_loop
  first_round fuel dst hi o one a b e = elim (Bool-cases (ltb 1 (hi - 3))) [
    | inl more ↦
        search_loop_total fuel dst (some (o, 3)) 3 hi ((hi - 3) / 2 + 3) (grind arith) (omega arith)
          (rw (more, one, search_loop) at e)
    | inr over ↦ cc (rw (over, search_loop) at e)
  ]

  whole_match :
      (dst : Bytes) (r : ℕ) → index.lookup dst ≡ some r → OccursAt src (take (length dst) dst) r
  whole_match dst r e = rw (take_all (length dst) dst (omega arith)) (index.found dst r e)

  -- Where the start is found and the whole is not, there is a fourth byte.
  start_only :
      (dst : Bytes) (o : ℕ)
      → 3 ≤ length dst
      → index.lookup (take 3 dst) ≡ some o
      → index.lookup dst ≡ none
      → 4 ≤ length dst
  start_only dst o h start part = elim (Bool-cases (ltb (length dst) 4)) [
    | inl three ↦ cc (rw (take_all 3 dst (omega (arith, ltb→lt (length dst) 4 three))) at start)
    | inr four ↦ ltb-false→le (length dst) 4 four
  ]

  search_total :
      (fuel : ℕ) (dst : Bytes) (o : ℕ)
      → length dst ≡ fuel
      → 4 ≤ fuel
      → index.lookup (take 3 dst) ≡ some o
      → search_loop index.lookup fuel dst none 3 fuel 3 ≢ none
  search_total zero dst o l h start = absurd (omega arith)
  search_total (suc fuel) dst o l h start = first_round fuel dst (suc fuel) o start (omega arith) h

  pub longest_prefix-IsMatch :
      (dst : Bytes) {r : Option (ℕ × ℕ)} → longest_prefix index.lookup dst ≡ some r → IsMatch dst r
  unfolding longest_prefix
  longest_prefix-IsMatch dst e = elim (Bool-cases (ltb (length dst) 3)) [
    | inl tiny ↦ subst (IsMatch dst) (some_inj (rw (tiny, longest_prefix) at e)) tt
    | inr big ↦
        let h = ltb-false→le (length dst) 3 big in
        elim (Option-cases (index.lookup (take 3 dst))) [
          | inl no_start ↦
              subst (IsMatch dst) (some_inj (rw (big, no_start, longest_prefix) at e)) tt
          | inr (o, start) ↦ elim (Option-cases (index.lookup dst)) [
            | inl part ↦
                search_loop-IsMatch (length dst) dst none 3 (length dst) 3 (omega arith)
                  (omega arith) h (omega arith) tt (rw (big, start, part, longest_prefix) at e)
            | inr (r, whole) ↦
                subst (IsMatch dst) (some_inj (rw (big, start, whole, longest_prefix) at e))
                  (h, omega arith, whole_match dst r whole)
          ]
        ]
  ]

  pub longest_prefix_total : (dst : Bytes) → longest_prefix index.lookup dst ≢ none
  unfolding longest_prefix
  longest_prefix_total dst e = elim (Bool-cases (ltb (length dst) 3)) [
    | inl tiny ↦ cc (rw (tiny, longest_prefix) at e)
    | inr big ↦
        let h = ltb-false→le (length dst) 3 big in
        elim (Option-cases (index.lookup (take 3 dst))) [
          | inl no_start ↦ cc (rw (big, no_start, longest_prefix) at e)
          | inr (o, start) ↦ elim (Option-cases (index.lookup dst)) [
            | inl part ↦
                search_total (length dst) dst o refl (start_only dst o h start part) start
                  (rw (big, start, part, longest_prefix) at e)
            | inr (r, whole) ↦ cc (rw (big, start, whole, longest_prefix) at e)
          ]
        ]
  ]

  next_prefix_from-le :
      (i : ℕ) (xs : Bytes) (k : ℕ) → next_prefix_from index.lookup i xs ≡ some k → i ≤ k
  unfolding next_prefix_from
  next_prefix_from-le i [] k e = cc
  next_prefix_from-le i (x ∷ xs) k e = elim (Option-cases (index.lookup (take 3 (x ∷ xs)))) [
    | inl none_found ↦
        omega (arith, next_prefix_from-le (i + 1) xs k (rw (none_found, next_prefix_from) at e))
    | inr (o, one) ↦ omega (arith, some_inj (rw (one, next_prefix_from) at e))
  ]

  -- The next prefix starts behind the first byte.
  pub next_prefix_start-pos :
      (dst : Bytes) (k : ℕ) → next_prefix_start index.lookup dst ≡ some k → 1 ≤ k
  unfolding next_prefix_start
  next_prefix_start-pos dst k e = next_prefix_from-le 1 (drop 1 dst) k e
