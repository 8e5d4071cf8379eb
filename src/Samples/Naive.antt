-- ===== src/Samples/Naive.antt =====
-- A suffix array's `Lookup` by plain search: the laws that git/delta relies on can be met.
use dgit.Prelude.{
  ℕ, zero, suc, ◌+◌, ◌-◌, ◌≤◌, ◌≡◌, ◌≢◌, ◌↔◌, refl, [], ◌∷◌, Bytes, has_prefix, true, Bool-cases,
  inl, inr, if◌then◌else◌, some_inj, Option, some, none, arith,
}
use dgit.Delta.Calculator.{Index, OccursAt}

has_prefix_iff : (r s : Bytes) → (has_prefix r s ≡ true) ↔ OccursAt r s 0
unfolding has_prefix
has_prefix_iff r [] = (λ h. (omega arith, refl), λ h. refl)
has_prefix_iff [] (c ∷ s) = (λ h. cc, λ h. absurd (omega (arith, h.0)))
has_prefix_iff (x ∷ r) (c ∷ s) =
    let ih = has_prefix_iff r s in (λ h. ground (arith, ih.0), λ h. ground (arith, ih.1))

find_in : Bytes → Bytes → ℕ → Option ℕ
find_in s [] i = if has_prefix [] s then some i else none
find_in s (x ∷ t) i =
    let rest = find_in s t (i + 1) in if has_prefix (x ∷ t) s then some i else rest

here : (r s : Bytes) (i k : ℕ) → i ≡ k → has_prefix r s ≡ true → (i ≤ k) × OccursAt r s (k - i)
here r s i k e h = let z : k - i ≡ 0 = omega arith in rw z (omega arith, (has_prefix_iff r s).0 h)

later :
    (x : ℕ) (t s : Bytes) (i k : ℕ)
    → i + 1 ≤ k
    → OccursAt t s (k - (i + 1))
    → OccursAt (x ∷ t) s (k - i)
later x t s i k h o =
    let z : k - i ≡ suc (k - (i + 1)) = omega arith in rw z (omega (arith, o.0), o.1)

find_in-found : (s r : Bytes) (i k : ℕ) → find_in s r i ≡ some k → (i ≤ k) × OccursAt r s (k - i)
unfolding find_in
find_in-found s [] i k e = elim (Bool-cases (has_prefix [] s)) [
  | inl h ↦ here [] s i k (some_inj (rw (h, find_in) at e)) h
  | inr h ↦ cc (rw (h, find_in) at e)
]
find_in-found s (x ∷ t) i k e = elim (Bool-cases (has_prefix (x ∷ t) s)) [
  | inl h ↦ here (x ∷ t) s i k (some_inj (rw (h, find_in) at e)) h
  | inr h ↦
      let (le, o) = find_in-found s t (i + 1) k (rw (h, find_in) at e) in
      (omega arith, later x t s i k le o)
]

find_in-missing : (s r : Bytes) (i j : ℕ) → s ≢ [] → find_in s r i ≡ none → ¬ OccursAt r s j
unfolding find_in
find_in-missing [] r i j ne e o = absurd (ne refl)
find_in-missing (c ∷ s) [] i j ne e o = absurd (omega (arith, o.0))
find_in-missing (c ∷ s) (x ∷ t) i zero ne e o = elim (Bool-cases (has_prefix (x ∷ t) (c ∷ s))) [
  | inl h ↦ cc (rw (h, find_in) at e)
  | inr h ↦ cc (h, (has_prefix_iff (x ∷ t) (c ∷ s)).1 o)
]
find_in-missing (c ∷ s) (x ∷ t) i (suc j) ne e o = elim (Bool-cases (has_prefix (x ∷ t) (c ∷ s))) [
  | inl h ↦ cc (rw (h, find_in) at e)
  | inr h ↦ find_in-missing (c ∷ s) t (i + 1) j ne (rw (h, find_in) at e) (omega (arith, o.0), o.1)
]

unfoldable pub naive_lookup : Bytes → Bytes → Option ℕ
unfolding find_in has_prefix
naive_lookup src s = find_in s src 0

pub found : (src s : Bytes) (i : ℕ) → naive_lookup src s ≡ some i → OccursAt src s i
unfolding naive_lookup
found src s i e = let z : i - 0 ≡ i = omega arith in rw z at ((find_in-found s src 0 i e).1)

pub missing : (src s : Bytes) (i : ℕ) → s ≢ [] → naive_lookup src s ≡ none → ¬ OccursAt src s i
unfolding naive_lookup
missing src s i ne e = find_in-missing s src 0 i ne e

abbrev pub naive_index : (src : Bytes) → Index src
naive_index src = record { lookup = naive_lookup src; found = found src; missing = missing src }
