-- ===== src/Config/Trim.antt =====
-- git/config.go: what `strings.TrimSpace`, `strings.Split` and `strings.Join` do to texts that are
-- put together.
use dgit.Prelude.{
  ℕ, suc, ◌≤◌, ◌≡◌, ◌≢◌, refl, sym, ap, ◌∙◌, inl, inr, false, List, [], ◌∷◌, ◌++◌, Bytes, ◌==◌,
  ==_iff, length, All, Bool-cases, if◌then◌else◌, arith,
}
use dgit.Config.{prepend, is_space, trim_left, trim_right, trim_space}
use dgit.Config.Parse.{split_by, join, join_more}

-- No white space on either side.
abbrev pub IsTrimmed : Bytes → Type 0
IsTrimmed s = (trim_left s ≡ s) × (trim_right s ≡ s)

abbrev pub Lacks : ℕ → Bytes → Type 0
Lacks b s = All (λ c. c ≢ b) s

length-trim_left : (s : Bytes) → length (trim_left s) ≤ length s
unfolding trim_left
length-trim_left [] = omega arith
length-trim_left (c ∷ s) = ground (arith, length-trim_left s)

pub head_not_space : (c : ℕ) (s : Bytes) → trim_left (c ∷ s) ≡ c ∷ s → is_space c ≡ false
unfolding trim_left
head_not_space c s e = elim (Bool-cases (is_space c)) [
  | inr n ↦ n
  | inl y ↦
      let same : trim_left s ≡ c ∷ s = rw y at e in
      let longer : length (trim_left s) ≡ suc (length s) = ap length same in
      absurd (omega (arith, longer, length-trim_left s))
]

pub Lacks-trim_left : (b : ℕ) (s : Bytes) → Lacks b s → Lacks b (trim_left s)
unfolding trim_left
Lacks-trim_left b [] h = h
Lacks-trim_left b (c ∷ s) h = elim (Bool-cases (is_space c)) [
  | inl y ↦ rw y (Lacks-trim_left b s h.1)
  | inr n ↦ rw n h
]

pub trim_left-other : (c : ℕ) (s : Bytes) → is_space c ≡ false → trim_left (c ∷ s) ≡ c ∷ s
unfolding trim_left
trim_left-other c s n = rw n

pub trim_left-append :
    (s t : Bytes) (c : ℕ) → is_space c ≡ false → trim_left (s ++ (c ∷ t)) ≡ trim_left s ++ (c ∷ t)
unfolding trim_left
trim_left-append [] t c n = trim_left-other c t n
trim_left-append (d ∷ s) t c n = elim (Bool-cases (is_space d)) [
  | inl y ↦ rw y (trim_left-append s t c n)
  | inr m ↦ rw m
]

keep_more : ℕ → Bytes → Bytes
keep_more c [] = if is_space c then [] else c ∷ []
keep_more c (d ∷ rest) = c ∷ (d ∷ rest)

trim_right-cons : (c : ℕ) (s : Bytes) → trim_right (c ∷ s) ≡ keep_more c (trim_right s)
unfolding trim_right keep_more
trim_right-cons c s = cons (trim_right s)
  where
    cons :
        (r : Bytes)
        → (elim r [ [] ↦ if is_space c then [] else c ∷ [] | d ∷ rest ↦ c ∷ (d ∷ rest) ])
          ≡ keep_more c r
    cons [] = refl
    cons (d ∷ rest) = refl

keep_more-other : (c : ℕ) (r : Bytes) → is_space c ≡ false → keep_more c r ≡ c ∷ r
unfolding keep_more
keep_more-other c [] n = rw n
keep_more-other c (d ∷ rest) n = refl

pub trim_right-append :
    (s t : Bytes) (c : ℕ) → is_space c ≡ false → trim_right (s ++ (c ∷ t)) ≡ s ++ (c ∷ trim_right t)
unfolding keep_more
trim_right-append [] t c n = trim_right-cons c t ∙ keep_more-other c (trim_right t) n
trim_right-append (d ∷ s) t c n =
    trim_right-cons d (s ++ (c ∷ t)) ∙ ap (keep_more d) (trim_right-append s t c n) ∙ kept s
  where
    kept : (x : Bytes) → keep_more d (x ++ (c ∷ trim_right t)) ≡ d ∷ (x ++ (c ∷ trim_right t))
    kept [] = refl
    kept (a ∷ x) = refl

trim_right-blank : (s : Bytes) → trim_right (s ++ (b' ' ∷ [])) ≡ trim_right s
unfolding trim_right is_space
trim_right-blank [] = refl
trim_right-blank (c ∷ s) =
    trim_right-cons c (s ++ (b' ' ∷ []))
    ∙ ap (keep_more c) (trim_right-blank s)
    ∙ sym (trim_right-cons c s)

pub trim_left-blank : (s : Bytes) → trim_left (b' ' ∷ s) ≡ trim_left s
unfolding trim_left is_space
trim_left-blank s = refl

pub trim_left-tab : (s : Bytes) → trim_left (b'\t' ∷ s) ≡ trim_left s
unfolding trim_left is_space
trim_left-tab s = refl

-- A name with a blank behind it, after one trim on the left or two.
pub trim_space-name : (s : Bytes) → IsTrimmed s → trim_space (s ++ (b' ' ∷ [])) ≡ s
unfolding trim_space trim_left
trim_space-name [] h = ap trim_right (trim_left-blank []) ∙ h.1
trim_space-name (c ∷ s) h =
    ap trim_right (trim_left-other c (s ++ (b' ' ∷ [])) (head_not_space c s h.0))
    ∙ trim_right-blank (c ∷ s)
    ∙ h.1

pub trim_space-key : (s : Bytes) → IsTrimmed s → trim_space (trim_left (s ++ (b' ' ∷ []))) ≡ s
unfolding trim_space trim_left
trim_space-key [] h = ap (λ t. trim_right (trim_left t)) (trim_left-blank []) ∙ h.1
trim_space-key (c ∷ s) h =
    ap trim_space (trim_left-other c (s ++ (b' ' ∷ [])) (head_not_space c s h.0))
    ∙ trim_space-name (c ∷ s) h

-- A value with a blank before it, trimmed on the right.
pub trim_space-value : (s : Bytes) → IsTrimmed s → trim_space (trim_right (b' ' ∷ s)) ≡ s
unfolding trim_space keep_more
trim_space-value [] h = unfold trim_right trim_left is_space in refl
trim_space-value (c ∷ s) h =
    ap trim_space (trim_right-cons b' ' (c ∷ s) ∙ ap (keep_more b' ') h.1)
    ∙ ap trim_right (trim_left-blank (c ∷ s) ∙ h.0)
    ∙ h.1

pub trim_space-trimmed : (s : Bytes) → IsTrimmed s → trim_space s ≡ s
unfolding trim_space
trim_space-trimmed s h = ap trim_right h.0 ∙ h.1

module _ (sep : ℕ) where
  pub split_by-piece :
      (s t : Bytes) → Lacks sep s → split_by sep (s ++ (sep ∷ t)) ≡ s ∷ split_by sep t
  unfolding split_by prepend
  split_by-piece [] t h = rw ((==_iff sep sep).1 refl)
  split_by-piece (c ∷ s) t h = ground (arith, split_by-piece s t h.1)

  pub split_by_one : (s : Bytes) → Lacks sep s → split_by sep s ≡ s ∷ []
  unfolding split_by prepend
  split_by_one [] h = refl
  split_by_one (c ∷ s) h = ground (arith, split_by_one s h.1)

  split_by-ne-nil : (s : Bytes) → split_by sep s ≢ []
  unfolding split_by prepend
  split_by-ne-nil [] = λ e. cc e
  split_by-ne-nil (c ∷ s) = ground arith

  prepend-append :
      (c : ℕ) (ps qs : List Bytes) → ps ≢ [] → prepend c ps ++ qs ≡ prepend c (ps ++ qs)
  unfolding prepend
  prepend-append c [] qs h = absurd (h refl)
  prepend-append c (p ∷ ps) qs h = refl

  pub split_by_end : (s : Bytes) → split_by sep (s ++ (sep ∷ [])) ≡ split_by sep s ++ ([] ∷ [])
  unfolding split_by
  split_by_end [] = rw ((==_iff sep sep).1 refl)
  split_by_end (c ∷ s) = elim (Bool-cases (c == sep)) [
    | inl y ↦ rw y (ap (◌∷◌ []) (split_by_end s))
    | inr n ↦ rw n (
        ap (prepend c) (split_by_end s)
        ∙ sym (prepend-append c (split_by sep s) ([] ∷ []) (split_by-ne-nil s)))
  ]

  pub join-prepend : (c : ℕ) (ps : List Bytes) → join sep (prepend c ps) ≡ c ∷ join sep ps
  unfolding join join_more prepend
  join-prepend c [] = refl
  join-prepend c (p ∷ ps) = refl

  join-nil : (ps : List Bytes) → ps ≢ [] → join sep ([] ∷ ps) ≡ sep ∷ join sep ps
  unfolding join join_more
  join-nil [] h = absurd (h refl)
  join-nil (p ∷ ps) h = refl

  pub join-split_by : (s : Bytes) → join sep (split_by sep s) ≡ s
  unfolding split_by
  join-split_by [] = unfold join join_more in refl
  join-split_by (c ∷ s) = elim (Bool-cases (c == sep)) [
    | inl y ↦ rw y (
        join-nil (split_by sep s) (split_by-ne-nil s) ∙ λ i.
        (sym ((==_iff c sep).0 y) i) ∷ join-split_by s i)
    | inr n ↦ rw n (join-prepend c (split_by sep s) ∙ ap (◌∷◌ c) (join-split_by s))
  ]
