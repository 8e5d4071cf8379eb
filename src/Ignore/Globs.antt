-- ===== src/Ignore/Globs.antt =====
-- What it means that a pattern's segments match a path's.
use dgit.Prelude.{
  refl, ap, ==_iff, ◌++◌, ◌==◌, ◌≡◌, inl, inr, sym, subst, Bool, true, false, List, [], ◌∷◌, Bytes,
  codes, bytes_eq, bytes_eq_iff, has_prefix, Bool-cases, Option, Option-cases, some, some_inj,
  arith,
}
use dgit.Ignore.{
  is_empty, split_slashes, IgnorePattern, glob_loop, glob_end, anchored, matches_glob, positive,
  matches,
}

-- No segment is empty but the last one.
abbrev pub EmptyAtEnd : List Bytes → Type 0
EmptyAtEnd [] = Unit {0}
EmptyAtEnd (p ∷ []) = Unit {0}
EmptyAtEnd (p ∷ (q ∷ ps)) = (bytes_eq p [] ≡ false) × EmptyAtEnd (q ∷ ps)

-- No segment is empty but the first and the last.
abbrev pub FilledInside : List Bytes → Type 0
FilledInside [] = Unit {0}
FilledInside (p ∷ ps) = EmptyAtEnd ps

EmptyAtEnd-tail : (p : Bytes) (ps : List Bytes) → EmptyAtEnd (p ∷ ps) → EmptyAtEnd ps
EmptyAtEnd-tail p [] t = tt
EmptyAtEnd-tail p (q ∷ ps) (filled, t) = t

module _ (match : Bytes → Bytes → Bool) (rel : Bytes → Bytes → Option Bytes) (is_dir : Bool) where
  -- Segments of a pattern stand for segments at the head of a path; `**` in front of another segment
  -- stands for any number of them, and an empty segment at the end for a path that goes on or is a
  -- directory.
  pub data Globs : List Bytes → List Bytes → Type 0 where
    below : (xs : List Bytes) → Globs [] xs
    segment :
        (p x : Bytes) (ps xs : List Bytes)
        → match p x ≡ true
        → Globs ps xs
        → Globs (p ∷ ps) (x ∷ xs)
    stars_end : (ps xs : List Bytes) → Globs ps xs → Globs (codes "**" ∷ ps) xs
    stars_skip :
        (x : Bytes) (ps xs : List Bytes)
        → Globs (codes "**" ∷ ps) xs
        → Globs (codes "**" ∷ ps) (x ∷ xs)
    inside_dir : (x : Bytes) (xs : List Bytes) → Globs ([] ∷ []) (x ∷ xs)
    whole_dir : is_dir ≡ true → Globs ([] ∷ []) []

  end-Globs :
      (xs ps : List Bytes) → EmptyAtEnd ps → glob_end match rel is_dir (xs, ps) ≡ true → Globs ps xs
  unfolding glob_end is_empty
  end-Globs xs [] t e = below xs
  end-Globs [] (p ∷ []) t e =
      subst (λ (q : Bytes). Globs (q ∷ []) []) (sym ((bytes_eq_iff p []).0 (ground arith)))
        (whole_dir (ground arith))
  end-Globs (x ∷ xs) (p ∷ []) t e =
      subst (λ (q : Bytes). Globs (q ∷ []) (x ∷ xs)) (sym ((bytes_eq_iff p []).0 (ground arith)))
        (inside_dir x xs)
  end-Globs [] (p ∷ (q ∷ ps)) (filled, t) e = ground (arith, filled)
  end-Globs (x ∷ xs) (p ∷ (q ∷ ps)) (filled, t) e = ground (arith, filled)

  loop-Globs :
      (xs ps : List Bytes)
      → EmptyAtEnd ps
      → glob_end match rel is_dir (glob_loop match rel xs ps) ≡ true
      → Globs ps xs
  unfolding glob_loop
  loop-Globs [] ps t e = end-Globs [] ps t e
  loop-Globs (x ∷ xs) [] t e = below (x ∷ xs)
  loop-Globs (x ∷ xs) (p ∷ []) t e = elim (Bool-cases (match p x)) [
    | inl y ↦ segment p x [] xs y (below xs)
    | inr n ↦ end-Globs (x ∷ xs) (p ∷ []) t (rw (n, glob_loop) at e)
  ]
  loop-Globs (x ∷ xs) (p ∷ (q ∷ qs)) (filled, t) e = elim (Bool-cases (bytes_eq p (codes "**"))) [
    | inl s ↦
        let same : codes "**" ≡ p = sym ((bytes_eq_iff p (codes "**")).0 s) in
        elim (Bool-cases (match q x)) [
          | inl y ↦
              subst (λ (r : Bytes). Globs (r ∷ (q ∷ qs)) (x ∷ xs)) same
                (stars_end (q ∷ qs) (x ∷ xs) (
                  segment q x qs xs y
                    (loop-Globs xs qs (EmptyAtEnd-tail q qs t) (rw (s, y, glob_loop) at e))))
          | inr n ↦
              subst (λ (r : Bytes). Globs (r ∷ (q ∷ qs)) (x ∷ xs)) same
                (stars_skip x (q ∷ qs) xs (
                  subst (λ (r : Bytes). Globs (r ∷ (q ∷ qs)) xs) (sym same)
                    (loop-Globs xs (p ∷ (q ∷ qs)) (filled, t) (rw (s, n, glob_loop) at e))))
        ]
    | inr s ↦ elim (Bool-cases (match p x)) [
      | inl y ↦ segment p x (q ∷ qs) xs y (loop-Globs xs (q ∷ qs) t (rw (s, y, glob_loop) at e))
      | inr n ↦ end-Globs (x ∷ xs) (p ∷ (q ∷ qs)) (filled, t) (rw (s, n, glob_loop) at e)
    ]
  ]

  -- Both begin with an empty segment.
  rooted-Globs :
      (xs ps : List Bytes)
      → match [] [] ≡ true
      → EmptyAtEnd ps
      → glob_end match rel is_dir (glob_loop match rel ([] ∷ xs) ([] ∷ ps)) ≡ true
      → Globs ([] ∷ ps) ([] ∷ xs)
  unfolding glob_loop bytes_eq
  rooted-Globs xs [] roots t e = segment [] [] [] xs roots (below xs)
  rooted-Globs xs (p ∷ ps) roots t e =
      segment [] [] (p ∷ ps) xs roots (loop-Globs xs (p ∷ ps) t (rw (roots, glob_loop) at e))

  -- An anchored pattern begins with a slash.
  anchored-slash : (pattern : Bytes) → (rest : Bytes) × (anchored match rel pattern ≡ b'/' ∷ rest)
  unfolding anchored has_prefix
  anchored-slash [] = (codes "**/", refl)
  anchored-slash (c ∷ s) = elim (Bool-cases (c == b'/')) [
    | inl y ↦ (s, rw (y, anchored) (rw ((==_iff c b'/').0 y) refl))
    | inr n ↦ (codes "**/" ++ (c ∷ s), rw (n, anchored) refl)
  ]

  anchored-split :
      (pattern : Bytes) → (ps : List Bytes) × (split_slashes (anchored match rel pattern) ≡ [] ∷ ps)
  unfolding split_slashes
  anchored-split pattern =
      let (rest, q) = anchored-slash pattern in (split_slashes rest, ap split_slashes q)

  globs_of :
      (r pattern : Bytes)
      → match [] [] ≡ true
      → FilledInside (split_slashes (anchored match rel pattern))
      → matches_glob match rel (b'/' ∷ r) is_dir pattern ≡ true
      → Globs (split_slashes (anchored match rel pattern)) (split_slashes (b'/' ∷ r))
  unfolding matches_glob split_slashes
  globs_of r pattern roots t e =
      let (ps, q) = anchored-split pattern in
      subst (λ (l : List Bytes). Globs l ([] ∷ split_slashes r)) (sym q)
        (rooted-Globs (split_slashes r) ps roots (rw q at t) (rw (q, matches_glob) at e))

  -- Why a path is ignored.
  pub record Ignored (p : IgnorePattern) (path : Bytes) : Type 0 where
    pub in_scope : has_prefix path p.scope ≡ true
    pub relative : Bytes
    pub related : rel (b'/' ∷ p.scope) (b'/' ∷ path) ≡ some relative
    pub visible : has_prefix relative (codes ".") ≡ false
    pub pattern : Bytes
    pub without_negation : positive match rel p.pattern ≡ some pattern
    pub globs : Globs (split_slashes (anchored match rel pattern)) (split_slashes (b'/' ∷ relative))

  -- If `Matches` says that a pattern matches a path, the path lies in the pattern's scope, does not
  -- begin with a dot from there, and the segments of the pattern, anchored or below any
  -- directory, stand for segments at the head of the path from the scope. Conditions: the pattern
  -- without its negation, when anchored, has no empty segment but the first and the last, and
  -- filepath.Match matches the empty text with the empty pattern.
  pub matches-Ignored :
      (p : IgnorePattern) (path : Bytes) {pattern : Bytes}
      → positive match rel p.pattern ≡ some pattern
      → FilledInside (split_slashes (anchored match rel pattern))
      → match [] [] ≡ true
      → matches match rel p path is_dir ≡ some true
      → Ignored p path
  unfolding matches
  matches-Ignored p path {pattern} g t roots e = elim (Bool-cases (has_prefix path p.scope)) [
    | inr n ↦ cc (rw (n, matches) at e)
    | inl h ↦ elim (Option-cases (rel (b'/' ∷ p.scope) (b'/' ∷ path))) [
      | inl n ↦ cc (rw (h, n, matches) at e)
      | inr (r, f) ↦ elim (Bool-cases (has_prefix r (codes "."))) [
        | inl d ↦ cc (rw (h, f, d, matches) at e)
        | inr d ↦ record {
          in_scope = h;
          relative = r;
          related = f;
          visible = d;
          pattern = pattern;
          without_negation = g;
          globs = globs_of r pattern roots t (some_inj (rw (h, f, d, g, matches) at e));
        }
      ]
    ]
  ]
