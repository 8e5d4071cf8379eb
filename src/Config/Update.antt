-- ===== src/Config/Update.antt =====
-- The searches of a configuration, and what a change to one section leaves of them.
use dgit.Prelude.{
  ℕ, ◌≡◌, inl, inr, refl, sym, ap, ◌∙◌, true, false, List, [], ◌∷◌, ◌++◌, Bytes, bytes_eq,
  bytes_eq_iff, Bool-cases, Option, Option-cases, none, some, some_inj, if◌then◌else◌, arith,
}
use dgit.Config.{
  Values, Section, Name, is_named, assign, value_of, delete, find_section, change_section,
  get_named,
}

-- Two texts that are equal to a third one.
same_test : (i j k : Bytes) → bytes_eq i j ≡ true → bytes_eq i k ≡ bytes_eq j k
same_test i j k e = ap (λ t. bytes_eq t k) ((bytes_eq_iff i j).0 e)

other_test : (i j k : Bytes) → bytes_eq i j ≡ false → bytes_eq i k ≡ true → bytes_eq j k ≡ false
other_test i j k n e = ground (arith, bytes_eq_iff i j, bytes_eq_iff i k, bytes_eq_iff j k)

pub value_of-assign :
    (j k v : Bytes) (m : Values)
    → value_of k (assign j v m) ≡ (if bytes_eq j k then some v else value_of k m)
unfolding value_of assign
value_of-assign j k v [] = refl
value_of-assign j k v ((i, w) ∷ m) = elim (Bool-cases (bytes_eq i j)) [
  | inl y ↦ ground (arith, same_test i j k y)
  | inr n ↦ ground (arith, other_test i j k n, value_of-assign j k v m)
]

pub value_of-delete :
    (j k : Bytes) (m : Values)
    → value_of k (delete j m) ≡ (if bytes_eq j k then none else value_of k m)
unfolding value_of delete
value_of-delete j k [] = ground arith
value_of-delete j k ((i, w) ∷ m) = elim (Bool-cases (bytes_eq i j)) [
  | inl y ↦ ground (arith, same_test i j k y, value_of-delete j k m)
  | inr n ↦ ground (arith, other_test i j k n, value_of-delete j k m)
]

-- What a change to one section's values leaves of a search.
pub is_named-values :
    (q : Name) (s : Section) (m : Values) → is_named q (record s { values = m }) ≡ is_named q s
unfolding is_named
is_named-values q s m = refl

module _ (q : Name) (x : Section) (g : List Section) where
  find_yes : is_named q x ≡ true → find_section q (x ∷ g) ≡ some x
  unfolding find_section
  find_yes y = rw (y, find_section)

  find_no : is_named q x ≡ false → find_section q (x ∷ g) ≡ find_section q g
  unfolding find_section
  find_no n = rw (n, find_section)

  change_yes :
      (f : Values → Values)
      → is_named q x ≡ true
      → change_section q f (x ∷ g) ≡ record x { values = f x.values } ∷ g
  unfolding change_section
  change_yes f y = rw (y, change_section)

  change_no :
      (f : Values → Values)
      → is_named q x ≡ false
      → change_section q f (x ∷ g) ≡ x ∷ change_section q f g
  unfolding change_section
  change_no f n = rw (n, change_section)

find_behind :
    (r : Name) (x : Section) (g h : List Section)
    → find_section r g ≡ find_section r h
    → find_section r (x ∷ g) ≡ find_section r (x ∷ h)
unfolding find_section
find_behind r x g h e = ap (λ t. if is_named r x then some x else t) e

-- The search for a name under which the same sections stand, and for one of other sections.
module _ (q r : Name) (f : Values → Values) where
  pub find-change_same :
      ((x : Section) → is_named r x ≡ is_named q x)
      → (g : List Section) {s : Section} → find_section q g ≡ some s
      → find_section r (change_section q f g) ≡ some (record s { values = f s.values })
  unfolding find_section
  find-change_same same [] e = cc e
  find-change_same same (x ∷ g) {s} e = elim (Bool-cases (is_named q x)) [
    | inl y ↦
        ap (find_section r) (change_yes q x g f y)
        ∙ find_yes r (record x { values = f x.values }) g
            (is_named-values r x (f x.values) ∙ same x ∙ y)
        ∙ ap (λ (t : Section). some (record t { values = f t.values }))
            (some_inj (sym (find_yes q x g y) ∙ e))
    | inr n ↦
        ap (find_section r) (change_no q x g f n)
        ∙ find_no r x (change_section q f g) (same x ∙ n)
        ∙ find-change_same same g (sym (find_no q x g n) ∙ e)
  ]

  pub find-change_other :
      ((x : Section) → is_named q x ≡ true → is_named r x ≡ false)
      → (g : List Section) → find_section r (change_section q f g) ≡ find_section r g
  unfolding change_section
  find-change_other other [] = refl
  find-change_other other (x ∷ g) = elim (Bool-cases (is_named q x)) [
    | inl y ↦
        ap (find_section r) (change_yes q x g f y)
        ∙ find_no r (record x { values = f x.values }) g
            (is_named-values r x (f x.values) ∙ other x y)
        ∙ sym (find_no r x g (other x y))
    | inr n ↦
        ap (find_section r) (change_no q x g f n)
        ∙ find_behind r x (change_section q f g) g (find-change_other other g)
  ]

pub find_alike :
    (q r : Name)
    → ((x : Section) → is_named r x ≡ is_named q x)
    → (g : List Section) → find_section r g ≡ find_section q g
unfolding find_section
find_alike q r same [] = refl
find_alike q r same (x ∷ g) = λ i. if same x i then some x else find_alike q r same g i

pub find_appended :
    (r : Name) (x : Section) (g : List Section)
    → is_named r x ≡ true
    → find_section r g ≡ none
    → find_section r (g ++ (x ∷ [])) ≡ some x
unfolding find_section
find_appended r x [] y e = find_yes r x [] y
find_appended r x (z ∷ g) y e = elim (Bool-cases (is_named r z)) [
  | inl w ↦ cc (rw (w, find_section) at e)
  | inr n ↦ find_no r z (g ++ (x ∷ [])) n ∙ find_appended r x g y (sym (find_no r z g n) ∙ e)
]

pub find_not_appended :
    (r : Name) (x : Section) (g : List Section)
    → is_named r x ≡ false
    → find_section r (g ++ (x ∷ [])) ≡ find_section r g
unfolding find_section
find_not_appended r x [] n = find_no r x [] n
find_not_appended r x (z ∷ g) n = find_behind r z (g ++ (x ∷ [])) g (find_not_appended r x g n)

-- What is got from a section.
unfoldable pub got : Option Bytes → Bytes × ℕ
got none = ([], 1)
got (some v) = (v, 0)

pub get_found :
    (r : Name) (g : List Section) {s : Section}
    → find_section r g ≡ some s
    → get_named r g ≡ got (value_of r.key s.values)
unfolding get_named got
get_found r g {s} e = elim (Option-cases (value_of r.key s.values)) [
  | inl n ↦ rw (e, n, get_named, got)
  | inr (v, f) ↦ rw (e, f, get_named, got)
]

pub get_not_found :
    (r : Name) (g : List Section) → find_section r g ≡ none → get_named r g ≡ ([], 1)
unfolding get_named
get_not_found r g e = rw (e, get_named)

-- A search that is the same finds the same.
pub get_alike :
    (r : Name) (g h : List Section)
    → find_section r g ≡ find_section r h
    → get_named r g ≡ get_named r h
unfolding get_named
get_alike r g h e = λ i. elim (e i) [
  | none ↦ ([], 1)
  | some s ↦ elim (value_of r.key s.values) [ none ↦ ([], 1) | some v ↦ (v, 0) ]
]
