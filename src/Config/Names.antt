-- ===== src/Config/Names.antt =====
-- Which names stand for one section.
use dgit.Prelude.{
  ◌≡◌, inl, inr, refl, sym, ap, ◌∙◌, Bool, true, false, ◌&&◌, Bytes, bytes_eq, bytes_eq_iff,
  Bool-cases, Option, none, some, arith,
}
use dgit.Config.{Section, Name, is_named, named_subsection, new_section}

-- The names have the same number of pieces.
unfoldable pub both_or_none : Option Bytes → Option Bytes → Bool
both_or_none none none = true
both_or_none (some s) (some t) = true
both_or_none _ _ = false

unfoldable pub same_subsection : Option Bytes → Option Bytes → Bool
same_subsection (some s) (some t) = bytes_eq s t
same_subsection _ _ = true

unfoldable pub same_form : Name → Name → Bool
same_form q r = both_or_none q.subsection r.subsection

unfoldable pub same_section : Name → Name → Bool
same_section q r = bytes_eq q.section r.section && same_subsection q.subsection r.subsection

-- Names of one form stand for one section or for sections apart.
one_subsection : (a b : Option Bytes) → both_or_none a b ≡ true → same_subsection a b ≡ true → a ≡ b
unfolding both_or_none same_subsection
one_subsection none none f s = refl
one_subsection none (some t) f s = cc f
one_subsection (some u) none f s = cc f
one_subsection (some u) (some t) f s = ap some ((bytes_eq_iff u t).0 s)

pub alike :
    (q r : Name)
    → same_form q r ≡ true
    → same_section q r ≡ true
    → (x : Section) → is_named r x ≡ is_named q x
unfolding same_form same_section is_named
alike q r f s x = λ i.
    bytes_eq x.name (sym section i)
    && elim (sym subsection i) [ none ↦ true | some sub ↦ bytes_eq x.subsection sub ]
  where
    section : q.section ≡ r.section
    section = (bytes_eq_iff q.section r.section).0 (ground arith)

    subsection : q.subsection ≡ r.subsection
    subsection = one_subsection q.subsection r.subsection f (ground arith)

in_subsection : Option Bytes → Bytes → Bool
in_subsection none t = true
in_subsection (some s) t = bytes_eq t s

common_subsection :
    (a b : Option Bytes) (t : Bytes)
    → in_subsection a t ≡ true
    → in_subsection b t ≡ true
    → same_subsection a b ≡ true
unfolding in_subsection same_subsection
common_subsection none b t x y = refl
common_subsection (some u) none t x y = refl
common_subsection (some u) (some v) t x y =
    (bytes_eq_iff u v).1 (sym ((bytes_eq_iff t u).0 x) ∙ (bytes_eq_iff t v).0 y)

is_named-parts :
    (q : Name) (x : Section)
    → is_named q x ≡ true
    → (x.name ≡ q.section) × (in_subsection q.subsection x.subsection ≡ true)
unfolding is_named in_subsection
is_named-parts q x y =
    ((bytes_eq_iff x.name q.section).0 (ground arith), inside q.subsection (ground arith))
  where
    inside :
        (a : Option Bytes)
        → (elim a [ none ↦ true | some sub ↦ bytes_eq x.subsection sub ]) ≡ true
        → in_subsection a x.subsection ≡ true
    inside none e = refl
    inside (some sub) e = e

pub apart :
    (q r : Name)
    → same_section q r ≡ false
    → (x : Section) → is_named q x ≡ true
    → is_named r x ≡ false
unfolding same_section
apart q r s x y = elim (Bool-cases (is_named r x)) [
  | inr n ↦ n
  | inl z ↦
      let a = is_named-parts q x y in
      let b = is_named-parts r x z in
      ground (
        arith,
        (bytes_eq_iff q.section r.section).1 (sym a.0 ∙ b.0),
        common_subsection q.subsection r.subsection x.subsection a.1 b.1,
      )
]

named_test :
    (a : Option Bytes) (t : Bytes)
    → named_subsection a ≡ t
    → (elim a [ none ↦ true | some sub ↦ bytes_eq t sub ]) ≡ true
unfolding named_subsection
named_test none t e = refl
named_test (some sub) t e = (bytes_eq_iff t sub).1 (sym e)

pub new_section_named : (q : Name) (v : Bytes) → is_named q (new_section q v) ≡ true
unfolding is_named new_section
new_section_named q v = ground (
  arith,
  (bytes_eq_iff q.section q.section).1 refl,
  named_test q.subsection (named_subsection q.subsection) refl,
)

unfoldable pub same_name : Name → Name → Bool
same_name q r = same_section q r && bytes_eq q.key r.key
