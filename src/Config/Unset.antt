-- ===== src/Config/Unset.antt =====
-- What is unset is not got, and nothing else changes.
use dgit.Prelude.{
  ℕ, ◌≡◌, inl, inr, refl, sym, ap, ◌∙◌, Bool, true, false, List, [], Bytes, bytes_eq, bytes_eq_iff,
  Bool-cases, Option, Option-cases, none, some, if◌then◌else◌, ◌==◌,
}
use dgit.Config.{
  Section, split_dots, trim_space, Name, name_of, value_of, delete, find_section, change_section,
  unset_named, unset, get_named, get_config,
}
use dgit.Config.Names.{same_form, same_section, same_name}
use dgit.Config.Update.{got, value_of-delete}
use dgit.Config.Change.{changed_same, changed_other, got_before, got_none, named_get}

unset_absent : (q : Name) (g : List Section) → find_section q g ≡ none → (unset_named q g).0 ≡ g
unfolding unset_named
unset_absent q g e = rw (e, unset_named)

unset_no_value :
    (q : Name) (g : List Section) {s : Section}
    → find_section q g ≡ some s
    → value_of (trim_space q.key) s.values ≡ none
    → (unset_named q g).0 ≡ g
unfolding unset_named
unset_no_value q g e n = rw (e, n, unset_named)

unset_value :
    (q : Name) (g : List Section) {s : Section} {v : Bytes}
    → find_section q g ≡ some s
    → value_of (trim_space q.key) s.values ≡ some v
    → (unset_named q g).0 ≡ change_section q (delete (trim_space q.key)) g
unfolding unset_named
unset_value q g e f = rw (e, f, unset_named)

if_same : (b : Bool) (x y : Bytes × ℕ) → y ≡ x → (if b then x else y) ≡ x
if_same true x y e = refl
if_same false x y e = e

if_not : (b : Bool) (y : Bytes × ℕ) → (b ≡ true → y ≡ ([], 1)) → (if b then ([], 1) else y) ≡ y
if_not true y e = sym (e refl)
if_not false y e = refl

got_unless :
    (b : Bool) (o : Option Bytes) → got (if b then none else o) ≡ (if b then ([], 1) else got o)
unfolding got
got_unless true o = refl
got_unless false o = refl

module _ (q r : Name) (g : List Section) where
  module _ (form : same_form q r ≡ true) (trimmed : trim_space q.key ≡ q.key) where
    unset_same :
        same_section q r ≡ true
        → get_named r ((unset_named q g).0)
          ≡ (if bytes_eq q.key r.key then ([], 1) else get_named r g)
    unfolding got
    unset_same h = elim (Option-cases (find_section q g)) [
      | inl e ↦
          ap (get_named r) (unset_absent q g e)
          ∙ got_none q r g form h e
          ∙ sym (if_same (bytes_eq q.key r.key) ([], 1) (get_named r g) (got_none q r g form h e))
      | inr (s, e) ↦ elim (Option-cases (value_of (trim_space q.key) s.values)) [
        | inl n ↦
            ap (get_named r) (unset_no_value q g e n)
            ∙ sym (
                if_not (bytes_eq q.key r.key) (get_named r g) (λ y.
                  got_before q r g form h e
                  ∙ ap got (
                      ap (λ t. value_of t s.values)
                        (sym ((bytes_eq_iff q.key r.key).0 y) ∙ sym trimmed)
                      ∙ n)))
        | inr (v, f) ↦
            ap (get_named r) (unset_value q g e f)
            ∙ changed_same q r g (delete (trim_space q.key)) form h e
            ∙ ap got (
                ap (λ t. value_of r.key (delete t s.values)) trimmed
                ∙ value_of-delete q.key r.key s.values)
            ∙ got_unless (bytes_eq q.key r.key) (value_of r.key s.values)
            ∙ ap (λ t. if bytes_eq q.key r.key then ([], 1) else t)
                (sym (got_before q r g form h e))
      ]
    ]

    unset_other : same_section q r ≡ false → get_named r ((unset_named q g).0) ≡ get_named r g
    unset_other n = elim (Option-cases (find_section q g)) [
      | inl e ↦ ap (get_named r) (unset_absent q g e)
      | inr (s, e) ↦ elim (Option-cases (value_of (trim_space q.key) s.values)) [
        | inl m ↦ ap (get_named r) (unset_no_value q g e m)
        | inr (v, f) ↦
            ap (get_named r) (unset_value q g e f)
            ∙ changed_other q r g (delete (trim_space q.key)) n
      ]
    ]

    unset_either :
        get_named r ((unset_named q g).0) ≡ (if same_name q r then ([], 1) else get_named r g)
    unfolding same_name
    unset_either = elim (Bool-cases (same_section q r)) [
      | inl h ↦ rw (h, same_name) (unset_same h)
      | inr n ↦ rw (n, same_name) (unset_other n)
    ]

unset_code :
    (q : Name) (g : List Section)
    → trim_space q.key ≡ q.key
    → (unset_named q g).1 ≡ (if (get_named q g).1 == 0 then 0 else 5)
unfolding unset_named get_named
unset_code q g trimmed = elim (Option-cases (find_section q g)) [
  | inl e ↦ rw (e, unset_named, get_named)
  | inr (s, e) ↦ elim (Option-cases (value_of q.key s.values)) [
    | inl n ↦ rw (e, trimmed, n, unset_named, get_named)
    | inr (v, f) ↦ rw (e, trimmed, f, unset_named, get_named)
  ]
]

named_unset :
    (name : Bytes) (g : List Section) (q : Name)
    → name_of (split_dots name) ≡ some q
    → unset name g ≡ unset_named q g
unfolding unset
named_unset name g q e = rw (e, unset)

-- For names of two pieces or both of three, with a key that is trimmed: `Unset` returns 0 if `GetConfig`
-- finds the name, and 5 otherwise; then `GetConfig` does not find the name, and gives what it gave before for
-- every other.
pub get_config-unset :
    (name other : Bytes) (g : List Section) (q r : Name)
    → name_of (split_dots name) ≡ some q
    → name_of (split_dots other) ≡ some r
    → same_form q r ≡ true
    → trim_space q.key ≡ q.key
    → ((unset name g).1 ≡ (if (get_config name g).1 == 0 then 0 else 5))
      × (get_config other ((unset name g).0)
          ≡ (if same_name q r then ([], 1) else get_config other g))
get_config-unset name other g q r e f form trimmed = (
  ap (λ t. t.1) (named_unset name g q e)
      ∙ unset_code q g trimmed
      ∙ ap (λ t. if t.1 == 0 then 0 else 5) (sym (named_get name g q e)),
  ap (λ t. get_config other (t.0)) (named_unset name g q e)
      ∙ named_get other ((unset_named q g).0) r f
      ∙ unset_either q r g form trimmed
      ∙ ap (λ t. if same_name q r then ([], 1) else t) (sym (named_get other g r f)),
)
