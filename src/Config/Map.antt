-- ===== src/Config/Map.antt =====
-- A configuration is a map from names to values: what is set is got, and nothing else changes.
use dgit.Prelude.{
  ◌≡◌, inl, inr, refl, sym, ap, ◌∙◌, Bool, true, false, List, [], ◌∷◌, ◌++◌, Bytes, bytes_eq,
  Bool-cases, Option, Option-cases, none, some, if◌then◌else◌,
}
use dgit.Config.{
  Section, split_dots, trim_space, Name, name_of, assign, value_of, find_section, change_section,
  new_section, set_named, set_config, get_named, get_config,
}
use dgit.Config.Names.{same_form, same_section, same_name, alike, apart, new_section_named}
use dgit.Config.Update.{
  got, value_of-assign, find_alike, find_appended, find_not_appended, get_found, get_alike,
}
use dgit.Config.Change.{changed_same, changed_other, got_before, got_none, named_get}

set_found :
    (q : Name) (v : Bytes) (g : List Section) {s : Section}
    → find_section q g ≡ some s
    → set_named q v g ≡ change_section q (assign (trim_space q.key) v) g
unfolding set_named
set_found q v g e = rw (e, set_named)

set_new :
    (q : Name) (v : Bytes) (g : List Section)
    → find_section q g ≡ none
    → set_named q v g ≡ g ++ (new_section q v ∷ [])
unfolding set_named
set_new q v g e = rw (e, set_named)

new_value_lem :
    (q r : Name) (v : Bytes)
    → trim_space q.key ≡ q.key
    → value_of r.key (new_section q v).values ≡ (if bytes_eq q.key r.key then some v else none)
unfolding new_section assign value_of
new_value_lem q r v trimmed = ap (λ t. if bytes_eq t r.key then some v else none) trimmed

got_if :
    (b : Bool) (v : Bytes) (o : Option Bytes)
    → got (if b then some v else o) ≡ (if b then (v, 0) else got o)
unfolding got
got_if true v o = refl
got_if false v o = refl

module _ (q r : Name) (g : List Section) where
  module _ (form : same_form q r ≡ true) (trimmed : trim_space q.key ≡ q.key) (v : Bytes) where
    set_same :
        same_section q r ≡ true
        → get_named r (set_named q v g) ≡ (if bytes_eq q.key r.key then (v, 0) else get_named r g)
    unfolding got
    set_same h = elim (Option-cases (find_section q g)) [
      | inr (s, e) ↦
          ap (get_named r) (set_found q v g e)
          ∙ changed_same q r g (assign (trim_space q.key) v) form h e
          ∙ ap got (
              ap (λ t. value_of r.key (assign t v s.values)) trimmed
              ∙ value_of-assign q.key r.key v s.values)
          ∙ got_if (bytes_eq q.key r.key) v (value_of r.key s.values)
          ∙ ap (λ t. if bytes_eq q.key r.key then (v, 0) else t) (sym (got_before q r g form h e))
      | inl e ↦
          ap (get_named r) (set_new q v g e)
          ∙ get_found r (g ++ (new_section q v ∷ [])) (
              find_appended r (new_section q v) g
                (alike q r form h (new_section q v) ∙ new_section_named q v)
                (find_alike q r (alike q r form h) g ∙ e))
          ∙ ap got (new_value_lem q r v trimmed)
          ∙ got_if (bytes_eq q.key r.key) v none
          ∙ ap (λ t. if bytes_eq q.key r.key then (v, 0) else t) (sym (got_none q r g form h e))
    ]

    set_other : same_section q r ≡ false → get_named r (set_named q v g) ≡ get_named r g
    set_other n = elim (Option-cases (find_section q g)) [
      | inr (s, e) ↦
          ap (get_named r) (set_found q v g e) ∙ changed_other q r g (assign (trim_space q.key) v) n
      | inl e ↦
          ap (get_named r) (set_new q v g e)
          ∙ get_alike r (g ++ (new_section q v ∷ [])) g (
              find_not_appended r (new_section q v) g
                (apart q r n (new_section q v) (new_section_named q v)))
    ]

    set_either : get_named r (set_named q v g) ≡ (if same_name q r then (v, 0) else get_named r g)
    unfolding same_name
    set_either = elim (Bool-cases (same_section q r)) [
      | inl h ↦ rw (h, same_name) (set_same h)
      | inr n ↦ rw (n, same_name) (set_other n)
    ]

named_set :
    (name value : Bytes) (g : List Section) (q : Name)
    → name_of (split_dots name) ≡ some q
    → set_config name value g ≡ set_named q (trim_space value) g
unfolding set_config
named_set name value g q e = rw (e, set_config)

-- For names of two pieces or both of three, with a key that is trimmed: after `SetConfig`, `GetConfig`
-- gives the trimmed value for the name that was set, and what it gave before for every other.
pub get_config-set_config :
    (name other value : Bytes) (g : List Section) (q r : Name)
    → name_of (split_dots name) ≡ some q
    → name_of (split_dots other) ≡ some r
    → same_form q r ≡ true
    → trim_space q.key ≡ q.key
    → get_config other (set_config name value g)
      ≡ (if same_name q r then (trim_space value, 0) else get_config other g)
get_config-set_config name other value g q r e f form trimmed =
    ap (get_config other) (named_set name value g q e)
    ∙ named_get other (set_named q (trim_space value) g) r f
    ∙ set_either q r g form trimmed (trim_space value)
    ∙ ap (λ t. if same_name q r then (trim_space value, 0) else t) (sym (named_get other g r f))
