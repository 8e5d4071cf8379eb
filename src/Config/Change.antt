-- ===== src/Config/Change.antt =====
-- What is got by a name after a change to the values of a section.
use dgit.Prelude.{◌≡◌, ◌∙◌, true, false, List, [], Bytes, none, some}
use dgit.Config.{
  Values, Section, split_dots, Name, name_of, value_of, find_section, change_section, get_named,
  get_config,
}
use dgit.Config.Names.{same_form, same_section, alike, apart}
use dgit.Config.Update.{
  got, find-change_same, find-change_other, find_alike, get_found, get_not_found, get_alike,
}

-- What is got after a change to the section's values, and after a new section.
module _ (q r : Name) (g : List Section) where
  pub changed_same :
      (f : Values → Values)
      → same_form q r ≡ true
      → same_section q r ≡ true
      → {s : Section} → find_section q g ≡ some s
      → get_named r (change_section q f g) ≡ got (value_of r.key (f s.values))
  changed_same f form h e =
      get_found r (change_section q f g) (find-change_same q r f (alike q r form h) g e)

  pub changed_other :
      (f : Values → Values)
      → same_section q r ≡ false
      → get_named r (change_section q f g) ≡ get_named r g
  changed_other f n = get_alike r (change_section q f g) g (find-change_other q r f (apart q r n) g)

  pub got_before :
      same_form q r ≡ true
      → same_section q r ≡ true
      → {s : Section} → find_section q g ≡ some s
      → get_named r g ≡ got (value_of r.key s.values)
  got_before form h e = get_found r g (find_alike q r (alike q r form h) g ∙ e)

  pub got_none :
      same_form q r ≡ true
      → same_section q r ≡ true
      → find_section q g ≡ none
      → get_named r g ≡ ([], 1)
  got_none form h e = get_not_found r g (find_alike q r (alike q r form h) g ∙ e)

pub named_get :
    (other : Bytes) (g : List Section) (r : Name)
    → name_of (split_dots other) ≡ some r
    → get_config other g ≡ get_named r g
unfolding get_config
named_get other g r f = rw (f, get_config)
