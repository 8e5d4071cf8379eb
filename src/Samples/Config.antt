-- ===== src/Samples/Config.antt =====
-- A configuration with one section, which is set and unset.
use dgit.Prelude.{◌≡◌, refl, true, List, [], ◌∷◌, codes, bytes_eq, some, if◌then◌else◌, ◌==◌}
use dgit.Config.{
  Section, split_dots, prepend, trim_space, trim_left, trim_right, is_space, Name, name_of,
  is_named, assign, value_of, find_section, change_section, set_named, set_config, unset, get_named,
  get_config,
}
use dgit.Config.Names.{same_form, both_or_none, same_name}
use dgit.Config.Map.{get_config-set_config}
use dgit.Config.Unset.{get_config-unset}

abbrev one_section : List Section
one_section =
    record {
      name = codes "remote";
      subsection = codes "origin";
      values = (codes "url", codes "here") ∷ [];
    }
    ∷ []

abbrev url : Name
url = record { section = codes "remote"; subsection = some (codes "origin"); key = codes "url" }

abbrev push : Name
push = record { section = codes "remote"; subsection = some (codes "origin"); key = codes "push" }

run :
    get_config
      (codes "remote.origin.url")
      (set_config (codes "remote.origin.url") (codes " there ") one_section)
    ≡ (codes "there", 0)
unfolding get_config set_config set_named get_named find_section change_section assign value_of
    is_named name_of split_dots prepend trim_space trim_left trim_right is_space bytes_eq
run = refl

url_name : name_of (split_dots (codes "remote.origin.url")) ≡ some url
unfolding name_of split_dots prepend
url_name = refl

push_name : name_of (split_dots (codes "remote.origin.push")) ≡ some push
unfolding name_of split_dots prepend
push_name = refl

url_trimmed : trim_space (codes "url") ≡ codes "url"
unfolding trim_space trim_left trim_right is_space
url_trimmed = refl

one_form : same_form url push ≡ true
unfolding same_form both_or_none
one_form = refl

get_config-set_config_example :
    get_config
      (codes "remote.origin.push")
      (set_config (codes "remote.origin.url") (codes " there ") one_section)
    ≡ (if same_name url push
        then (trim_space (codes " there "), 0)
        else get_config (codes "remote.origin.push") one_section)
get_config-set_config_example =
    get_config-set_config (codes "remote.origin.url") (codes "remote.origin.push") (codes " there ")
      one_section url push url_name push_name one_form url_trimmed

get_config-unset_example :
    ((unset (codes "remote.origin.url") one_section).1
      ≡ (if (get_config (codes "remote.origin.url") one_section).1 == 0 then 0 else 5))
    × (get_config (codes "remote.origin.push") ((unset (codes "remote.origin.url") one_section).0)
        ≡ (if same_name url push
            then ([], 1)
            else get_config (codes "remote.origin.push") one_section))
get_config-unset_example =
    get_config-unset (codes "remote.origin.url") (codes "remote.origin.push") one_section url push
      url_name push_name one_form url_trimmed
