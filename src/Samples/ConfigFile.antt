-- ===== src/Samples/ConfigFile.antt =====
-- A configuration with two sections, which is written and parsed.
use dgit.Prelude.{◌≡◌, refl, [], ◌∷◌, codes, bytes_eq, none, some, arith}
use dgit.Config.{Section, prepend, trim_space, trim_left, trim_right, is_space, assign, value_of}
use dgit.Config.Parse.{
  split_by, join, join_more, slice, parse_variable, parse_line, parse_lines, parse_values,
  header_step, header_loop, section_of, parse_section_header, assign_all, merge_at, store,
  find_position, or_earlier, store_open, at_bracket, at_closing, at_end, config_step, config_loop,
  sections_of, parse_config, write_values, title, write_file,
}
use dgit.Config.Trim.{IsTrimmed}
use dgit.Config.ValuesTrip.{IsPlainValue}
use dgit.Config.HeaderTrip.{IsPlainHeader}
use dgit.Config.FileTrip.{AreWritable, parse_config-write_file}

abbrev remote : Section
remote = record {
  name = codes "remote";
  subsection = codes "origin";
  values = (codes "url", codes "a = b") ∷ ((codes "push", []) ∷ []);
}

abbrev core : Section
core = record { name = codes "core"; subsection = []; values = [] }

written :
    write_file (remote ∷ (core ∷ []))
    ≡ codes "[remote \"origin\"]\n\turl = a = b\n\tpush = \n[core]\n"
unfolding write_file write_values title bytes_eq
written = refl

-- A section that stands twice is merged; a bracket in a value begins a section; a file without a
-- newline at its end loses a byte, and panics behind a closing bracket.
abbrev merged : Section
merged = record { name = codes "a"; subsection = []; values = (codes "k", codes "2") ∷ [] }

merges : parse_config (codes "[a]\nk=1\n[a]\nk=2\n") ≡ some (merged ∷ [])
unfolding parse_config config_loop config_step at_bracket at_closing at_end store_open store
    find_position or_earlier merge_at assign_all sections_of parse_section_header header_loop
    header_step section_of slice parse_values parse_lines parse_line parse_variable split_by join
    join_more prepend assign trim_space trim_left trim_right is_space bytes_eq
merges = refl

panics : parse_config (codes "[a]") ≡ none
unfolding parse_config config_loop config_step at_bracket at_closing at_end store_open store
    find_position or_earlier sections_of parse_section_header header_loop header_step section_of
    slice
panics = refl

trimmed_name : IsTrimmed (codes "remote")
unfolding trim_left trim_right is_space
trimmed_name = (refl, refl)

trimmed_subsection : IsTrimmed (codes "origin")
unfolding trim_left trim_right is_space
trimmed_subsection = (refl, refl)

trimmed_core : IsTrimmed (codes "core")
unfolding trim_left trim_right is_space
trimmed_core = (refl, refl)

trimmed_empty : IsTrimmed []
unfolding trim_left trim_right
trimmed_empty = (refl, refl)

trimmed_url : IsTrimmed (codes "url")
unfolding trim_left trim_right is_space
trimmed_url = (refl, refl)

trimmed_value : IsTrimmed (codes "a = b")
unfolding trim_left trim_right is_space
trimmed_value = (refl, refl)

trimmed_push : IsTrimmed (codes "push")
unfolding trim_left trim_right is_space
trimmed_push = (refl, refl)

url_value : IsPlainValue (codes "url") (codes "a = b")
url_value = record {
  key_trimmed = trimmed_url;
  value_trimmed = trimmed_value;
  key_equals = omega arith;
  key_line = omega arith;
  value_line = omega arith;
  key_bracket = omega arith;
  value_bracket = omega arith;
}

push_value : IsPlainValue (codes "push") []
push_value = record {
  key_trimmed = trimmed_push;
  value_trimmed = trimmed_empty;
  key_equals = omega arith;
  key_line = omega arith;
  value_line = tt;
  key_bracket = omega arith;
  value_bracket = tt;
}

remote_header : IsPlainHeader remote
remote_header = record {
  name_trimmed = trimmed_name;
  subsection_trimmed = trimmed_subsection;
  name_quote = omega arith;
  subsection_quote = omega arith;
  name_closing = omega arith;
  subsection_closing = omega arith;
}

core_header : IsPlainHeader core
core_header = record {
  name_trimmed = trimmed_core;
  subsection_trimmed = trimmed_empty;
  name_quote = omega arith;
  subsection_quote = tt;
  name_closing = omega arith;
  subsection_closing = tt;
}

writable : AreWritable [] (remote ∷ (core ∷ []))
unfolding value_of find_position bytes_eq
writable =
    (remote_header, (url_value, refl, (push_value, refl, tt)), refl, (core_header, tt, refl, tt))

parse_config-write_file_example :
    parse_config (write_file (remote ∷ (core ∷ []))) ≡ some (remote ∷ (core ∷ []))
parse_config-write_file_example = parse_config-write_file (remote ∷ (core ∷ [])) writable
