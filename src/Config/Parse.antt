-- ===== src/Config/Parse.antt =====
-- git/config.go: `ParseValues`, `ParseSectionHeader`, `ParseConfig` and `WriteFile`. A slice
-- `s[a:b]` is `slice`, and `none` stands for its panic.
use dgit.Prelude.{
  ℕ, zero, suc, ◌-◌, Bool, true, false, not, ◌&&◌, List, [], ◌∷◌, ◌++◌, Bytes, codes, bytes_eq,
  ◌==◌, ltb, length, take, drop, if◌then◌else◌, Option, none, some,
}
use dgit.Config.{Values, Section, prepend, trim_space, assign}

-- `strings.Split` at a single byte, and `strings.Join`.
unfoldable pub split_by : ℕ → Bytes → List Bytes
split_by sep [] = [] ∷ []
split_by sep (c ∷ s) =
    let pieces : List Bytes = split_by sep s in if c == sep then [] ∷ pieces else prepend c pieces

unfoldable pub join_more : ℕ → List Bytes → Bytes
join_more sep [] = []
join_more sep (p ∷ pieces) = sep ∷ (p ++ join_more sep pieces)

unfoldable pub join : ℕ → List Bytes → Bytes
join sep [] = []
join sep (p ∷ pieces) = p ++ join_more sep pieces

unfoldable pub slice : ℕ → ℕ → Bytes → Bytes
slice a b s = take (b - a) (drop a s)

-- `Split` gives at least one piece.
unfoldable pub parse_variable : List Bytes → Values → Values
parse_variable [] m = m
parse_variable (p ∷ pieces) m = assign (trim_space p) (trim_space (join b'=' pieces)) m

unfoldable pub parse_line : Bytes → Values → Values
parse_line line m =
    if bytes_eq (trim_space line) [] then m else parse_variable (split_by b'=' (trim_space line)) m

unfoldable pub parse_lines : List Bytes → Values → Values
parse_lines [] m = m
parse_lines (line ∷ lines) m = parse_lines lines (parse_line line m)

unfoldable pub parse_values : Bytes → Values
parse_values s = parse_lines (split_by b'\n' s) []

-- The variables of `ParseSectionHeader`.
pub record Header : Type 0 where
  pub name : Bytes
  pub subsection : Bytes
  pub parsing_subsection : Bool
  pub subsection_start : ℕ

unfoldable pub header_step : Bytes → ℕ → ℕ → Header → Header
header_step line idx b h =
    if b == b'"'
    then if h.parsing_subsection
      then record h { subsection = trim_space (slice h.subsection_start idx line) }
      else record h {
        parsing_subsection = true;
        subsection_start = suc idx;
        name = trim_space (take idx line);
      }
    else h

unfoldable pub header_loop : Bytes → ℕ → Bytes → Header → Header
header_loop line idx [] h = h
header_loop line idx (b ∷ bs) h = header_loop line (suc idx) bs (header_step line idx b h)

unfoldable pub section_of : Bytes → Header → Section
section_of line h = record {
  name = (if h.subsection_start == 0 then line else h.name);
  subsection = h.subsection;
  values = [];
}

unfoldable pub parse_section_header : Bytes → Section
parse_section_header line = section_of line (
    header_loop line 0 line
      (record { name = line; subsection = []; parsing_subsection = false; subsection_start = 0 }))

-- The variables of `ParseConfig`. `sect` is the position of the section that it points at.
pub record Parser : Type 0 where
  pub section : Section
  pub parsing_section_name : Bool
  pub parsing_values : Bool
  pub sect : Option ℕ
  pub sections : List Section
  pub last_bracket : ℕ
  pub last_closing_bracket : ℕ

abbrev pub no_section : Section
no_section = record { name = []; subsection = []; values = [] }

unfoldable pub assign_all : Values → Values → Values
assign_all [] m = m
assign_all ((k, v) ∷ new) m = assign_all new (assign k v m)

unfoldable pub merge_at : ℕ → Values → List Section → List Section
merge_at n new [] = []
merge_at zero new (s ∷ sections) = record s { values = assign_all new s.values } ∷ sections
merge_at (suc n) new (s ∷ sections) = s ∷ merge_at n new sections

-- The values of the open section are stored with it, or in the section that stands already.
unfoldable pub store : Values → Parser → Parser
store values p = elim p.sect [
  | some n ↦ record p { sections = merge_at n values p.sections; sect = none }
  | none ↦ record p { sections = p.sections ++ (record p.section { values = values } ∷ []) }
]

unfoldable pub find_position : Section → List Section → Option ℕ
find_position s [] = none
find_position s (x ∷ sections) =
    if bytes_eq x.name s.name && bytes_eq x.subsection s.subsection
    then some 0
    else elim (find_position s sections) [ none ↦ none | some n ↦ some (suc n) ]

unfoldable pub or_earlier : Option ℕ → Option ℕ → Option ℕ
or_earlier none earlier = earlier
or_earlier (some n) earlier = some n

unfoldable pub store_open : Bytes → ℕ → Parser → Parser
store_open raw idx p =
    if p.parsing_values
    then record (store (parse_values (slice (suc p.last_closing_bracket) idx raw)) p) {
      parsing_values = false;
    }
    else p

unfoldable pub at_bracket : Bytes → ℕ → ℕ → Parser → Parser
at_bracket raw idx b p =
    if b == b'[' && not p.parsing_section_name
    then record (store_open raw idx p) {
      parsing_section_name = true;
      last_bracket = idx;
      section = no_section;
    }
    else p

unfoldable pub at_closing : Bytes → ℕ → ℕ → Parser → Parser
at_closing raw idx b p =
    if b == b']' && p.parsing_section_name
    then (let s : Section = parse_section_header (slice (suc p.last_bracket) idx raw) in
        record p {
          section = s;
          sect = or_earlier (find_position s p.sections) p.sect;
          parsing_values = true;
          parsing_section_name = false;
          last_closing_bracket = idx;
        })
    else p

unfoldable pub at_end : Bytes → ℕ → Parser → Option Parser
at_end raw idx p =
    if idx == length raw - 1 && p.parsing_values
    then if ltb idx (suc p.last_closing_bracket)
      then none
      else some (store (parse_values (slice (suc p.last_closing_bracket) idx raw)) p)
    else some p

unfoldable pub config_step : Bytes → ℕ → ℕ → Parser → Option Parser
config_step raw idx b p = at_end raw idx (at_closing raw idx b (at_bracket raw idx b p))

unfoldable pub config_loop : Bytes → ℕ → Bytes → Parser → Option Parser
config_loop raw idx [] p = some p
config_loop raw idx (b ∷ bs) p = elim (config_step raw idx b p) [
  | none ↦ none
  | some q ↦ config_loop raw (suc idx) bs q
]

abbrev pub no_parser : Parser
no_parser = record {
  section = no_section;
  parsing_section_name = false;
  parsing_values = false;
  sect = none;
  sections = [];
  last_bracket = 0;
  last_closing_bracket = 0;
}

unfoldable pub sections_of : Option Parser → Option (List Section)
sections_of none = none
sections_of (some p) = some p.sections

unfoldable pub parse_config : Bytes → Option (List Section)
parse_config raw = sections_of (config_loop raw 0 raw no_parser)

-- `WriteFile`, where the values come in the order of one iteration over the map.
unfoldable pub write_values : Values → Bytes
write_values [] = []
write_values ((k, v) ∷ m) = b'\t' ∷ (k ++ (codes " = " ++ (v ++ (b'\n' ∷ write_values m))))

unfoldable pub title : Section → Bytes
title s =
    if bytes_eq s.subsection []
    then s.name
    else s.name ++ (codes " \"" ++ (s.subsection ++ codes "\""))

unfoldable pub write_file : List Section → Bytes
write_file [] = []
write_file (s ∷ sections) =
    b'[' ∷ (title s ++ (codes "]\n" ++ (write_values s.values ++ write_file sections)))
