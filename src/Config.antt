-- ===== src/Config.antt =====
-- git/config.go: the sections of a configuration, and `SetConfig`, `Unset`, `GetConfig` and
-- `GetConfigSections`. A map of values stands as a list of its keys and values.
pub mod Names
pub mod Update
pub mod Change
pub mod Map
pub mod Unset
pub mod Parse
pub mod Spaces
pub mod Trim
pub mod ValuesTrip
pub mod HeaderTrip
pub mod FileSteps
pub mod FileTrip
use dgit.Prelude.{
  ℕ, Bool, true, false, not, ◌&&◌, ◌||◌, List, [], ◌∷◌, ◌++◌, Bytes, bytes_eq, ◌==◌, leb,
  if◌then◌else◌, Option, none, some,
}

abbrev pub Values : Type 0
Values = List (Bytes × Bytes)

pub record Section : Type 0 where
  pub name : Bytes
  pub subsection : Bytes
  pub values : Values

-- `strings.Split(s, ".")`
unfoldable pub prepend : ℕ → List Bytes → List Bytes
prepend c [] = (c ∷ []) ∷ []
prepend c (p ∷ pieces) = (c ∷ p) ∷ pieces

unfoldable pub split_dots : Bytes → List Bytes
split_dots [] = [] ∷ []
split_dots (c ∷ s) =
    let pieces : List Bytes = split_dots s in if c == b'.' then [] ∷ pieces else prepend c pieces

-- `strings.TrimSpace` of an ASCII text.
unfoldable pub is_space : ℕ → Bool
is_space c = leb 9 c && leb c 13 || c == 32

unfoldable pub trim_left : Bytes → Bytes
trim_left [] = []
trim_left (c ∷ s) = let rest : Bytes = trim_left s in if is_space c then rest else c ∷ s

unfoldable pub trim_right : Bytes → Bytes
trim_right [] = []
trim_right (c ∷ s) = elim (trim_right s) [
  | [] ↦ if is_space c then [] else c ∷ []
  | d ∷ rest ↦ c ∷ (d ∷ rest)
]

unfoldable pub trim_space : Bytes → Bytes
trim_space s = trim_right (trim_left s)

-- The pieces of a name of two or three: the section, its subsection, if one is named, and the key.
pub record Name : Type 0 where
  pub section : Bytes
  pub subsection : Option Bytes
  pub key : Bytes

unfoldable pub name_of : List Bytes → Option Name
name_of (section ∷ (key ∷ [])) = some (record { section = section; subsection = none; key = key })
name_of (section ∷ (sub ∷ (key ∷ []))) =
    some (record { section = section; subsection = some sub; key = key })
name_of _ = none

-- The test of the loops over the sections.
unfoldable pub is_named : Name → Section → Bool
is_named q s =
    bytes_eq s.name q.section
    && elim q.subsection [ none ↦ true | some sub ↦ bytes_eq s.subsection sub ]

unfoldable pub assign : Bytes → Bytes → Values → Values
assign k v [] = (k, v) ∷ []
assign k v ((j, w) ∷ m) = if bytes_eq j k then (j, v) ∷ m else (j, w) ∷ assign k v m

unfoldable pub value_of : Bytes → Values → Option Bytes
value_of k [] = none
value_of k ((j, w) ∷ m) = if bytes_eq j k then some w else value_of k m

-- `delete(sec.values, key)`
unfoldable pub delete : Bytes → Values → Values
delete k [] = []
delete k ((j, w) ∷ m) = if bytes_eq j k then delete k m else (j, w) ∷ delete k m

unfoldable pub find_section : Name → List Section → Option Section
find_section q [] = none
find_section q (s ∷ sections) = if is_named q s then some s else find_section q sections

-- A change to the values of the section that is found, whose map the list and `sec` share.
unfoldable pub change_section : Name → (Values → Values) → List Section → List Section
change_section q f [] = []
change_section q f (s ∷ sections) =
    if is_named q s
    then record s { values = f s.values } ∷ sections
    else s ∷ change_section q f sections

unfoldable pub named_subsection : Option Bytes → Bytes
named_subsection none = []
named_subsection (some sub) = sub

unfoldable pub new_section : Name → Bytes → Section
new_section q value = record {
  name = q.section;
  subsection = named_subsection q.subsection;
  values = assign (trim_space q.key) value [];
}

unfoldable pub set_named : Name → Bytes → List Section → List Section
set_named q value g = elim (find_section q g) [
  | none ↦ g ++ (new_section q value ∷ [])
  | some s ↦ change_section q (assign (trim_space q.key) value) g
]

unfoldable pub set_config : Bytes → Bytes → List Section → List Section
set_config name value g = elim (name_of (split_dots name)) [
  | none ↦ g
  | some q ↦ set_named q (trim_space value) g
]

unfoldable pub unset_named : Name → List Section → List Section × ℕ
unset_named q g = elim (find_section q g) [
  | none ↦ (g, 5)
  | some s ↦ elim (value_of (trim_space q.key) s.values) [
    | none ↦ (g, 5)
    | some v ↦ (change_section q (delete (trim_space q.key)) g, 0)
  ]
]

unfoldable pub unset : Bytes → List Section → List Section × ℕ
unset name g = elim (name_of (split_dots name)) [ none ↦ (g, 5) | some q ↦ unset_named q g ]

unfoldable pub get_named : Name → List Section → Bytes × ℕ
get_named q g = elim (find_section q g) [
  | none ↦ ([], 1)
  | some s ↦ elim (value_of q.key s.values) [ none ↦ ([], 1) | some v ↦ (v, 0) ]
]

unfoldable pub get_config : Bytes → List Section → Bytes × ℕ
get_config name g = elim (name_of (split_dots name)) [ none ↦ ([], 1) | some q ↦ get_named q g ]

-- `GetConfigSections`, where the empty text matches all.
unfoldable pub get_config_sections : Bytes → Bytes → List Section → List Section
get_config_sections name subsection [] = []
get_config_sections name subsection (s ∷ sections) =
    let rest : List Section = get_config_sections name subsection sections in
    if not (bytes_eq name []) && not (bytes_eq s.name name)
    then rest
    else if not (bytes_eq subsection []) && not (bytes_eq subsection s.subsection)
    then rest
    else s ∷ rest
