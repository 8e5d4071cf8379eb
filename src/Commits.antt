-- ===== src/Commits.antt =====
-- git/sha1.go and git/mergebase.go: the parents of a commit, its ancestors, and a merge base. A map
-- with empty values stands as a list, and the cache of the ancestor maps is left out.
pub mod Ancestors
pub mod Common
pub mod RevList
pub mod Call
pub mod Visit
pub mod Rule
pub mod Listing
pub mod Counting
pub mod Ending
use dgit.Prelude.{
  ℕ, zero, suc, Bool, true, false, ◌||◌, ◌==◌, List, [], ◌∷◌, ◌++◌, Bytes, codes, if◌then◌else◌,
  bytes_eq, has_prefix, length, drop, Option, none, some,
}

-- The object database, with the content of the object of an id, and
-- `hex.DecodeString(strings.TrimSpace(s))` of the Go library.
pub record Store : Type 0 where
  pub content : Bytes → Option Bytes
  pub decode_hex : Bytes → Option Bytes

unfoldable pub has : Bytes → List Bytes → Bool
has k [] = false
has k (x ∷ m) = bytes_eq x k || has k m

-- What `AncestorMap` returns. `unfinished` means that the fuel ran out.
pub data AncestorMap : Type 0 where
  known : List Bytes → AncestorMap
  failed : AncestorMap
  unfinished : AncestorMap

-- `for _, p := range parents`, with the recursive call.
unfoldable pub collect : (Bytes → AncestorMap) → List Bytes → List Bytes → AncestorMap
collect call [] m = known m
collect call (p ∷ ps) m = elim (call p) [
  | known grandparents ↦ collect call ps (m ++ grandparents)
  | failed ↦ failed
  | unfinished ↦ unfinished
]

-- What `MergeBase` returns, `nothing_common` for the zero id.
pub data MergeBase : Type 0 where
  base : Bytes → MergeBase
  nothing_common : MergeBase
  invalid : MergeBase
  out_of_fuel : MergeBase

module _ (c : Store) where
  unfoldable pub sha1_from_string : Bytes → Option Bytes
  sha1_from_string s = elim (c.decode_hex s) [
    | none ↦ none
    | some b ↦ if length b == 20 then some b else none
  ]

  -- The loop of `Parents` over the bytes of the content, with the line so far. A last line without
  -- its end is not looked at.
  unfoldable pub parents_loop : Bytes → Bytes → List Bytes → Option (List Bytes)
  parents_loop line [] ps = some ps
  parents_loop line (b ∷ rest) ps = elim (b == b'\n') [
    | false ↦ parents_loop (line ++ (b ∷ [])) rest ps
    | true ↦ elim (length line == 0) [
      | true ↦ some ps
      | false ↦ elim (has_prefix line (codes "parent ")) [
        | false ↦ parents_loop [] rest ps
        | true ↦ elim (sha1_from_string (drop 7 line)) [
          | none ↦ none
          | some p ↦ parents_loop [] rest (ps ++ (p ∷ []))
        ]
      ]
    ]
  ]

  unfoldable pub parents : Bytes → Option (List Bytes)
  parents s = elim (c.content s) [ none ↦ none | some val ↦ parents_loop [] val [] ]

  unfoldable pub ancestor_map : ℕ → Bytes → AncestorMap
  ancestor_map zero s = unfinished
  ancestor_map (suc fuel) s = elim (parents s) [
    | none ↦ failed
    | some ps ↦ collect (ancestor_map fuel) ps (s ∷ ps)
  ]

  -- `child.IsAncestor(c, p)`; `none` means that the fuel ran out.
  unfoldable pub is_ancestor : ℕ → Bytes → Bytes → Option Bool
  is_ancestor fuel child p = elim (ancestor_map fuel p) [
    | known m ↦ some (has child m)
    | failed ↦ some false
    | unfinished ↦ none
  ]

  module _ (fuel : ℕ) where
    -- Whether `check` is an ancestor of one of the other heads.
    unfoldable pub of_some : Bytes → List Bytes → Option Bool
    of_some check [] = some false
    of_some check (other ∷ others) = elim (is_ancestor fuel check other) [
      | none ↦ none
      | some true ↦ some true
      | some false ↦ of_some check others
    ]

    -- The first commit of a level that is.
    unfoldable pub check_level : List Bytes → List Bytes → Option (Option Bytes)
    check_level [] others = some none
    check_level (check ∷ level) others = elim (of_some check others) [
      | none ↦ none
      | some true ↦ some (some check)
      | some false ↦ check_level level others
    ]

    unfoldable pub next_level : List Bytes → Option (List Bytes)
    next_level [] = some []
    next_level (p ∷ level) = elim (parents p) [
      | none ↦ none
      | some ps ↦ elim (next_level level) [ none ↦ none | some rest ↦ some (ps ++ rest) ]
    ]

    -- The loop over the levels, with a fuel of its own.
    unfoldable pub level_loop : ℕ → List Bytes → List Bytes → MergeBase
    level_loop rounds [] others = nothing_common
    level_loop zero (x ∷ level) others = out_of_fuel
    level_loop (suc rounds) (x ∷ level) others = elim (check_level (x ∷ level) others) [
      | none ↦ out_of_fuel
      | some (some check) ↦ base check
      | some none ↦ elim (next_level (x ∷ level)) [
        | none ↦ invalid
        | some next ↦ level_loop rounds next others
      ]
    ]

    unfoldable pub breadth_first : ℕ → Bytes → List Bytes → MergeBase
    breadth_first rounds cmt others = elim (parents cmt) [
      | none ↦ invalid
      | some level ↦ level_loop rounds level others
    ]

    -- `MergeBase` of commits without the option Octopus.
    unfoldable pub merge_base : ℕ → Bool → List Bytes → MergeBase
    merge_base rounds only_ancestor [] = invalid
    merge_base rounds only_ancestor (cmt0 ∷ []) = invalid
    merge_base rounds only_ancestor (cmt0 ∷ (cmt1 ∷ [])) = elim (is_ancestor fuel cmt0 cmt1) [
      | none ↦ out_of_fuel
      | some true ↦ base cmt0
      | some false ↦ elim only_ancestor [
        | true ↦ invalid
        | false ↦ elim (is_ancestor fuel cmt1 cmt0) [
          | none ↦ out_of_fuel
          | some true ↦ base cmt1
          | some false ↦ breadth_first rounds cmt0 (cmt1 ∷ [])
        ]
      ]
    ]
    merge_base rounds only_ancestor (cmt0 ∷ (cmt1 ∷ (cmt2 ∷ commits))) =
        breadth_first rounds cmt0 (cmt1 ∷ (cmt2 ∷ commits))
