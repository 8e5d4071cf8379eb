-- ===== src/Index/IndexInfo.antt =====
-- git/updateindex.go: `UpdateIndexFromReader`, and `UpdateIndex` as a whole.
use dgit.Prelude.{
  ℕ, ◌*◌, ◌+◌, Bool, true, false, not, List, [], ◌∷◌, Bytes, codes, bytes_eq, ◌==◌, length,
  if◌then◌else◌, Option, none, some,
}
use dgit.EntryMode.{mode_from_string, tree_type}
use dgit.PacketLine.{digit_value}
use dgit.Config.Spaces.{trim_spaces}
use dgit.Config.Parse.{split_by}
use dgit.Index.Entry.{Index, new_index}
use dgit.Index.Stages.{WorkTree, Options, add_stage}
use dgit.Index.Files.{remove_file}
use dgit.Index.Update.{
  UpdateError, invalid_line, invalid_sha1, invalid_mode, invalid_stage, type_differs, no_type,
  UpdateIndexOptions, WorkFile, with_error, update_loop, update_index_refresh,
  update_index_cache_info,
}

-- `hex.DecodeString`
unfoldable pub decode_hex : Bytes → Option Bytes
decode_hex [] = some []
decode_hex (a ∷ []) = none
decode_hex (a ∷ (b ∷ s)) = elim (digit_value a) [
  | none ↦ none
  | some x ↦ elim (digit_value b) [
    | none ↦ none
    | some y ↦ elim (decode_hex s) [ none ↦ none | some bs ↦ some ((x * 16 + y) ∷ bs) ]
  ]
]

unfoldable pub sha1_from_string : Bytes → Option Bytes
sha1_from_string s = elim (decode_hex (trim_spaces s)) [
  | none ↦ none
  | some b ↦ if length b == 20 then some b else none
]

unfoldable pub stage_from_string : Bytes → Option ℕ
stage_from_string s =
    if bytes_eq s (codes "0")
    then some 0
    else if bytes_eq s (codes "1")
    then some 1
    else if bytes_eq s (codes "2")
    then some 2
    else if bytes_eq s (codes "3")
    then some 3
    else none

abbrev pub adding : Options
adding = record { add = true; replace = false }

module _ (c : WorkTree) where
  unfoldable pub add_info : Bytes → ℕ → Bytes → ℕ → Index → Index × Option UpdateError
  add_info path mode id stage g = with_error (
      add_stage c adding
        (record { path = path; mode = mode; sha1 = id; stage = stage; size = 0; mtime = 0 }) g)

  -- mode SP sha1 TAB path
  unfoldable pub info_of_two : Bytes → Bytes → Bytes → Index → Index × Option UpdateError
  info_of_two path mode id g = elim (sha1_from_string id) [
    | none ↦ (g, some invalid_sha1)
    | some sha1 ↦
        if bytes_eq mode (codes "0")
        then (remove_file path g, none)
        else if not (mode_from_string mode).1
        then (g, some invalid_mode)
        else add_info path (mode_from_string mode).0 sha1 0 g
  ]

  -- mode SP sha1 SP stage TAB path
  unfoldable pub info_with_stage :
      Bytes → Bytes → Bytes → Bytes → Index → Index × Option UpdateError
  info_with_stage path mode id stage g =
      if not (mode_from_string mode).1 then (g, some invalid_mode) else elim (sha1_from_string id) [
        | none ↦ (g, some invalid_sha1)
        | some sha1 ↦ elim (stage_from_string stage) [
          | none ↦ (g, some invalid_stage)
          | some n ↦ add_info path (mode_from_string mode).0 sha1 n g
        ]
      ]

  -- mode SP type SP sha1 TAB path. `no_type` is the panic of `TreeType`.
  unfoldable pub info_with_type : Bytes → Bytes → Bytes → Bytes → Index → Index × Option UpdateError
  info_with_type path mode type id g =
      if not (mode_from_string mode).1
      then (g, some invalid_mode)
      else elim (tree_type (mode_from_string mode).0) [
        | none ↦ (g, some no_type)
        | some t ↦
            if not (bytes_eq t type) then (g, some type_differs) else elim (sha1_from_string id) [
              | none ↦ (g, some invalid_sha1)
              | some sha1 ↦ add_info path (mode_from_string mode).0 sha1 0 g
            ]
      ]

  unfoldable pub info_fields : Bytes → List Bytes → Index → Index × Option UpdateError
  info_fields path (mode ∷ (id ∷ [])) g = info_of_two path mode id g
  info_fields path (mode ∷ (second ∷ (third ∷ []))) g =
      if length second == 40
      then info_with_stage path mode second third g
      else info_with_type path mode second third g
  info_fields path _ g = (g, some invalid_line)

  unfoldable pub info_pieces : List Bytes → Index → Index × Option UpdateError
  info_pieces (fields ∷ (path ∷ [])) g = info_fields path (split_by b' ' fields) g
  info_pieces _ g = (g, some invalid_line)

  unfoldable pub info_line : Bytes → Index → Index × Option UpdateError
  info_line text g =
      if bytes_eq (trim_spaces text) []
      then (g, none)
      else info_pieces (split_by b'\t' (trim_spaces text)) g

  -- The loop over the lines that the `bufio.Scanner` gives.
  unfoldable pub info_loop : List Bytes → Index → Index × Option UpdateError
  info_loop [] g = (g, none)
  info_loop (text ∷ lines) g = elim (info_line text g).1 [
    | some e ↦ info_line text g
    | none ↦ info_loop lines (info_line text g).0
  ]

  -- `UpdateIndexFromReader`, for the lines and whether the scanner has no error at their end. An error
  -- leaves no index.
  unfoldable pub update_index_from_reader : List Bytes → Bool → Option Index
  update_index_from_reader lines scanned = elim (info_loop lines new_index).1 [
    | some e ↦ none
    | none ↦ if scanned then some (info_loop lines new_index).0 else none
  ]

-- `UpdateIndex` without `IndexInfo`, which is `update_index_from_reader`.
unfoldable pub update_index :
    WorkTree
    → (Bytes → Bytes × Bool)
    → (Bytes → Option (List Bytes))
    → UpdateIndexOptions
    → List WorkFile
    → Index
    → Index × Option UpdateError
update_index c write_object cached opts files g =
    if opts.refresh then update_index_refresh c g else elim opts.cache_info [
      | some info ↦ update_index_cache_info c opts info g
      | none ↦ update_loop c write_object cached opts files g
    ]
