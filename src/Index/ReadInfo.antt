-- ===== src/Index/ReadInfo.antt =====
-- git/updateindex.go: an index that is read from index-info is well formed.
use dgit.Prelude.{
  ℕ, ◌<◌, ◌≡◌, inl, inr, refl, Bool, List, [], ◌∷◌, Bytes, codes, bytes_eq, Bool-cases,
  Option-cases, some, some_inj, subst, arith,
}
use dgit.EntryMode.{mode_from_string, tree_type}
use dgit.Config.Spaces.{trim_spaces}
use dgit.Config.Parse.{split_by}
use dgit.Index.Entry.{Index, new_index}
use dgit.Index.Stages.{WorkTree}
use dgit.Index.WellFormed.{IsWellFormed}
use dgit.Index.Removing.{remove_file-IsWellFormed}
use dgit.Index.IndexInfo.{
  sha1_from_string, stage_from_string, add_info, info_of_two, info_with_stage, info_with_type,
  info_fields, info_pieces, info_line, info_loop, update_index_from_reader,
}
use dgit.Index.UpdateIndex.{stage_added, one_of}

module _ (c : WorkTree) where
  add_info-IsWellFormed :
      (path : Bytes) (mode : ℕ) (id : Bytes) (stage : ℕ) (g : Index)
      → stage < 4
      → IsWellFormed g
      → IsWellFormed (add_info c path mode id stage g).0
  unfolding add_info
  add_info-IsWellFormed path mode id stage g h w = stage_added c _ _ g h w

  info_of_two-IsWellFormed :
      (path mode id : Bytes) (g : Index)
      → IsWellFormed g
      → IsWellFormed (info_of_two c path mode id g).0
  unfolding info_of_two
  info_of_two-IsWellFormed path mode id g w = elim (Option-cases (sha1_from_string id)) [
    | inl e ↦ rw (e, info_of_two) w
    | inr (sha1, e) ↦ elim (Bool-cases (bytes_eq mode (codes "0"))) [
      | inl y ↦ rw (e, y, info_of_two) (remove_file-IsWellFormed path g w)
      | inr n ↦ elim (Bool-cases (mode_from_string mode).1) [
        | inr m ↦ rw (e, n, m, info_of_two) w
        | inl k ↦
            rw (e, n, k, info_of_two)
              (add_info-IsWellFormed path (mode_from_string mode).0 sha1 0 g (omega arith) w)
      ]
    ]
  ]

  stage_below : (s : Bytes) (n : ℕ) → stage_from_string s ≡ some n → n < 4
  unfolding stage_from_string
  stage_below s n e = ground arith

  info_with_stage-IsWellFormed :
      (path mode id stage : Bytes) (g : Index)
      → IsWellFormed g
      → IsWellFormed (info_with_stage c path mode id stage g).0
  unfolding info_with_stage
  info_with_stage-IsWellFormed path mode id stage g w =
      elim (Bool-cases (mode_from_string mode).1) [
        | inr m ↦ rw (m, info_with_stage) w
        | inl y ↦ elim (Option-cases (sha1_from_string id)) [
          | inl e ↦ rw (y, e, info_with_stage) w
          | inr (sha1, e) ↦ elim (Option-cases (stage_from_string stage)) [
            | inl f ↦ rw (y, e, f, info_with_stage) w
            | inr (k, f) ↦
                rw (y, e, f, info_with_stage)
                  (add_info-IsWellFormed path (mode_from_string mode).0 sha1 k g
                    (stage_below stage k f) w)
          ]
        ]
      ]

  info_with_type-IsWellFormed :
      (path mode type id : Bytes) (g : Index)
      → IsWellFormed g
      → IsWellFormed (info_with_type c path mode type id g).0
  unfolding info_with_type
  info_with_type-IsWellFormed path mode type id g w = elim (Bool-cases (mode_from_string mode).1) [
    | inr m ↦ rw (m, info_with_type) w
    | inl y ↦ elim (Option-cases (tree_type (mode_from_string mode).0)) [
      | inl e ↦ rw (y, e, info_with_type) w
      | inr (t, e) ↦ elim (Bool-cases (bytes_eq t type)) [
        | inr m ↦ rw (y, e, m, info_with_type) w
        | inl z ↦ elim (Option-cases (sha1_from_string id)) [
          | inl f ↦ rw (y, e, z, f, info_with_type) w
          | inr (sha1, f) ↦
              rw (y, e, z, f, info_with_type)
                (add_info-IsWellFormed path (mode_from_string mode).0 sha1 0 g (omega arith) w)
        ]
      ]
    ]
  ]

  info_fields-IsWellFormed :
      (path : Bytes) (fields : List Bytes) (g : Index)
      → IsWellFormed g
      → IsWellFormed (info_fields c path fields g).0
  unfolding info_fields
  info_fields-IsWellFormed path (mode ∷ (id ∷ [])) g w = info_of_two-IsWellFormed path mode id g w
  info_fields-IsWellFormed path (mode ∷ (second ∷ (third ∷ []))) g w =
      one_of _ _ _ (λ y. info_with_stage-IsWellFormed path mode second third g w)
        (λ n. info_with_type-IsWellFormed path mode second third g w)
  info_fields-IsWellFormed path [] g w = w
  info_fields-IsWellFormed path (a ∷ []) g w = w
  info_fields-IsWellFormed path (a ∷ (b ∷ (d ∷ (e ∷ more)))) g w = w

  info_pieces-IsWellFormed :
      (pieces : List Bytes) (g : Index) → IsWellFormed g → IsWellFormed (info_pieces c pieces g).0
  unfolding info_pieces
  info_pieces-IsWellFormed (fields ∷ (path ∷ [])) g w =
      info_fields-IsWellFormed path (split_by b' ' fields) g w
  info_pieces-IsWellFormed [] g w = w
  info_pieces-IsWellFormed (a ∷ []) g w = w
  info_pieces-IsWellFormed (a ∷ (b ∷ (d ∷ more))) g w = w

  info_line-IsWellFormed :
      (text : Bytes) (g : Index) → IsWellFormed g → IsWellFormed (info_line c text g).0
  unfolding info_line
  info_line-IsWellFormed text g w =
      one_of _ _ _ (λ y. w) (λ n. info_pieces-IsWellFormed (split_by b'\t' (trim_spaces text)) g w)

  info_loop-IsWellFormed :
      (lines : List Bytes) (g : Index) → IsWellFormed g → IsWellFormed (info_loop c lines g).0
  unfolding info_loop
  info_loop-IsWellFormed [] g w = w
  info_loop-IsWellFormed (text ∷ lines) g w =
      let turn = info_line-IsWellFormed text g w in
      elim (Option-cases (info_line c text g).1) [
        | inr (e, h) ↦ rw (h, info_loop) turn
        | inl h ↦ rw (h, info_loop) (info_loop-IsWellFormed lines _ turn)
      ]

new_index-IsWellFormed : IsWellFormed new_index
unfolding new_index
new_index-IsWellFormed = record { sorted = tt; counted = refl; words = tt }

-- An index that is read from lines of index-info, of all forms of lines, keeps the invariant: order,
-- count and flags.
pub update_index_from_reader-IsWellFormed :
    (c : WorkTree) (lines : List Bytes) (scanned : Bool) {g : Index}
    → update_index_from_reader c lines scanned ≡ some g
    → IsWellFormed g
unfolding update_index_from_reader
update_index_from_reader-IsWellFormed c lines scanned h =
    elim (Option-cases (info_loop c lines new_index).1) [
      | inr (e, f) ↦ cc (rw (f, update_index_from_reader) at h)
      | inl f ↦ elim (Bool-cases scanned) [
        | inr n ↦ cc (rw (f, n, update_index_from_reader) at h)
        | inl y ↦
            subst IsWellFormed (some_inj (rw (f, y, update_index_from_reader) at h))
              (info_loop-IsWellFormed c lines new_index new_index-IsWellFormed)
      ]
    ]
