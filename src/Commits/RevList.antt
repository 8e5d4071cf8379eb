-- ===== src/Commits/RevList.antt =====
-- git/revlist.go: `RevList` without the options Objects and VerifyObjects, over ids that are
-- resolved already. A map with empty values stands as a list.
use dgit.Prelude.{
  ℕ, zero, suc, ◌+◌, true, false, List, [], ◌∷◌, ◌++◌, Bytes, if◌then◌else◌, ltb, Option, none,
  some,
}
use dgit.Commits.{Store, has, parents}

-- `excludeList`, the values of `RevList`, and `callbackCount`.
pub record Walk : Type 0 where
  pub excluded : List Bytes
  pub vals : List Bytes
  pub callback_count : ℕ

-- `buildExcludeList`, or `callbackCountWrapper` around the callback of `RevList`.
pub data Callback : Type 0 where
  build_exclude_list : Callback
  count_and_report : Option ℕ → Callback

-- `unfinished` means that the fuel ran out.
pub data Walked : Type 0 where
  running : Walk → Walked
  max_count_error : Walk → Walked
  failed : Walked
  unfinished : Walked

unfoldable pub exclude : Bytes → Walk → Walk
exclude s w = record w { excluded = s ∷ w.excluded }

unfoldable pub report : Bytes → Walk → Walk
report s w = record w { callback_count = w.callback_count + 1; vals = w.vals ++ (s ∷ []) }

unfoldable pub call : Callback → Bytes → Walk → Walked
call build_exclude_list s w = if has s w.excluded then running w else running (exclude s w)
call (count_and_report none) s w = running (report s w)
call (count_and_report (some max)) s w =
    if ltb max (w.callback_count + 1)
    then max_count_error (record w { callback_count = w.callback_count + 1 })
    else running (report s w)

-- What `RevList` returns.
pub data Listed : Type 0 where
  listed : List Bytes → Listed
  list_failed : Listed
  list_unfinished : Listed

unfoldable pub finish : Walked → Listed
finish (running w) = listed w.vals
finish (max_count_error w) = listed w.vals
finish failed = list_failed
finish unfinished = list_unfinished

abbrev pub nothing_yet : Walk
nothing_yet = record { excluded = []; vals = []; callback_count = 0 }

module _ (c : Store) where
  -- The loop of `revListCallback`, with its recursive call.
  unfoldable pub visit : Callback → (List Bytes → Walk → Walked) → List Bytes → Walk → Walked
  visit cb recur [] w = running w
  visit cb recur (cmt ∷ commits) w = elim (has cmt w.excluded) [
    | true ↦ visit cb recur commits w
    | false ↦ elim (call cb cmt w) [
      | max_count_error w1 ↦ max_count_error w1
      | failed ↦ failed
      | unfinished ↦ unfinished
      | running w1 ↦ elim (parents c cmt) [
        | none ↦ failed
        | some ps ↦ elim (recur ps (exclude cmt w1)) [
          | running w3 ↦ visit cb recur commits w3
          | max_count_error w3 ↦ max_count_error w3
          | failed ↦ failed
          | unfinished ↦ unfinished
        ]
      ]
    ]
  ]

  unfoldable pub walk : ℕ → Callback → List Bytes → Walk → Walked
  walk zero cb commits w = unfinished
  walk (suc fuel) cb commits w = visit cb (walk fuel cb) commits w

  unfoldable pub rev_list : ℕ → Option ℕ → List Bytes → List Bytes → Listed
  unfolding finish
  rev_list fuel max_count includes excludes =
      let done : Walked = elim excludes [
        | [] ↦ running nothing_yet
        | e ∷ es ↦ walk fuel build_exclude_list (e ∷ es) nothing_yet
      ] in
      elim done [
        | running w ↦ finish (walk fuel (count_and_report max_count) includes w)
        | max_count_error w ↦ list_failed
        | failed ↦ list_failed
        | unfinished ↦ list_unfinished
      ]
