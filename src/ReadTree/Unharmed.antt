-- ===== src/ReadTree/Unharmed.antt =====
-- git/readtree.go: what `ReadTreeThreeWay` may do to a path of the index, where its test for conflicts
-- has passed.
use dgit.Prelude.{
  ◌≡◌, inl, inr, refl, sym, ◌∙◌, subst, Bool, true, false, not, ◌&&◌, Bytes, if◌then◌else◌,
  bytes_eq, bytes_eq_iff, Bool-cases, Option, Option-cases, none, some, some_inj, arith,
}
use dgit.Index.Entry.{IndexEntry}
use dgit.ReadTree.Maps.{IndexMap, get, has_dir, contains, Files, is_clean}
use dgit.ReadTree.ThreeWay.{Resolution, collapse, resolution}
use dgit.ReadTree.Sides.{
  is_there, differs, sides, take_side, same_path-differs, contains_file, resolution-sides,
}
use dgit.ReadTree.Check.{has_id, check_ours, check_entry, check_loop, check_loop-entry}

-- What the merge does to a path of the index, where ours has the entry `ours` there: it puts there
-- what the index has already, or the entry of ours; or index and file are as in ours.
pub data Unharmed (orig : IndexEntry) (clean : IndexEntry → Bool) (ours : Option IndexEntry)
    (merged : Resolution) : Type 0 where
  already :
      (e : IndexEntry) → merged ≡ collapse e → e.sha1 ≡ orig.sha1 → Unharmed orig clean ours merged
  own : (o : IndexEntry) → ours ≡ some o → merged ≡ collapse o → Unharmed orig clean ours merged
  unchanged :
      (o : IndexEntry)
      → ours ≡ some o
      → o.sha1 ≡ orig.sha1
      → clean o ≡ true
      → Unharmed orig clean ours merged

-- The tests of `check_ours` on what the trees have of the path.
file_test : Option IndexEntry → IndexEntry → Option IndexEntry → IndexEntry → Bool → Bool
file_test b o t orig clean =
    let oc = is_there b in
    let bc = is_there t in
    let oa = not (differs b (some o)) in
    let ob = not (differs b t) in
    if (oc && true && bc) && (not oa && ob)
    then true
    else if (oc && true && bc) && (oa && not ob) && has_id t orig.sha1
    then true
    else if (oc && true && bc) && (oa && not ob) && not clean
    then false
    else if (true && bc && not (not (differs (some o) t))) && not clean
    then false
    else if (oc && true && not bc) && not clean
    then false
    else bytes_eq o.sha1 orig.sha1

abbrev Fate : Option IndexEntry → IndexEntry → Option IndexEntry → IndexEntry → Bool → Type 0
Fate b o t orig clean = Unharmed orig (λ e. clean) (some o) (sides b (some o) t)

file_test-Unharmed :
    (b t : Option IndexEntry) (o orig : IndexEntry) (clean : Bool)
    → file_test b o t orig clean ≡ true
    → Fate b o t orig clean
unfolding file_test sides differs is_there has_id take_side
file_test-Unharmed none none o orig clean h = own o refl refl
file_test-Unharmed none (some t) o orig clean h = elim (Bool-cases (bytes_eq o.sha1 t.sha1)) [
  | inl y ↦ own o refl (rw y refl)
  | inr n ↦ unchanged o refl (ground (arith, bytes_eq_iff o.sha1 orig.sha1)) (ground arith)
]
file_test-Unharmed (some b) none o orig clean h =
    unchanged o refl (ground (arith, bytes_eq_iff o.sha1 orig.sha1)) (ground arith)
file_test-Unharmed (some b) (some t) o orig clean h = elim (Bool-cases (bytes_eq b.sha1 o.sha1)) [
  | inl same ↦ elim (Bool-cases (bytes_eq b.sha1 t.sha1)) [
    | inl y ↦ own o refl (rw (same, y) refl)
    | inr n ↦ elim (Bool-cases (bytes_eq t.sha1 orig.sha1)) [
      | inl k ↦ already t (rw (same, n) refl) ((bytes_eq_iff t.sha1 orig.sha1).0 k)
      | inr k ↦ unchanged o refl (ground (arith, bytes_eq_iff o.sha1 orig.sha1)) (ground arith)
    ]
  ]
  | inr changed ↦ elim (Bool-cases (bytes_eq b.sha1 t.sha1)) [
    | inl y ↦ own o refl (rw (changed, y) refl)
    | inr n ↦ elim (Bool-cases (bytes_eq o.sha1 t.sha1)) [
      | inl k ↦ own o refl (rw (changed, n, k) refl)
      | inr k ↦ unchanged o refl (ground (arith, bytes_eq_iff o.sha1 orig.sha1)) (ground arith)
    ]
  ]
]

of_file :
    (orig : IndexEntry) (clean : IndexEntry → Bool) (o : IndexEntry) {ours : Option IndexEntry}
    {merged got : Resolution}
    → ours ≡ some o
    → got ≡ merged
    → Unharmed orig (λ e. clean o) (some o) merged
    → Unharmed orig clean ours got
of_file orig clean o here k (already e p q) = already e (k ∙ p) q
of_file orig clean o here k (own x p q) = own x (here ∙ p) (k ∙ q)
of_file orig clean o here k (unchanged x p q l) =
    unchanged x (here ∙ p) q (subst (λ (z : IndexEntry). clean z ≡ true) (some_inj p) l)

module _ (c : Files) (orig_map base ours theirs : IndexMap) where
  contains_ours :
      (path : Bytes) (o : IndexEntry) → get path ours ≡ some o → contains path ours ≡ true
  unfolding contains
  contains_ours path o h = rw (h, contains) refl

  check_ours-test :
      (orig o : IndexEntry)
      → get orig.path_name ours ≡ some o
      → has_dir orig.path_name base ≡ false
      → has_dir orig.path_name theirs ≡ false
      → check_ours c orig_map base ours theirs orig.path_name orig o
        ≡ file_test
            (get orig.path_name base)
            o
            (get orig.path_name theirs)
            orig
            (is_clean c orig.path_name o.sha1)
  unfolding check_ours file_test
  check_ours-test orig o here no_base no_theirs =
      rw
        (
          contains_file orig.path_name base no_base,
          contains_file orig.path_name theirs no_theirs,
          contains_ours orig.path_name o here,
          same_path-differs base ours orig.path_name,
          same_path-differs base theirs orig.path_name,
          same_path-differs ours theirs orig.path_name,
          here,
        )
        refl

  -- A path that ours has not: only an entry that theirs has as the index does passes.
  check_missing-Unharmed :
      (orig : IndexEntry)
      → check_entry c orig_map base ours theirs orig ≡ true
      → get orig.path_name ours ≡ none
      → get orig.path_name orig_map ≡ some orig
      → has_dir orig.path_name base ≡ false
      → has_dir orig.path_name ours ≡ false
      → (e : IndexEntry) × (get orig.path_name base ≡ none)
        × (get orig.path_name theirs ≡ some e)
        × (e.sha1 ≡ orig.sha1)
  unfolding check_entry is_there differs
  check_missing-Unharmed orig passed missing indexed no_base no_ours =
      let test = rw (missing, check_entry) at passed in
      let alike = same_path-differs orig_map theirs orig.path_name in
      let in_base = contains_file orig.path_name base no_base in
      let in_ours = contains_file orig.path_name ours no_ours in
      elim (Option-cases (get orig.path_name base)) [
        | inr (b, there) ↦ absurd (cc (rw (in_base, there) at test))
        | inl absent ↦ elim (Option-cases (get orig.path_name theirs)) [
          | inl gone ↦
              absurd (cc (rw (in_base, absent, in_ours, missing, alike, indexed, gone) at test))
          | inr (e, there) ↦
              let same_id = rw (in_base, absent, in_ours, missing, alike, indexed, there) at test in
              (e, absent, there, ground (arith, same_id, bytes_eq_iff orig.sha1 e.sha1))
        ]
      ]

  -- Where the loop finds no conflict, at a path of the index that is no directory in the three
  -- trees, no local change is overwritten by a change of theirs: what the merge puts there has the id
  -- that the index has already, or is the entry of ours; or else the index has the id of ours, and
  -- the file in the work tree has it too.
  pub check_loop-Unharmed :
      (orig : IndexEntry)
      → check_loop c orig_map base ours theirs orig_map ≡ none
      → get orig.path_name orig_map ≡ some orig
      → has_dir orig.path_name base ≡ false
      → has_dir orig.path_name ours ≡ false
      → has_dir orig.path_name theirs ≡ false
      → Unharmed orig
          (λ o. is_clean c orig.path_name o.sha1)
          (get orig.path_name ours)
          (resolution base ours theirs orig.path_name)
  unfolding check_entry is_there sides differs take_side
  check_loop-Unharmed orig h indexed no_base no_ours no_theirs =
      let passed =
        check_loop-entry c orig_map base ours theirs orig_map orig.path_name orig h indexed in
      elim (Option-cases (get orig.path_name ours)) [
        | inr (o, here) ↦
            of_file orig (λ e. is_clean c orig.path_name e.sha1) o here
              (resolution-sides base ours theirs orig.path_name no_ours no_theirs
                  (inr (inl (rw here refl)))
                ∙ rw here refl)
              (file_test-Unharmed _ _ o orig (is_clean c orig.path_name o.sha1) (
                sym (check_ours-test orig o here no_base no_theirs)
                ∙ (rw (here, check_entry) at passed)))
        | inl missing ↦
            let (e, no_b, there, same_id) =
              check_missing-Unharmed orig passed missing indexed no_base no_ours in
            already e
              (resolution-sides base ours theirs orig.path_name no_ours no_theirs
                  (inr (inr (rw there refl)))
                ∙ rw (no_b, missing, there) refl)
              same_id
      ]
