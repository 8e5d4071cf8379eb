-- ===== src/ReadTree/Loops.antt =====
-- git/readtree.go and git/checkoutindex.go: what each loop that changes the work tree leaves of a file
-- with local changes.
use dgit.Prelude.{
  ◌≡◌, refl, sym, ap, ◌∙◌, inl, inr, Bool, true, false, not, ◌&&◌, List, [], ◌∷◌, ◌++◌, Bytes,
  bytes_eq, bytes_eq_iff, ◌==◌, All, Bool-cases, Option-cases, some, some_inj, if◌then◌else◌, arith,
  subst,
}
use dgit.Index.Entry.{IndexEntry, stage}
use dgit.ReadTree.Maps.{IndexMap, get, is_clean}
use dgit.ReadTree.WorkTree.{FileTree, file_at, exists, files_of, remove_all, remove_file_clean}
use dgit.ReadTree.Update.{ReadTreeOptions, Surroundings, check_sparse_matches, no_sparse}
use dgit.ReadTree.UpdateTree.{
  then_do, remove_killed, checkout_entries, checkout_files, delete_entry, delete_loop,
  refresh_entry, skip_file, refresh_turn, refresh_loop,
}
use dgit.ReadTree.Kept.{
  IsClear, file_at-remove, file_at-remove_below, file_at-checkout_file, file_at-file_remove,
  clean_there,
}
use dgit.ReadTree.Verified.{Lack}

module _ (q x : Bytes) where
  abbrev pub Has : FileTree → Type 0
  Has w = file_at q w ≡ some x

  pub then_do-Has :
      (r : FileTree × Bool) (f : FileTree → FileTree × Bool)
      → Has r.0
      → ((w : FileTree) → Has w → Has (f w).0)
      → Has (then_do r f).0
  unfolding then_do
  then_do-Has (w, true) f h k = k w h
  then_do-Has (w, false) f h k = h

  pub remove_killed-Has :
      (ps : List Bytes) (w : FileTree) → All (IsClear q) ps → Has w → Has (remove_killed ps w)
  unfolding remove_killed remove_all
  remove_killed-Has [] w c h = h
  remove_killed-Has (p ∷ ps) w (c, cs) h =
      remove_killed-Has ps (remove_all p w) cs
        (file_at-remove q p _ c.other ∙ file_at-remove_below q p w c.not_above ∙ h)

  remove_other-Has :
      (t : Bytes) (w : FileTree) → bytes_eq t q ≡ false → Has w → Has (remove_file_clean t w).0
  unfolding remove_file_clean
  remove_other-Has t w n h = file_at-file_remove q t w n ∙ h

  pub get-Lack :
      (es : IndexMap) {o : IndexEntry} → get q es ≡ some o → Lack q x es → bytes_eq x o.sha1 ≡ false
  unfolding get
  get-Lack [] g l = cc g
  get-Lack (e ∷ es) g (l, ls) = elim (Bool-cases (bytes_eq e.path_name q)) [
    | inl y ↦
        subst (λ (t : IndexEntry). bytes_eq x t.sha1 ≡ false) (some_inj (rw (y, get) at g)) (l y)
    | inr n ↦ get-Lack es (rw (n, get) at g) ls
  ]

  -- A file with other contents is not clean, under each name of its path.
  not_clean :
      (e : IndexEntry) (w : FileTree)
      → Has w
      → bytes_eq e.path_name q ≡ true
      → bytes_eq x e.sha1 ≡ false
      → is_clean (files_of w) e.path_name e.sha1 ≡ false
  not_clean e w h y n =
      ap (λ t. is_clean (files_of w) t e.sha1) ((bytes_eq_iff e.path_name q).0 y)
      ∙ clean_there q w x e.sha1 h
      ∙ n

  if_Has :
      (b : Bool) (r s : FileTree × Bool)
      → (b ≡ true → Has r.0)
      → Has s.0
      → Has (if b then r else s).0
  if_Has true r s h k = h refl
  if_Has false r s h k = k

  clean :
      (e : IndexEntry) (w : FileTree)
      → (bytes_eq e.path_name q ≡ true → bytes_eq x e.sha1 ≡ false)
      → Has w
      → is_clean (files_of w) e.path_name e.sha1 ≡ true
      → Has (remove_file_clean e.path_name w).0
  clean e w l h c = elim (Bool-cases (bytes_eq e.path_name q)) [
    | inr n ↦ remove_other-Has e.path_name w n h
    | inl y ↦ let dirty = not_clean e w h y (l y) in cc (c, dirty)
  ]

  skip_file-Has :
      (e : IndexEntry) (w : FileTree)
      → (bytes_eq e.path_name q ≡ true → bytes_eq x e.sha1 ≡ false)
      → Has w
      → Has (skip_file e w).0
  unfolding skip_file
  skip_file-Has e w l h = if_Has _ _ (w, true) (λ b. clean e w l h (ground arith)) h

  module _ (env : Surroundings) (opt : ReadTreeOptions) where
    checkout_entries-Has :
        (es : List IndexEntry) (path : Bytes) (w : FileTree)
        → opt.prefix ≡ []
        → IsClear q path
        → Has w
        → Has (checkout_entries env opt es path w).0
    unfolding checkout_entries
    checkout_entries-Has [] path w p c h = h
    checkout_entries-Has (e ∷ es) path w p c h = elim (Bool-cases (bytes_eq e.path_name path)) [
      | inr n ↦ rw (n, checkout_entries) (checkout_entries-Has es path w p c h)
      | inl y ↦ elim (Bool-cases (stage e == 0)) [
        | inr m ↦ rw (y, m, checkout_entries) h
        | inl z ↦
            let target : path ≡ opt.prefix ++ e.path_name =
              sym ((bytes_eq_iff e.path_name path).0 y) ∙ ap (λ t. t ++ e.path_name) (sym p) in
            rw (y, z, checkout_entries)
              (checkout_entries-Has es path _ p c (
                file_at-checkout_file q (env.has_object e.sha1) (opt.prefix ++ e.path_name) e.sha1 w
                  (subst (IsClear q) target c)
                ∙ h))
      ]
    ]

    pub checkout_files-Has :
        (es : List IndexEntry) (paths : List Bytes) (w : FileTree)
        → opt.prefix ≡ []
        → All (IsClear q) paths
        → Has w
        → Has (checkout_files env opt es paths w).0
    unfolding checkout_files
    checkout_files-Has es [] w p c h = h
    checkout_files-Has es (path ∷ paths) w p (c, cs) h =
        then_do-Has (checkout_entries env opt es path w) (checkout_files env opt es paths)
          (checkout_entries-Has es path w p c h) (λ v k. checkout_files-Has es paths v p cs k)

    delete_entry-Has :
        (new : IndexMap) (e : IndexEntry) (w : FileTree)
        → check_sparse_matches env opt q ≡ true
        → (bytes_eq e.path_name q ≡ true → bytes_eq x e.sha1 ≡ false)
        → Has w
        → Has (delete_entry env opt new e w).0
    unfolding delete_entry
    delete_entry-Has new e w s l h = elim (Option-cases (get e.path_name new)) [
      | inr (f, g) ↦ rw (g, delete_entry) h
      | inl g ↦
          rw (g, delete_entry)
            (if_Has (is_clean (files_of w) e.path_name e.sha1) _ _ (clean e w l h)
              (if_Has _ _ (w, true) sparse h))
    ]
      where
        sparse :
            (not (no_sparse env opt)
                && not (check_sparse_matches env opt e.path_name)
                && exists e.path_name w)
              ≡ true
            → Has (remove_file_clean e.path_name w).0
        sparse b = elim (Bool-cases (bytes_eq e.path_name q)) [
          | inr n ↦ remove_other-Has e.path_name w n h
          | inl y ↦
              let matches : check_sparse_matches env opt e.path_name ≡ true =
                ap (check_sparse_matches env opt) ((bytes_eq_iff e.path_name q).0 y) ∙ s in
              absurd (ground arith)
        ]

    pub delete_loop-Has :
        (new es : IndexMap) (w : FileTree)
        → check_sparse_matches env opt q ≡ true
        → Lack q x es
        → Has w
        → Has (delete_loop env opt new es w).0
    unfolding delete_loop
    delete_loop-Has new [] w s l h = h
    delete_loop-Has new (e ∷ es) w s (l, ls) h =
        then_do-Has (delete_entry env opt new e w) (delete_loop env opt new es)
          (delete_entry-Has new e w s l h) (λ v k. delete_loop-Has new es v s ls k)

    refresh_turn-Has :
        (e : IndexEntry) (w : FileTree)
        → (bytes_eq e.path_name q ≡ true → bytes_eq x e.sha1 ≡ false)
        → Has w
        → Has (refresh_turn env opt e w).1.0
    unfolding refresh_turn
    refresh_turn-Has e w l h = elim (Option-cases (refresh_entry env opt e w)) [
      | inl n ↦ rw (n, refresh_turn) h
      | inr (new, f) ↦ rw (f, refresh_turn) (skip_file-Has e w l h)
    ]

    pub refresh_loop-Has :
        (es : List IndexEntry) (w : FileTree)
        → Lack q x es
        → Has w
        → Has (refresh_loop env opt es w).1.0
    unfolding refresh_loop
    refresh_loop-Has [] w l h = h
    refresh_loop-Has (e ∷ es) w (l, ls) h = elim (Bool-cases (refresh_turn env opt e w).1.1) [
      | inl y ↦
          rw (y, refresh_loop)
            (refresh_loop-Has es (refresh_turn env opt e w).1.0 ls (refresh_turn-Has e w l h))
      | inr n ↦ rw (n, refresh_loop) (refresh_turn-Has e w l h)
    ]
