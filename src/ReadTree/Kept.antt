-- ===== src/ReadTree/Kept.antt =====
-- git/checkoutindex.go: what the changes of other files leave of a file of the work tree.
use dgit.Prelude.{
  ◌≡◌, refl, sym, ap, ◌∙◌, inl, inr, Bool, true, false, not, [], ◌∷◌, Bytes, bytes_eq, bytes_eq_iff,
  has_prefix, ◌==◌, Bool-cases, Option-cases, some, some_inj, if◌then◌else◌, arith,
}
use dgit.Index.Stages.{slash}
use dgit.ReadTree.Maps.{is_clean}
use dgit.ReadTree.WorkTree.{
  FileTree, file_at, is_dir, is_file, exists, files_of, remove, remove_below, parent,
  has_file_above, clear_parent, checkout_file, file_remove,
}

-- The paths are apart, and neither is a directory above the other.
pub record IsClear (q t : Bytes) : Type 0 where
  pub other : bytes_eq t q ≡ false
  pub not_above : has_prefix q (slash t) ≡ false
  pub not_below : has_prefix t (slash q) ≡ false

parent_prefix : (t p : Bytes) → parent t ≡ some p → has_prefix t (slash p) ≡ true
unfolding parent has_prefix
parent_prefix [] p e = cc e
parent_prefix (c ∷ s) p e = elim (Option-cases (parent s)) [
  | inl n ↦ elim (Bool-cases (c == b'/')) [
    | inl y ↦
        let root : some [] ≡ some p = rw (n, y, parent) at e in rw (sym (some_inj root)) (rw y refl)
    | inr m ↦ cc (rw (n, m, parent) at e)
  ]
  | inr (r, f) ↦
      let longer : some (c ∷ r) ≡ some p = rw (f, parent) at e in
      rw (sym (some_inj longer)) (ground (arith, parent_prefix s r f))
]

module _ (q : Bytes) where
  pub file_at-remove :
      (p : Bytes) (w : FileTree) → bytes_eq p q ≡ false → file_at q (remove p w) ≡ file_at q w
  unfolding file_at remove
  file_at-remove p [] h = refl
  file_at-remove p ((r, id) ∷ w) h =
      ground (arith, file_at-remove p w h, bytes_eq_iff r p, bytes_eq_iff r q, bytes_eq_iff p q)

  put_other :
      (p id : Bytes) (w : FileTree) → bytes_eq p q ≡ false → file_at q ((p, id) ∷ w) ≡ file_at q w
  unfolding file_at
  put_other p id w h = rw h refl

  pub file_at-remove_below :
      (p : Bytes) (w : FileTree)
      → has_prefix q (slash p) ≡ false
      → file_at q (remove_below p w) ≡ file_at q w
  unfolding file_at remove_below
  file_at-remove_below p [] h = refl
  file_at-remove_below p ((r, id) ∷ w) h = elim (Bool-cases (bytes_eq r q)) [
    | inl y ↦
        let kept : has_prefix r (slash p) ≡ false =
          ap (λ t. has_prefix t (slash p)) ((bytes_eq_iff r q).0 y) ∙ h in
        ground arith
    | inr n ↦ ground (arith, file_at-remove_below p w h)
  ]

  file_at-clear_parent :
      (t : Bytes) (w : FileTree)
      → has_prefix t (slash q) ≡ false
      → file_at q (clear_parent (parent t) w) ≡ file_at q w
  unfolding clear_parent
  file_at-clear_parent t w h = elim (Option-cases (parent t)) [
    | inl n ↦ rw n refl
    | inr (p, e) ↦ elim (Bool-cases (bytes_eq p q)) [
      | inl y ↦
          let below : has_prefix t (slash q) ≡ true =
            ap (λ s. has_prefix t (slash s)) (sym ((bytes_eq_iff p q).0 y)) ∙ parent_prefix t p e in
          cc (h, below)
      | inr n ↦ rw e (cleared p n)
    ]
  ]
    where
      cleared :
          (p : Bytes)
          → bytes_eq p q ≡ false
          → file_at q (if is_file p w then remove p w else w) ≡ file_at q w
      cleared p n = elim (Bool-cases (is_file p w)) [
        | inl y ↦ rw y (file_at-remove p w n)
        | inr m ↦ rw m refl
      ]

  one_of :
      (b : Bool) (w v u : FileTree)
      → file_at q v ≡ file_at q w
      → file_at q u ≡ file_at q w
      → file_at q (if b then v else u) ≡ file_at q w
  one_of true w v u e f = e
  one_of false w v u e f = f

  pub file_at-checkout_file :
      (k : Bool) (t id : Bytes) (w : FileTree)
      → IsClear q t
      → file_at q (checkout_file k t id w) ≡ file_at q w
  unfolding checkout_file
  file_at-checkout_file k t id w h = written
    where
      v : FileTree
      v = clear_parent (parent t) (remove_below t w)

      same : file_at q v ≡ file_at q w
      same =
          file_at-clear_parent t (remove_below t w) h.not_below
          ∙ file_at-remove_below t w h.not_above

      put : file_at q ((t, id) ∷ remove t v) ≡ file_at q w
      put = put_other t id (remove t v) h.other ∙ file_at-remove t v h.other ∙ same

      written :
          file_at q (if not k then w else if has_file_above t v then v else (t, id) ∷ remove t v)
          ≡ file_at q w
      written = one_of (not k) w w _ refl (one_of (has_file_above t v) w v _ same put)

  pub file_at-file_remove :
      (t : Bytes) (w : FileTree)
      → bytes_eq t q ≡ false
      → file_at q (file_remove t w).0 ≡ file_at q w
  unfolding file_remove
  file_at-file_remove t w n = elim (Bool-cases (is_file t w)) [
    | inl y ↦ rw y (file_at-remove t w n)
    | inr m ↦ rw m refl
  ]

  pub exists_at : (w : FileTree) {x : Bytes} → file_at q w ≡ some x → exists q w ≡ true
  unfolding exists is_file
  exists_at w h = rw (h, is_file) refl

  pub clean_there :
      (w : FileTree) (x s : Bytes) → file_at q w ≡ some x → is_clean (files_of w) q s ≡ bytes_eq x s
  unfolding is_clean files_of
  clean_there w x s h = let there : exists q w ≡ true = exists_at w h in rw (there, h) refl

  pub is_dir_above :
      (t : Bytes) (w : FileTree) {x : Bytes}
      → file_at q w ≡ some x
      → has_prefix q (slash t) ≡ true
      → is_dir t w ≡ true
  unfolding is_dir file_at
  is_dir_above t [] h y = cc h
  is_dir_above t ((r, id) ∷ w) h y = elim (Bool-cases (bytes_eq r q)) [
    | inl z ↦
        let here : has_prefix r (slash t) ≡ true =
          ap (λ s. has_prefix s (slash t)) ((bytes_eq_iff r q).0 z) ∙ y in
        ground arith
    | inr n ↦
        let later : is_dir t w ≡ true = is_dir_above t w (rw (n, file_at) at h) y in ground arith
  ]
