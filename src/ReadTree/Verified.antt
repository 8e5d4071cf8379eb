-- ===== src/ReadTree/Verified.antt =====
-- git/readtree.go: what the first loop of `checkMergeAndUpdate` says of a file with local changes.
use dgit.Prelude.{
  ◌≡◌, ◌⊎◌, sym, ap, ◌∙◌, inl, inr, true, false, List, [], ◌∷◌, ◌++◌, Bytes, bytes_eq, bytes_eq_iff,
  has_prefix, All, All-append, Bool-cases, Option-cases, some, some_inj, arith, subst,
}
use dgit.Index.Entry.{IndexEntry}
use dgit.Index.Stages.{slash}
use dgit.ReadTree.Maps.{IndexMap, get, is_clean}
use dgit.ReadTree.WorkTree.{FileTree, file_at, is_dir, exists, files_of}
use dgit.ReadTree.Update.{ReadTreeOptions, Surroundings, verify_tracked, verify_entry, verify_loop}
use dgit.ReadTree.Kept.{IsClear, exists_at, clean_there, is_dir_above}

-- The entries of a path have other contents.
abbrev pub Lack : Bytes → Bytes → List IndexEntry → Type 0
Lack q x es = All (λ (e : IndexEntry). bytes_eq e.path_name q ≡ true → bytes_eq x e.sha1 ≡ false) es

-- No entry lies below the path.
abbrev pub NoneBelow : Bytes → List IndexEntry → Type 0
NoneBelow q es = All (λ (e : IndexEntry). has_prefix e.path_name (slash q) ≡ false) es

module _ (env : Surroundings) (opt : ReadTreeOptions) (w : FileTree) (orig : IndexMap) where
  verify_entry-result :
      (e : IndexEntry) (files : List Bytes) {more : List Bytes}
      → verify_entry env opt w orig e files ≡ some more
      → (files ≡ more) ⊎ (files ++ (e.path_name ∷ []) ≡ more)
  unfolding verify_entry verify_tracked
  verify_entry-result e files h = elim (Option-cases (get e.path_name orig)) [
    | inl n ↦ ground arith
    | inr (o, f) ↦ ground arith
  ]

  module _ (q x : Bytes) (o : IndexEntry) (there : file_at q w ≡ some x)
      (tracked : get q orig ≡ some o) (changed : bytes_eq x o.sha1 ≡ false)
      (keeping : opt.reset ≡ false) (updating : opt.update ≡ true) where
    verify_entry_changed :
        (e : IndexEntry) (files : List Bytes) {more : List Bytes}
        → bytes_eq e.path_name q ≡ true
        → verify_entry env opt w orig e files ≡ some more
        → files ≡ more
    unfolding verify_entry verify_tracked
    verify_entry_changed e files y h =
        let same : q ≡ e.path_name = sym ((bytes_eq_iff e.path_name q).0 y) in
        let known : get e.path_name orig ≡ some o = ap (λ t. get t orig) (sym same) ∙ tracked in
        let present : exists e.path_name w ≡ true =
          ap (λ t. exists t w) (sym same) ∙ exists_at q w there in
        let dirty : is_clean (files_of w) e.path_name o.sha1 ≡ false =
          ap (λ t. is_clean (files_of w) t o.sha1) (sym same)
          ∙ clean_there q w x o.sha1 there
          ∙ changed in
        ground arith

    module _ (listed : (t : Bytes) → has_prefix q (slash t) ≡ true → env.would_lose t ≡ true) where
      verify_entry-not_above :
          (e : IndexEntry) (files : List Bytes) {more : List Bytes}
          → verify_entry env opt w orig e files ≡ some more
          → has_prefix q (slash e.path_name) ≡ false
      unfolding verify_entry
      verify_entry-not_above e files h = elim (Bool-cases (has_prefix q (slash e.path_name))) [
        | inr n ↦ n
        | inl y ↦
            let dir : is_dir e.path_name w ≡ true = is_dir_above q e.path_name w there y in
            let lost : env.would_lose e.path_name ≡ true = listed e.path_name y in ground arith
      ]

      verify_entry-IsClear :
          (e : IndexEntry) (files : List Bytes) {more : List Bytes}
          → has_prefix e.path_name (slash q) ≡ false
          → All (IsClear q) files
          → verify_entry env opt w orig e files ≡ some more
          → All (IsClear q) more
      verify_entry-IsClear e files below h f = elim (Bool-cases (bytes_eq e.path_name q)) [
        | inl y ↦ subst (All (IsClear q)) (verify_entry_changed e files y f) h
        | inr n ↦ elim (verify_entry-result e files f) [
          | inl same ↦ subst (All (IsClear q)) same h
          | inr added ↦ subst (All (IsClear q)) added (
              All-append (IsClear q) files (e.path_name ∷ []) h (
                record {
                  other = n;
                  not_above = verify_entry-not_above e files f;
                  not_below = below;
                },
                tt,
              ))
        ]
      ]

      -- The file is apart from every file that is to be checked out.
      pub verify_loop-IsClear :
          (es : List IndexEntry) (files : List Bytes) {out : List Bytes}
          → NoneBelow q es
          → All (IsClear q) files
          → verify_loop env opt w orig es files ≡ some out
          → All (IsClear q) out
      unfolding verify_loop
      verify_loop-IsClear [] files below h f = subst (All (IsClear q)) (some_inj f) h
      verify_loop-IsClear (e ∷ es) files (b, below) h f =
          elim (Option-cases (verify_entry env opt w orig e files)) [
            | inl n ↦ cc (rw (n, verify_loop) at f)
            | inr (more, m) ↦
                verify_loop-IsClear es more below (verify_entry-IsClear e files b h m)
                  (rw (m, verify_loop) at f)
          ]
