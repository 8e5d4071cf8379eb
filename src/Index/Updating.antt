-- ===== src/Index/Updating.antt =====
-- git/updateindex.go: every way to update an index keeps its invariant.
use dgit.Prelude.{
  ℕ, suc, ◌⊎◌, ◌%◌, ◌^◌, ◌<◌, ◌≡◌, inl, inr, refl, sym, ap, ◌∙◌, subst, Bool, true, ◌&&◌, List, [],
  ◌∷◌, Bytes, bytes_eq, ◌==◌, leb, length, All, Bool-cases, Option-cases, some, if◌then◌else◌,
}
use dgit.Index.Entry.{IndexEntry, Index, stage, stage_bits, less, set_skip_worktree}
use dgit.Index.Stages.{WorkTree, refresh_stat}
use dgit.Index.Files.{Marked, marked, is_unmerged, mark_first, index_set_skip_worktree}
use dgit.Index.Order.{SameKey}
use dgit.Index.Sorted.{IsSorted}
use dgit.Index.WellFormed.{FlagsFit, IsWellFormed, less_same}
use dgit.Index.Adding.{refresh_stat-key}
use dgit.Index.Flags.{set_skip_worktree-stage, set_skip_worktree-fits, set_skip_worktree-path}
use dgit.Index.Update.{refresh_objects, update_index_refresh}

-- The entries have the same keys in the same order.
data Alike : List IndexEntry → List IndexEntry → Type 0 where
  ended : Alike [] []
  also :
      {x y : IndexEntry} {xs ys : List IndexEntry}
      → SameKey x y
      → FlagsFit y
      → Alike xs ys
      → Alike (x ∷ xs) (y ∷ ys)

above :
    {xs ys : List IndexEntry} (a b : IndexEntry)
    → SameKey a b
    → Alike xs ys
    → All (λ z. less a z ≡ true) xs
    → All (λ z. less b z ≡ true) ys
above a b k ended h = tt
above a b k (also {x} {y} s f r) (h, t) =
    (sym ((less_same b x y s).0) ∙ sym ((less_same x a b k).1) ∙ h, above a b k r t)

Alike-IsSorted : {xs ys : List IndexEntry} → Alike xs ys → IsSorted xs → IsSorted ys
Alike-IsSorted ended h = tt
Alike-IsSorted (also {x} {y} s f r) (h, t) = (above x y s r h, Alike-IsSorted r t)

Alike-length : {xs ys : List IndexEntry} → Alike xs ys → length xs ≡ length ys
Alike-length ended = refl
Alike-length (also s f r) = ap suc (Alike-length r)

Alike-words : {xs ys : List IndexEntry} → Alike xs ys → All FlagsFit ys
Alike-words ended = tt
Alike-words (also s f r) = (f, Alike-words r)

Alike-self : (xs : List IndexEntry) → All FlagsFit xs → Alike xs xs
Alike-self [] h = ended
Alike-self (x ∷ xs) (h, t) = also (refl, refl) h (Alike-self xs t)

Alike-IsWellFormed :
    (g : Index) (version : ℕ) (ys : List IndexEntry)
    → Alike g.objects ys
    → IsWellFormed g
    → IsWellFormed (record g { version = version; objects = ys })
Alike-IsWellFormed g version ys r w = record {
  sorted = Alike-IsSorted r w.sorted;
  counted = w.counted ∙ ap (λ n. n % 2 ^ 32) (Alike-length r);
  words = Alike-words r;
}

marked_objects : Marked → List IndexEntry
marked_objects (marked xs) = xs
marked_objects is_unmerged = []

Marked-cases : (m : Marked) → (m ≡ is_unmerged) ⊎ ((xs : List IndexEntry) × (m ≡ marked xs))
Marked-cases is_unmerged = inl refl
Marked-cases (marked xs) = inr (xs, refl)

marked_inj : {xs ys : List IndexEntry} → marked xs ≡ marked ys → xs ≡ ys
unfolding marked_objects
marked_inj e = ap marked_objects e

also_set :
    (value : Bool) (e : IndexEntry) (xs : List IndexEntry)
    → FlagsFit e
    → All FlagsFit xs
    → Alike (e ∷ xs) (set_skip_worktree value e ∷ xs)
also_set value e xs f h =
    also (sym (set_skip_worktree-path value e), sym (set_skip_worktree-stage value e f))
      (set_skip_worktree-fits value e f) (Alike-self xs h)

keep_marked : IndexEntry → Marked → Marked
keep_marked x m = elim m [ marked kept ↦ marked (x ∷ kept) | is_unmerged ↦ is_unmerged ]

keep_marked-Alike :
    (x : IndexEntry) (xs : List IndexEntry) (m : Marked) {ys : List IndexEntry}
    → FlagsFit x
    → ((zs : List IndexEntry) → m ≡ marked zs → Alike xs zs)
    → keep_marked x m ≡ marked ys
    → Alike (x ∷ xs) ys
unfolding keep_marked
keep_marked-Alike x xs is_unmerged f rest e = cc e
keep_marked-Alike x xs (marked kept) f rest e =
    subst (Alike (x ∷ xs)) (marked_inj e) (also (refl, refl) f (rest kept refl))

mark_first-Alike :
    (path : Bytes) (value : Bool) (xs : List IndexEntry) (ys : List IndexEntry)
    → All FlagsFit xs
    → mark_first path value xs ≡ marked ys
    → Alike xs ys
unfolding mark_first keep_marked
mark_first-Alike path value [] ys h e = subst (Alike []) (marked_inj e) ended
mark_first-Alike path value (x ∷ xs) ys (f, h) e = elim (Bool-cases (bytes_eq x.path_name path)) [
  | inr n ↦
      keep_marked-Alike x xs (mark_first path value xs) f
        (λ zs m. mark_first-Alike path value xs zs h m) (rw (n, mark_first) at e)
  | inl y ↦ elim (Bool-cases (stage x == 0)) [
    | inr m ↦ cc (rw (y, m, mark_first) at e)
    | inl z ↦
        subst (Alike (x ∷ xs)) (marked_inj (rw (y, z, mark_first) at e)) (also_set value x xs f h)
  ]
]

refresh_stat-Alike :
    (c : WorkTree) (e new : IndexEntry) (xs ys : List IndexEntry)
    → refresh_stat c e ≡ some new
    → FlagsFit e
    → Alike xs ys
    → Alike (e ∷ xs) (new ∷ ys)
refresh_stat-Alike c e new xs ys h f r =
    let k = refresh_stat-key c e new h in
    also (sym (k.0), ap stage_bits (sym (k.1))) (subst (λ (n : ℕ). n < 2 ^ 16) (sym (k.1)) f) r

refresh_objects-Alike :
    (c : WorkTree) (xs : List IndexEntry) → All FlagsFit xs → Alike xs (refresh_objects c xs).0
unfolding refresh_objects
refresh_objects-Alike c [] h = ended
refresh_objects-Alike c (x ∷ xs) (f, h) = elim (Bool-cases (c.exists x.path_name)) [
  | inr n ↦ rw (n, refresh_objects) (also (refl, refl) f (refresh_objects-Alike c xs h))
  | inl y ↦ elim (Option-cases (refresh_stat c x)) [
    | inl e ↦ rw (y, e, refresh_objects) (Alike-self (x ∷ xs) (f, h))
    | inr (new, e) ↦
        rw (y, e, refresh_objects)
          (refresh_stat-Alike c x new xs (refresh_objects c xs).0 e f
            (refresh_objects-Alike c xs h))
  ]
]

pub index_set_skip_worktree-IsWellFormed :
    (path : Bytes) (value : Bool) (g : Index)
    → IsWellFormed g
    → IsWellFormed (index_set_skip_worktree path value g).0
unfolding index_set_skip_worktree
index_set_skip_worktree-IsWellFormed path value g w =
    elim (Marked-cases (mark_first path value g.objects)) [
      | inl e ↦ rw (e, index_set_skip_worktree) w
      | inr (objects, e) ↦
          rw (e, index_set_skip_worktree)
            (Alike-IsWellFormed g (if leb g.version 2 && value then 3 else g.version) objects
              (mark_first-Alike path value g.objects objects w.words e) w)
    ]

pub update_index_refresh-IsWellFormed :
    (c : WorkTree) (g : Index) → IsWellFormed g → IsWellFormed (update_index_refresh c g).0
unfolding update_index_refresh
update_index_refresh-IsWellFormed c g w =
    Alike-IsWellFormed g g.version (refresh_objects c g.objects).0
      (refresh_objects-Alike c g.objects w.words) w
