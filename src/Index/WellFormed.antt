-- ===== src/Index/WellFormed.antt =====
-- The invariant of an index, and that the operations of git/index.go keep it.
use dgit.Prelude.{
  ℕ, ◌%◌, ◌^◌, ◌<◌, ◌≡◌, inl, inr, refl, sym, ap, subst, ◌∙◌, Bool, true, false, not, ◌&&◌, List,
  [], ◌∷◌, Bytes, if◌then◌else◌, bytes_eq_iff, has_prefix, Bool-cases, some, some_inj, length, All,
  arith,
}
use dgit.Index.Entry.{IndexEntry, Index, stage, less, keep}
use dgit.Index.Stages.{
  IndexError, slash, Checked, stay, conflict, replace_loop, find_key, has_key, write_key,
}
use dgit.Index.Order.{SameKey}
use dgit.Index.Sorted.{IsSorted}

abbrev pub FlagsFit : IndexEntry → Type 0
FlagsFit e = e.flags < 2 ^ 16

-- The objects stand in strict order of path and stage; the header counts them, as a `uint32`; the
-- flags are 16 bits.
pub record IsWellFormed (g : Index) : Type 0 where
  pub sorted : IsSorted g.objects
  pub counted : g.number_index_entries ≡ length g.objects % 2 ^ 32
  pub words : All FlagsFit g.objects

-- An order reads the key only.
pub less_same : (a b c : IndexEntry) → SameKey b c → (less a b ≡ less a c) × (less b a ≡ less c a)
unfolding less
less_same a b c (p, q) = (rw (p, q), rw (p, q))

pub length-write_key :
    (path : Bytes) (s : ℕ) (new : IndexEntry) (xs : List IndexEntry)
    → length (write_key path s new xs) ≡ length xs
unfolding write_key
length-write_key path s new [] = refl
length-write_key path s new (x ∷ xs) = ground (arith, length-write_key path s new xs)

has_key-SameKey :
    (path : Bytes) (s : ℕ) (x new : IndexEntry)
    → has_key path s x ≡ true
    → new.path_name ≡ path
    → stage new ≡ s
    → SameKey x new
unfolding has_key
has_key-SameKey path s x new h p q = ground (arith, bytes_eq_iff x.path_name path)

module _ (path : Bytes) (s : ℕ) (new : IndexEntry) (p : new.path_name ≡ path)
    (q : stage new ≡ s) where
  pub All-write_key :
      (P : IndexEntry → Type 0)
      → ((y : IndexEntry) → SameKey y new → P y → P new)
      → (xs : List IndexEntry) → All P xs
      → All P (write_key path s new xs)
  unfolding write_key
  All-write_key P f [] h = tt
  All-write_key P f (x ∷ xs) (h, t) = elim (Bool-cases (has_key path s x)) [
    | inl e ↦ rw (e, write_key) (f x (has_key-SameKey path s x new e p q) h, t)
    | inr e ↦ rw (e, write_key) (h, All-write_key P f xs t)
  ]

  above_same :
      (x : IndexEntry)
      → SameKey x new
      → (xs : List IndexEntry) → All (λ y. less x y ≡ true) xs
      → All (λ y. less new y ≡ true) xs
  above_same x k [] h = tt
  above_same x k (y ∷ ys) (h, t) = (sym ((less_same y x new k).1) ∙ h, above_same x k ys t)

  pub write_key-IsSorted : (xs : List IndexEntry) → IsSorted xs → IsSorted (write_key path s new xs)
  unfolding write_key
  write_key-IsSorted [] h = tt
  write_key-IsSorted (x ∷ xs) (h, t) = elim (Bool-cases (has_key path s x)) [
    | inl e ↦ rw (e, write_key) (above_same x (has_key-SameKey path s x new e p q) xs h, t)
    | inr e ↦
        rw (e, write_key)
          (
            All-write_key (λ y. less x y ≡ true) (λ y k l. sym ((less_same x y new k).0) ∙ l) xs h,
            write_key-IsSorted xs t,
          )
  ]

pub has_key_parts :
    (path : Bytes) (s : ℕ) (x : IndexEntry)
    → has_key path s x ≡ true
    → (x.path_name ≡ path) × (stage x ≡ s)
unfolding has_key
has_key_parts path s x h = ground (arith, bytes_eq_iff x.path_name path)

pub find_key-some :
    (path : Bytes) (s : ℕ) (xs : List IndexEntry) (e : IndexEntry)
    → find_key path s xs ≡ some e
    → (P : IndexEntry → Type 0) → All P xs
    → (e.path_name ≡ path) × (stage e ≡ s) × P e
unfolding find_key has_key
find_key-some path s [] e h P t = cc
find_key-some path s (x ∷ xs) e h P (k, t) = elim (Bool-cases (has_key path s x)) [
  | inl c ↦
      let (a, b) = has_key_parts path s x c in
      subst (λ (z : IndexEntry). (z.path_name ≡ path) × (stage z ≡ s) × P z)
        (some_inj (rw (c, find_key) at h)) (a, b, k)
  | inr c ↦ find_key-some path s xs e (rw (c, find_key) at h) P t
]

-- The entries without a conflict with a path, as directory or file.
stay_inj : {xs ys : List IndexEntry} → stay xs ≡ stay ys → xs ≡ ys
stay_inj h = cc

-- The check, where it passes an entry on or refuses it.
add_kept : IndexEntry → Checked → Checked
add_kept e r = elim r [ stay kept ↦ stay (e ∷ kept) | conflict x ↦ conflict x ]

add_kept-stay :
    (e : IndexEntry) (r : Checked) {l : List IndexEntry}
    → add_kept e r ≡ stay l
    → (k : List IndexEntry) × (r ≡ stay k) × (l ≡ e ∷ k)
unfolding add_kept
add_kept-stay e (stay k) h = (k, refl, stay_inj (sym h))
add_kept-stay e (conflict x) h = cc

drop_or :
    (v : Bool) (r : Checked) (x : IndexError) {l : List IndexEntry}
    → (if v then r else conflict x) ≡ stay l
    → r ≡ stay l
drop_or true r x h = h
drop_or false r x h = cc

abbrev pub no_conflict : Bytes → IndexEntry → Bool
no_conflict path e =
    not (has_prefix e.path_name (slash path)) && not (has_prefix path (slash e.path_name))

pub replace_loop-stay :
    (path : Bytes) (r : Bool) (xs : List IndexEntry) {kept : List IndexEntry}
    → replace_loop path r xs ≡ stay kept
    → kept ≡ keep (no_conflict path) xs
unfolding replace_loop keep add_kept
replace_loop-stay path r [] h = stay_inj (sym h)
replace_loop-stay path r (x ∷ xs) h = elim (Bool-cases (has_prefix x.path_name (slash path))) [
  | inl under ↦
      rw (under, keep) (replace_loop-stay path r xs (drop_or r _ _ (rw (under, replace_loop) at h)))
  | inr free ↦ elim (Bool-cases (has_prefix path (slash x.path_name))) [
    | inl above ↦
        rw (free, above, keep)
          (replace_loop-stay path r xs (drop_or r _ _ (rw (free, above, replace_loop) at h)))
    | inr clear ↦
        let (k, e, l) =
          add_kept-stay x (replace_loop path r xs) (rw (free, clear, replace_loop) at h) in
        rw (free, clear, keep) (l ∙ ap (◌∷◌ x) (replace_loop-stay path r xs e))
  ]
]
