-- ===== src/Index/Sorted.antt =====
-- The objects of an index stand in strict order of path and stage, so no key stands twice, and
-- the count in the header is their number. Every operation keeps both.
use dgit.Prelude.{
  ℕ, ◌≡◌, inl, inr, Bool, true, List, [], ◌∷◌, ◌++◌, Bytes, bytes_eq, bytes_eq_iff, Bool-cases,
  none, All, arith,
}
use dgit.Index.Entry.{IndexEntry, stage, less, insert_sorted, sort_by_path, keep}
use dgit.Index.Stages.{find_key, has_key}
use dgit.Index.Files.{remove_first}
use dgit.Index.Order.{SameKey, less_trans, less_total}

abbrev pub IsSorted : List IndexEntry → Type 0
IsSorted [] = Unit {0}
IsSorted (x ∷ xs) = All (λ y. less x y ≡ true) xs × IsSorted xs

-- No two entries have one key.
abbrev pub IsDistinct : List IndexEntry → Type 0
IsDistinct [] = Unit {0}
IsDistinct (x ∷ xs) = All (λ y. ¬ SameKey x y) xs × IsDistinct xs

module _ (P : IndexEntry → Type 0) where
  pub All-keep : (p : IndexEntry → Bool) (xs : List IndexEntry) → All P xs → All P (keep p xs)
  unfolding keep
  All-keep p [] h = tt
  All-keep p (x ∷ xs) (h, t) = elim (Bool-cases (p x)) [
    | inl e ↦ rw (e, keep) (h, All-keep p xs t)
    | inr e ↦ rw (e, keep) (All-keep p xs t)
  ]

  All-insert_sorted :
      (e : IndexEntry) (xs : List IndexEntry) → P e → All P xs → All P (insert_sorted e xs)
  unfolding insert_sorted
  All-insert_sorted e [] h t = (h, tt)
  All-insert_sorted e (x ∷ xs) h (k, t) = elim (Bool-cases (less e x)) [
    | inl c ↦ rw (c, insert_sorted) (h, (k, t))
    | inr c ↦ rw (c, insert_sorted) (k, All-insert_sorted e xs h t)
  ]

  pub All-sort_by_path : (xs : List IndexEntry) → All P xs → All P (sort_by_path xs)
  unfolding sort_by_path
  All-sort_by_path [] h = tt
  All-sort_by_path (x ∷ xs) (h, t) = All-insert_sorted x (sort_by_path xs) h (All-sort_by_path xs t)

  pub All-remove_first :
      (file : Bytes) (xs : List IndexEntry) → All P xs → All P (remove_first file xs)
  unfolding remove_first
  All-remove_first file [] h = tt
  All-remove_first file (x ∷ xs) (h, t) = elim (Bool-cases (bytes_eq x.path_name file)) [
    | inl e ↦ rw (e, remove_first) t
    | inr e ↦ rw (e, remove_first) (h, All-remove_first file xs t)
  ]

  pub All-weaken :
      (Q : IndexEntry → Type 0)
      → ((y : IndexEntry) → P y → Q y)
      → (xs : List IndexEntry) → All P xs
      → All Q xs
  All-weaken Q f [] h = tt
  All-weaken Q f (x ∷ xs) (h, t) = (f x h, All-weaken Q f xs t)

pub keep-IsSorted :
    (p : IndexEntry → Bool) (xs : List IndexEntry) → IsSorted xs → IsSorted (keep p xs)
unfolding keep
keep-IsSorted p [] h = tt
keep-IsSorted p (x ∷ xs) (h, t) = elim (Bool-cases (p x)) [
  | inl e ↦ rw (e, keep) (All-keep _ p xs h, keep-IsSorted p xs t)
  | inr e ↦ rw (e, keep) (keep-IsSorted p xs t)
]

pub remove_first-IsSorted :
    (file : Bytes) (xs : List IndexEntry) → IsSorted xs → IsSorted (remove_first file xs)
unfolding remove_first
remove_first-IsSorted file [] h = tt
remove_first-IsSorted file (x ∷ xs) (h, t) = elim (Bool-cases (bytes_eq x.path_name file)) [
  | inl e ↦ rw (e, remove_first) t
  | inr e ↦ rw (e, remove_first) (All-remove_first _ file xs h, remove_first-IsSorted file xs t)
]

insert_sorted-IsSorted :
    (e : IndexEntry) (xs : List IndexEntry)
    → All (λ y. ¬ SameKey e y) xs
    → IsSorted xs
    → IsSorted (insert_sorted e xs)
unfolding insert_sorted
insert_sorted-IsSorted e [] d h = (tt, tt)
insert_sorted-IsSorted e (x ∷ xs) (d, ds) (h, t) = elim (Bool-cases (less e x)) [
  | inl c ↦ rw (c, insert_sorted) ((c, All-weaken _ _ (λ y l. less_trans e x y c l) xs h), (h, t))
  | inr c ↦
      rw (c, insert_sorted)
        (
          All-insert_sorted (λ y. less x y ≡ true) e xs (less_total e x d c) h,
          insert_sorted-IsSorted e xs ds t,
        )
]

pub sort_by_path-IsSorted : (xs : List IndexEntry) → IsDistinct xs → IsSorted (sort_by_path xs)
unfolding sort_by_path
sort_by_path-IsSorted [] h = tt
sort_by_path-IsSorted (x ∷ xs) (h, t) =
    insert_sorted-IsSorted x (sort_by_path xs) (All-sort_by_path _ xs h)
      (sort_by_path-IsSorted xs t)

less_ne : (a b : IndexEntry) → less a b ≡ true → ¬ SameKey a b
unfolding less
less_ne a b h (p, q) = ground (arith, bytes_eq_iff a.path_name b.path_name)

pub IsSorted→IsDistinct : (xs : List IndexEntry) → IsSorted xs → IsDistinct xs
IsSorted→IsDistinct [] h = tt
IsSorted→IsDistinct (x ∷ xs) (h, t) =
    (All-weaken _ _ (λ y l. less_ne x y l) xs h, IsSorted→IsDistinct xs t)

-- An entry behind others of other keys.
pub IsDistinct-concat :
    (xs : List IndexEntry) (e : IndexEntry)
    → IsDistinct xs
    → All (λ y. ¬ SameKey y e) xs
    → IsDistinct (xs ++ (e ∷ []))
IsDistinct-concat [] e h k = (tt, tt)
IsDistinct-concat (x ∷ xs) e (h, t) (k, ks) = (snoc xs h, IsDistinct-concat xs e t ks)
  where
    snoc :
        (ys : List IndexEntry)
        → All (λ y. ¬ SameKey x y) ys
        → All (λ y. ¬ SameKey x y) (ys ++ (e ∷ []))
    snoc [] h = (k, tt)
    snoc (y ∷ ys) (h, t) = (h, snoc ys t)

-- The search for a key misses it only where it is not there.
pub find_key-none :
    (path : Bytes) (s : ℕ) (xs : List IndexEntry)
    → find_key path s xs ≡ none
    → (e : IndexEntry) → e.path_name ≡ path
    → stage e ≡ s
    → All (λ y. ¬ SameKey y e) xs
unfolding find_key has_key
find_key-none path s [] h e p q = tt
find_key-none path s (x ∷ xs) h e p q = elim (Bool-cases (has_key path s x)) [
  | inl c ↦ cc (rw (c, find_key) at h)
  | inr c ↦ (
    (λ (a, b). ground (arith, bytes_eq_iff x.path_name path)),
    find_key-none path s xs (rw (c, find_key) at h) e p q,
  )
]
