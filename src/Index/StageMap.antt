-- ===== src/Index/StageMap.antt =====
-- git/index.go: what `GetStageMap` has of an index without double keys.
use dgit.Prelude.{
  ℕ, ◌≡◌, inl, inr, refl, sym, subst, ◌∙◌, Bool, true, false, List, [], ◌∷◌, Bytes, if◌then◌else◌,
  bytes_eq_iff, Bool-cases, Option, none, some, All, arith,
}
use dgit.Index.Entry.{IndexEntry, stage}
use dgit.Index.Stages.{has_key, find_key}
use dgit.Index.Order.{SameKey}
use dgit.Index.Sorted.{IsDistinct}
use dgit.Index.WellFormed.{has_key_parts}
use dgit.Index.Unmerged.{put_key, put_keys}

unfoldable pub or_else : Option IndexEntry → Option IndexEntry → Option IndexEntry
or_else (some x) y = some x
or_else none y = y

-- An entry has its own key.
has_key_self : (e : IndexEntry) → has_key e.path_name (stage e) e ≡ true
unfolding has_key
has_key_self e = ground (arith, bytes_eq_iff e.path_name e.path_name)

-- Entries of one key pass the same tests.
has_key_same :
    (path : Bytes) (s : ℕ) (e new : IndexEntry)
    → SameKey e new
    → has_key path s e ≡ has_key path s new
unfolding has_key
has_key_same path s e new (p, q) = rw (p, q)

other_key :
    (path : Bytes) (s : ℕ) (e new : IndexEntry)
    → has_key path s new ≡ true
    → has_key new.path_name (stage new) e ≡ false
    → has_key path s e ≡ false
other_key path s e new k n =
    let (p, q) = has_key_parts path s new k in
    subst (λ (z : Bytes). has_key z s e ≡ false) p
      (subst (λ (i : ℕ). has_key new.path_name i e ≡ false) q n)

chosen_twice :
    (b : Bool) (x y z : Option IndexEntry)
    → (if b then x else z) ≡ (if b then x else (if b then y else z))
chosen_twice true x y z = refl
chosen_twice false x y z = refl

find_key-put_key :
    (path : Bytes) (s : ℕ) (new : IndexEntry) (m : List IndexEntry)
    → find_key path s (put_key new m) ≡ (if has_key path s new then some new else find_key path s m)
unfolding find_key put_key
find_key-put_key path s new [] = refl
find_key-put_key path s new (e ∷ m) = elim (Bool-cases (has_key new.path_name (stage new) e)) [
  | inl y ↦
      rw (y, has_key_same path s e new (has_key_parts new.path_name (stage new) e y))
        (chosen_twice (has_key path s new) (some new) (some e) (find_key path s m))
  | inr n ↦ rw n (
      rw (find_key-put_key path s new m) (elim (Bool-cases (has_key path s new)) [
        | inl k ↦ rw (k, other_key path s e new k n) refl
        | inr k ↦ rw k refl
      ]))
]

-- A key that no entry has is not found.
pub find_key-absent :
    (e : IndexEntry) (xs : List IndexEntry)
    → All (λ y. ¬ SameKey e y) xs
    → find_key e.path_name (stage e) xs ≡ none
unfolding find_key
find_key-absent e [] h = refl
find_key-absent e (x ∷ xs) (h, t) = elim (Bool-cases (has_key e.path_name (stage e) x)) [
  | inl y ↦ let (p, q) = has_key_parts e.path_name (stage e) x y in absurd (h (sym p, sym q))
  | inr n ↦ rw n (find_key-absent e xs t)
]

pub find_key-put_keys :
    (path : Bytes) (s : ℕ) (es m : List IndexEntry)
    → IsDistinct es
    → find_key path s (put_keys m es) ≡ or_else (find_key path s es) (find_key path s m)
unfolding find_key put_keys or_else
find_key-put_keys path s [] m d = refl
find_key-put_keys path s (e ∷ es) m (h, d) =
    find_key-put_keys path s es (put_key e m) d
    ∙ rw (find_key-put_key path s e m) (elim (Bool-cases (has_key path s e)) [
      | inl y ↦
          let (p, q) = has_key_parts path s e y in
          let gone : find_key path s es ≡ none =
            subst (λ (z : Bytes). find_key z s es ≡ none) p
              (subst (λ (n : ℕ). find_key e.path_name n es ≡ none) q (find_key-absent e es h)) in
          rw (y, gone) refl
      | inr n ↦ rw n refl
    ])

pub or_else-none : (x : Option IndexEntry) → or_else x none ≡ x
unfolding or_else
or_else-none none = refl
or_else-none (some e) = refl
