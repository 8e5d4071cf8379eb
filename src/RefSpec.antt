-- ===== src/RefSpec.antt =====
-- git/refspec.go: the two sides of a refspec.
use dgit.Prelude.{
  ◌≡◌, refl, Bool, true, false, ◌==◌, [], ◌∷◌, ◌++◌, Bytes, if◌then◌else◌, Option, none, some,
  arith,
}

-- `strings.Index(s, ":")`: what stands before the first colon and behind it.
unfoldable pub split_colon : Bytes → Option (Bytes × Bytes)
split_colon [] = none
split_colon (x ∷ s) =
    let rest = split_colon s in
    if x == b':' then some ([], s) else elim rest [ none ↦ none | some r ↦ some (x ∷ r.0, r.1) ]

-- `if r[0] == '+' { r = r[1:] }`
unfoldable pub drop_plus : Bytes → Bytes
drop_plus [] = []
drop_plus (x ∷ r) = if x == b'+' then r else x ∷ r

unfoldable pub src : Bytes → Bytes
src r = elim (split_colon (drop_plus r)) [ none ↦ drop_plus r | some p ↦ p.0 ]

unfoldable pub dst : Bytes → Bytes
dst r = elim (split_colon (drop_plus r)) [ none ↦ [] | some p ↦ p.1 ]

-- The text has no colon.
unfoldable pub has_colon : Bytes → Bool
has_colon [] = false
has_colon (x ∷ s) = if x == b':' then true else has_colon s

unfoldable pub has_plus : Bytes → Bool
has_plus [] = false
has_plus (x ∷ s) = x == b'+'

split_colon-append :
    (a b : Bytes) → has_colon a ≡ false → split_colon (a ++ (b':' ∷ b)) ≡ some (a, b)
unfolding split_colon has_colon
split_colon-append [] b h = refl
split_colon-append (x ∷ a) b h = ground (arith, split_colon-append a b)

split_colon-none : (a : Bytes) → has_colon a ≡ false → split_colon a ≡ none
unfolding split_colon has_colon
split_colon-none [] h = refl
split_colon-none (x ∷ a) h = ground (arith, split_colon-none a)

drop_plus_none : (a : Bytes) → has_plus a ≡ false → drop_plus a ≡ a
unfolding drop_plus has_plus
drop_plus_none [] h = refl
drop_plus_none (x ∷ a) h = rw h

has_plus-append : (a b : Bytes) → has_plus a ≡ false → has_plus (a ++ (b':' ∷ b)) ≡ false
unfolding has_plus
has_plus-append [] b h = refl
has_plus-append (x ∷ a) b h = h

sides :
    (r a b : Bytes)
    → drop_plus r ≡ a ++ (b':' ∷ b)
    → has_colon a ≡ false
    → (src r ≡ a) × (dst r ≡ b)
unfolding src dst
sides r a b e h = let s = split_colon-append a b h in (rw (e, s, src) refl, rw (e, s, dst) refl)

-- A refspec of two names, with or without a plus in front, has them as its sides, if the first name
-- has no colon and does not begin with a plus. A name without a colon and without a plus in front is
-- the source, and the destination is empty.
pub src-dst :
    (a b : Bytes)
    → has_colon a ≡ false
    → has_plus a ≡ false
    → ((src (a ++ (b':' ∷ b)) ≡ a) × (dst (a ++ (b':' ∷ b)) ≡ b))
      × ((src (b'+' ∷ (a ++ (b':' ∷ b))) ≡ a) × (dst (b'+' ∷ (a ++ (b':' ∷ b))) ≡ b))
      × ((src a ≡ a) × (dst a ≡ []))
unfolding drop_plus src dst
src-dst a b h p = (
  sides (a ++ (b':' ∷ b)) a b (drop_plus_none (a ++ (b':' ∷ b)) (has_plus-append a b p)) h,
  sides (b'+' ∷ (a ++ (b':' ∷ b))) a b refl h,
  (
    rw (drop_plus_none a p, split_colon-none a h, src) (drop_plus_none a p),
    rw (drop_plus_none a p, split_colon-none a h, dst) refl,
  ),
)
