-- ===== src/PackIndex/Offsets.antt =====
-- The offsets of the tables lead back to the locations of the objects.
use dgit.Prelude.{
  ℕ, ◌+◌, ◌%◌, ◌^◌, ◌≤◌, ◌<◌, ◌≡◌, inl, inr, refl, sym, ap, ◌∙◌, subst, List, [], ◌∷◌, ◌++◌,
  append_assoc, append-nil, ltb, bit_or, length, length-append, Bool-cases, some, All, arith,
}
use dgit.Prelude.Bits.{bit_or-shifted, bit_and-shifted}
use mathlib.Core.List.{Memᴰ}
use mathlib.Core.List.Memᴰ.{head, tail}
use dgit.PackIndex.{Row, element}
use dgit.PackIndex.Build.{PackObject, new_offset, new_eight}
use dgit.PackIndex.Search.{offset_of}
use dgit.PackIndex.Tables.{row_of, rows_from, eight_from}

element-append : (xs : List ℕ) (x : ℕ) (ys : List ℕ) → element (xs ++ (x ∷ ys)) (length xs) ≡ some x
unfolding element
element-append [] x ys = refl
element-append (y ∷ xs) x ys = element-append xs x ys

small_offset : (eight : List ℕ) (n : ℕ) → n < 2 ^ 31 → offset_of eight n ≡ some n
unfolding offset_of
small_offset eight n h = ground (arith, bit_and-shifted 31 0 n 1 h)

large_offset :
    (eight : List ℕ) (n : ℕ) → n < 2 ^ 31 → offset_of eight (n + 2 ^ 31) ≡ element eight n
unfolding offset_of
large_offset eight n h = ground (arith, bit_and-shifted 31 1 n 1 h)

new_offset_lem :
    (location : ℕ) (eight more : List ℕ)
    → location < 2 ^ 64
    → length eight < 2 ^ 31
    → offset_of (new_eight location eight ++ more) (new_offset location eight) ≡ some location
unfolding new_eight new_offset
new_offset_lem location eight more h l = elim (Bool-cases (ltb location (2 ^ 31))) [
  | inl y ↦
      rw (y, new_offset, new_eight)
        (ap (offset_of (eight ++ more)) (ground arith)
          ∙ small_offset (eight ++ more) location (ground arith))
  | inr n ↦
      rw (n, new_offset, new_eight)
        (ap (offset_of ((eight ++ ((location % 2 ^ 64) ∷ [])) ++ more))
            (omega (arith, bit_or-shifted 31 (length eight) 1 l, ap (λ t. bit_or t (2 ^ 31)) small))
          ∙ large_offset ((eight ++ ((location % 2 ^ 64) ∷ [])) ++ more) (length eight) l
          ∙ ap (λ t. element t (length eight)) (append_assoc eight ((location % 2 ^ 64) ∷ []) more)
          ∙ element-append eight (location % 2 ^ 64) more
          ∙ ap some (omega arith))
]
  where
    small : length eight % 2 ^ 32 ≡ length eight
    small = omega arith

-- The eight byte offsets only grow.
record Extends (old new : List ℕ) : Type 0 where
  more : List ℕ
  grown : new ≡ old ++ more

new_eight-Extends : (location : ℕ) (eight : List ℕ) → Extends eight (new_eight location eight)
unfolding new_eight
new_eight-Extends location eight = elim (Bool-cases (ltb location (2 ^ 31))) [
  | inl y ↦ record { more = []; grown = rw (y, new_eight) (sym (append-nil eight)) }
  | inr n ↦ record { more = (location % 2 ^ 64) ∷ []; grown = rw (n, new_eight) refl }
]

eight_from-Extends : (os : List PackObject) (eight : List ℕ) → Extends eight (eight_from eight os)
eight_from-Extends [] eight = record { more = []; grown = sym (append-nil eight) }
eight_from-Extends (o ∷ os) eight =
    let a = new_eight-Extends o.location eight in
    let b = eight_from-Extends os (new_eight o.location eight) in
    record {
      more = a.more ++ b.more;
      grown = b.grown ∙ ap (λ t. t ++ b.more) a.grown ∙ append_assoc eight a.more b.more;
    }

pub length-new_eight :
    (location : ℕ) (eight : List ℕ) → length (new_eight location eight) ≤ length eight + 1
unfolding new_eight
length-new_eight location eight = elim (Bool-cases (ltb location (2 ^ 31))) [
  | inl y ↦ rw (y, new_eight) (omega arith)
  | inr n ↦ rw (n, new_eight) (omega (arith, length-append eight ((location % 2 ^ 64) ∷ [])))
]

-- The row of an object.
pub record Placed (eight : List ℕ) (o : PackObject) (r : Row) : Type 0 where
  pub id : r.sha1 ≡ o.oid
  pub placed : offset_of eight r.offset ≡ some o.location

row_of-Placed :
    (o : PackObject) (os : List PackObject) (eight : List ℕ)
    → o.location < 2 ^ 64
    → length eight < 2 ^ 31
    → Placed (eight_from (new_eight o.location eight) os) o (row_of eight o)
row_of-Placed o os eight h l =
    let b = eight_from-Extends os (new_eight o.location eight) in
    record {
      id = refl;
      placed =
          ap (λ t. offset_of t (new_offset o.location eight)) b.grown
          ∙ new_offset_lem o.location eight b.more h l;
    }

abbrev pub AllFit : List PackObject → Type 0
AllFit = All (λ (o : PackObject). o.location < 2 ^ 64)

pub to_row :
    (os : List PackObject) (eight : List ℕ)
    → AllFit os
    → length eight + length os ≤ 2 ^ 31
    → (o : PackObject) → Memᴰ o os
    → (r : Row) × Memᴰ r (rows_from eight os) × Placed (eight_from eight os) o r
to_row [] eight h l o m = elim m [ ]
to_row (x ∷ os) eight (h, t) l o (head e) = (
  row_of eight x,
  head refl,
  subst (λ (y : PackObject). Placed (eight_from (new_eight x.location eight) os) y (row_of eight x))
      (sym e) (row_of-Placed x os eight h (omega arith)),
)
to_row (x ∷ os) eight (h, t) l o (tail m) =
    let (r, n, p) =
      to_row os (new_eight x.location eight) t (omega (arith, length-new_eight x.location eight)) o
        m in
    (r, tail n, p)

pub from_row :
    (os : List PackObject) (eight : List ℕ)
    → AllFit os
    → length eight + length os ≤ 2 ^ 31
    → (r : Row) → Memᴰ r (rows_from eight os)
    → (o : PackObject) × Memᴰ o os × Placed (eight_from eight os) o r
from_row [] eight h l r m = elim m [ ]
from_row (x ∷ os) eight (h, t) l r (head e) = (
  x,
  head refl,
  subst (λ (y : Row). Placed (eight_from (new_eight x.location eight) os) x y) (sym e)
      (row_of-Placed x os eight h (omega arith)),
)
from_row (x ∷ os) eight (h, t) l r (tail m) =
    let (o, n, p) =
      from_row os (new_eight x.location eight) t (omega (arith, length-new_eight x.location eight))
        r m in
    (o, tail n, p)
