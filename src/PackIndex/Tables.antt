-- ===== src/PackIndex/Tables.antt =====
-- The tables that the pack index has when all objects are added.
use dgit.Prelude.{
  ℕ, ◌+◌, ◌≡◌, refl, sym, ap, ◌∙◌, subst, List, [], ◌∷◌, ◌++◌, append_assoc, length, length-append,
  arith,
}
use dgit.PackIndex.{Row, PackIndex, first}
use dgit.PackIndex.Build.{
  PackObject, replicate, zero_row, init_index, set_row, bump, update_fanout, new_offset, new_eight,
  store_location, store_crc32, add_object, add_objects,
}

-- The tables of the objects, one after the other.
abbrev pub row_of : List ℕ → PackObject → Row
row_of eight o = record { sha1 = o.oid; crc32 = o.crc32; offset = new_offset o.location eight }

abbrev pub rows_from : List ℕ → List PackObject → List Row
rows_from eight [] = []
rows_from eight (o ∷ os) = row_of eight o ∷ rows_from (new_eight o.location eight) os

abbrev pub eight_from : List ℕ → List PackObject → List ℕ
eight_from eight [] = eight
eight_from eight (o ∷ os) = eight_from (new_eight o.location eight) os

abbrev pub bumps : List ℕ → List PackObject → List ℕ
bumps f [] = f
bumps f (o ∷ os) = bumps (bump (first o.oid) f) os

set_row-append :
    (f : Row → Row) (done : List Row) (r : Row) (rows : List Row)
    → set_row (length done) f (done ++ (r ∷ rows)) ≡ done ++ (f r ∷ rows)
unfolding set_row
set_row-append f [] r rows = refl
set_row-append f (x ∷ done) r rows = ap (◌∷◌ x) (set_row-append f done r rows)

abbrev tables : List ℕ → List Row → List ℕ → PackIndex
tables f rows eight = record { fanout = f; rows = rows; eight_byte_offsets = eight }

add_object-tables :
    (f : List ℕ) (done : List Row) (r : Row) (rows : List Row) (eight : List ℕ) (o : PackObject)
    → add_object (length done) o (tables f (done ++ (r ∷ rows)) eight)
      ≡ tables (bump (first o.oid) f) (done ++ (row_of eight o ∷ rows)) (new_eight o.location eight)
unfolding add_object store_location update_fanout store_crc32
add_object-tables f done r rows eight o =
    ap (λ (t : List Row). tables (bump (first o.oid) f) t (new_eight o.location eight))
      (ap
          (λ t.
            set_row (length done) (λ x. record x { crc32 = o.crc32 })
              (set_row (length done) (λ x. record x { sha1 = o.oid }) t))
          (set_row-append (λ x. record x { offset = new_offset o.location eight }) done r rows)
        ∙ ap (set_row (length done) (λ x. record x { crc32 = o.crc32 })) (
            set_row-append (λ x. record x { sha1 = o.oid }) done
              (record r { offset = new_offset o.location eight }) rows)
        ∙ set_row-append (λ x. record x { crc32 = o.crc32 }) done
            (record r { offset = new_offset o.location eight; sha1 = o.oid }) rows)

add_objects-tables :
    (os : List PackObject) (f : List ℕ) (done : List Row) (eight : List ℕ)
    → add_objects (length done) os (tables f (done ++ replicate (length os) zero_row) eight)
      ≡ tables (bumps f os) (done ++ rows_from eight os) (eight_from eight os)
unfolding add_objects replicate
add_objects-tables [] f done eight = refl
add_objects-tables (o ∷ os) f done eight =
    ap (add_objects (length done + 1) os) (
      add_object-tables f done zero_row (replicate (length os) zero_row) eight o
      ∙ ap (λ t. tables f' t eight')
          (sym (append_assoc done (r ∷ []) (replicate (length os) zero_row))))
    ∙ subst
        (λ (n : ℕ).
          add_objects n os (tables f' ((done ++ (r ∷ [])) ++ replicate (length os) zero_row) eight')
          ≡ tables (bumps f' os) ((done ++ (r ∷ [])) ++ rows_from eight' os) (eight_from eight' os))
        (length-append done (r ∷ [])) (add_objects-tables os f' (done ++ (r ∷ [])) eight')
    ∙ ap (λ t. tables (bumps f' os) t (eight_from eight' os))
        (append_assoc done (r ∷ []) (rows_from eight' os))
  where
    r : Row
    r = row_of eight o

    f' : List ℕ
    f' = bump (first o.oid) f

    eight' : List ℕ
    eight' = new_eight o.location eight

-- What `IndexPack` sorts.
pub init_index-tables :
    (os : List PackObject)
    → add_objects 0 os (init_index (length os)) ≡ record {
      fanout = bumps (replicate 256 0) os;
      rows = rows_from [] os;
      eight_byte_offsets = eight_from [] os;
    }
unfolding init_index
init_index-tables os = add_objects-tables os (replicate 256 0) [] []

pub length-rows_from :
    (eight : List ℕ) (os : List PackObject) → length (rows_from eight os) ≡ length os
length-rows_from eight [] = refl
length-rows_from eight (o ∷ os) = omega (arith, length-rows_from (new_eight o.location eight) os)
