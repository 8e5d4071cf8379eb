-- ===== src/PackIndex/Indexed.antt =====
-- The objects that `IndexPack` indexes are the ones that `HasObject` and `GetObject` find.
use dgit.Prelude.{
  ℕ, zero, suc, ◌^◌, ◌≤◌, ◌<◌, ◌≡◌, inl, inr, refl, sym, ap, ◌∙◌, subst, Bool, true, false, ◌||◌,
  List, [], ◌∷◌, ◌++◌, append-nil, Bytes, bytes_eq, bytes_eq_iff, ◌==◌, ==_iff, length, drop,
  take_all, Bool-cases, some, All, arith,
}
use mathlib.Core.List.{Memᴰ}
use mathlib.Core.List.Memᴰ.{head, tail}
use dgit.PackIndex.{Row, PackIndex, first, fanout_at}
use dgit.PackIndex.Build.{PackObject, new_eight, replicate, sort_rows, sort_index, index_pack}
use dgit.PackIndex.Search.{start_index, has_object, found, find_down, Located, at, locate}
use dgit.PackIndex.Tables.{rows_from, eight_from, bumps, init_index-tables, length-rows_from}
use dgit.PackIndex.Offsets.{Placed, to_row, from_row}
use dgit.PackIndex.Sorted.{
  count, IsOrdered, sort_rows-IsOrdered, count-sort_rows, length-sort_rows, mem-sort_rows,
  mem_of-sort_rows, fanout_at-count,
}
use dgit.PackIndex.Lookup.{
  element_mem, find_down-Hit, find_down-finds, has_down-find_down, has_down-Hit, has_down_answers,
  count_le,
}

-- Whether an object has the id.
unfoldable pub holds : Bytes → List PackObject → Bool
holds s [] = false
holds s (o ∷ os) = bytes_eq o.oid s || holds s os

-- One of the objects has the id, and lies where the search says.
pub record At (os : List PackObject) (s : Bytes) (l : Located) : Type 0 where
  pub object : PackObject
  pub member : Memᴰ object os
  pub id : object.oid ≡ s
  pub located : l ≡ at object.location

holds_mem :
    (os : List PackObject) (s : Bytes)
    → holds s os ≡ true
    → (o : PackObject) × Memᴰ o os × (o.oid ≡ s)
unfolding holds
holds_mem [] s h = cc h
holds_mem (o ∷ os) s h = elim (Bool-cases (bytes_eq o.oid s)) [
  | inl y ↦ (o, head refl, (bytes_eq_iff o.oid s).0 y)
  | inr n ↦ let (p, m, e) = holds_mem os s (rw n at h) in (p, tail m, e)
]

mem_holds :
    (os : List PackObject) (s : Bytes) (o : PackObject) → Memᴰ o os → o.oid ≡ s → holds s os ≡ true
unfolding holds
mem_holds [] s o m e = elim m [ ]
mem_holds (p ∷ os) s o (head q) e =
    ground (arith, (bytes_eq_iff p.oid s).1 (sym (ap (λ (t : PackObject). t.oid) q) ∙ e))
mem_holds (p ∷ os) s o (tail m) e = ground (arith, mem_holds os s o m e)

abbrev pub AllIds : List PackObject → Type 0
AllIds = All (λ (o : PackObject). (0 < length o.oid) × (first o.oid < 256))

rows-ids :
    (eight : List ℕ) (os : List PackObject)
    → AllIds os
    → All (λ r. 0 < length r.sha1) (rows_from eight os)
rows-ids eight [] h = tt
rows-ids eight (o ∷ os) ((l, f), h) = (l, rows-ids (new_eight o.location eight) os h)

pub count_all :
    (eight : List ℕ) (os : List PackObject) → AllIds os → count 255 (rows_from eight os) ≡ length os
count_all eight [] h = refl
count_all eight (o ∷ os) ((l, f), h) = ground (arith, count_all (new_eight o.location eight) os h)

drop_all : (n : ℕ) (rows : List Row) → length rows ≤ n → drop n rows ≡ []
drop_all zero [] h = refl
drop_all zero (x ∷ rows) h = absurd (omega arith)
drop_all (suc n) [] h = refl
drop_all (suc n) (x ∷ rows) h = drop_all n rows (omega arith)

-- The index: the counts, the sorted rows, and the eight byte offsets.
pub index_pack-tables :
    (os : List PackObject)
    → AllIds os
    → length os < 2 ^ 32
    → index_pack os ≡ record {
      fanout = bumps (replicate 256 0) os;
      rows = sort_rows (rows_from [] os);
      eight_byte_offsets = eight_from [] os;
    }
unfolding index_pack sort_index
index_pack-tables os h l =
    ap sort_index (init_index-tables os)
    ∙ ap
        (λ t. record {
          fanout = bumps (replicate 256 0) os;
          rows = t;
          eight_byte_offsets = eight_from [] os;
        })
        (ap (λ t. t ++ drop n rows) (ap sort_rows (take_all n rows small))
          ∙ ap (λ t. sort_rows rows ++ t) (drop_all n rows small)
          ∙ append-nil (sort_rows rows))
  where
    rows : List Row
    rows = rows_from [] os

    n : ℕ
    n = fanout_at 255 (bumps (replicate 256 0) os)

    small : length rows ≤ n
    small =
        omega
          (arith, fanout_at-count 255 os (omega arith) l, count_all [] os h, length-rows_from [] os)

module _ (os : List PackObject)
    (ids : All (λ (o : PackObject). (0 < length o.oid) × (first o.oid < 256)) os)
    (fit : All (λ (o : PackObject). o.location < 2 ^ 64) os) (some_object : 0 < length os)
    (few : length os ≤ 2 ^ 31) (s : Bytes) (byte : first s < 256) where
  sorted_rows : List Row
  sorted_rows = sort_rows (rows_from [] os)

  eights : List ℕ
  eights = eight_from [] os

  sorted_index : PackIndex
  sorted_index = record {
    fanout = bumps (replicate 256 0) os;
    rows = sorted_rows;
    eight_byte_offsets = eights;
  }

  ordered : IsOrdered sorted_rows
  unfolding sorted_rows
  ordered = sort_rows-IsOrdered (rows_from [] os) (rows-ids [] os ids)

  counted : fanout_at (first s) (bumps (replicate 256 0) os) ≡ count (first s) sorted_rows
  unfolding sorted_rows
  counted =
      fanout_at-count (first s) os byte (omega (arith, few))
      ∙ sym (count-sort_rows (first s) (rows_from [] os))

  row_object : (r : Row) → Memᴰ r sorted_rows → (o : PackObject) × Memᴰ o os × Placed eights o r
  unfolding sorted_rows eights
  row_object r m =
      from_row os [] fit (omega (arith, few)) r (mem_of-sort_rows r (rows_from [] os) m)

  object_row : (o : PackObject) → Memᴰ o os → (r : Row) × Memᴰ r sorted_rows × Placed eights o r
  unfolding sorted_rows eights
  object_row o m =
      let (r, n, p) = to_row os [] fit (omega (arith, few)) o m in
      (r, mem-sort_rows r (rows_from [] os) n, p)

  -- The search starts in the table, and at the count where there is one.
  start_le : start_index sorted_index s ≤ length sorted_rows
  unfolding start_index sorted_index sorted_rows
  start_le = ground (
    arith,
    counted,
    count_le (first s) sorted_rows,
    length-sort_rows (rows_from [] os),
    length-rows_from [] os,
    some_object,
  )

  finds :
      holds s os ≡ true → (j : ℕ) × (find_down sorted_rows s (start_index sorted_index s) ≡ found j)
  unfolding start_index sorted_index find_down
  finds h =
      let (o, m, e) = holds_mem os s h in
      let (r, n, p) = object_row o m in
      let (j, f) = find_down-finds sorted_rows s ordered r n (p.id ∙ e) in
      elim (Bool-cases (count (first s) sorted_rows == 0)) [
        | inl y ↦ cc (rw ((==_iff (count (first s) sorted_rows) 0).0 y, find_down) at f)
        | inr nonzero ↦ (j, rw (counted, nonzero) f)
      ]

  has_sorted : has_object sorted_index s ≡ some (holds s os)
  unfolding has_object sorted_index
  has_sorted = elim (Bool-cases (holds s os)) [
    | inl y ↦
        let (j, f) = finds y in
        rw y (has_down-find_down sorted_rows s (start_index sorted_index s) j f)
    | inr n ↦
        let (b, e) = has_down_answers sorted_rows s (start_index sorted_index s) start_le in
        elim (Bool-cases b) [
          | inr f ↦ rw n (e ∙ ap some f)
          | inl t ↦
              let (i, hit) =
                has_down-Hit sorted_rows s (start_index sorted_index s) (e ∙ ap some t) in
              let (o, m, p) = row_object hit.row (element_mem sorted_rows i hit.row hit.here) in
              cc (mem_holds os s o m (sym p.id ∙ hit.same))
        ]
  ]

  located : holds s os ≡ true → At os s (locate sorted_index s)
  unfolding locate sorted_index
  located h =
      let (j, f) = finds h in
      let hit = find_down-Hit sorted_rows s (start_index sorted_index s) j f in
      let (o, m, p) = row_object hit.row (element_mem sorted_rows j hit.row hit.here) in
      record {
        object = o;
        member = m;
        id = sym p.id ∙ hit.same;
        located = rw (f, hit.here, p.placed, locate);
      }

  -- For a pack of one object at least and of 2^31 at most, whose ids are not empty and begin with a
  -- byte, and whose locations are below 2^64, `HasObject` of the index that is built panics for no id that begins with a
  -- byte, and says whether an object has it.
  pub has_object-index_pack : has_object (index_pack os) s ≡ some (holds s os)
  unfolding sorted_index sorted_rows eights
  has_object-index_pack =
      ap (λ (t : PackIndex). has_object t s) (index_pack-tables os ids (omega (arith, few)))
      ∙ has_sorted

  -- For a pack of one object at least and of 2^31 at most, whose ids are not empty and begin with a
  -- byte, and whose locations are below 2^64, `GetObject` on the index that is built looks for an id that objects have at the
  -- location of one of them, also where that takes an eight byte offset.
  pub locate-index_pack : holds s os ≡ true → At os s (locate (index_pack os) s)
  unfolding sorted_index sorted_rows eights
  locate-index_pack h =
      subst (λ (t : PackIndex). At os s (locate t s))
        (sym (index_pack-tables os ids (omega (arith, few)))) (located h)
