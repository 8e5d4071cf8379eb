-- ===== src/ReadTree/Refines.antt =====
-- `ReadTreeFastForward` against the table of git-read-tree(1).
use dgit.Prelude.{
  ◌≡◌, ◌⊎◌, inl, inr, refl, Bool, true, false, not, Bytes, Bool-cases, Option, none, some, arith,
}
use dgit.Index.Entry.{IndexEntry, Index}
use dgit.ReadTree.Maps.{IndexMap, get, IsMap, Files}
use dgit.ReadTree.FastForward.{MergeError, fast_forward}
use dgit.ReadTree.Table.{result, fail, same, table, clean_at, outcome, Differing}
use dgit.ReadTree.Followed.{
  followed, followed_at, result_inj, fast_forward-followed, failed-followed,
}

-- The rows that the code follows are those of the table, but for an initial checkout of a path that
-- differs.
followed-table :
    (clean : Bool) (index_exists : Bool) (i h m got : Option IndexEntry)
    → result got ≡ followed clean (not index_exists) i h m
    → (result got ≡ table clean (not index_exists) i h m)
      ⊎ ((index_exists ≡ false)
          × (i ≡ none)
          × ((a : IndexEntry) × (b : IndexEntry) × ((h ≡ some a)
                × (m ≡ some b)
                × (same a b ≡ false)
                × (got ≡ some b))))
unfolding followed table
followed-table clean b none none none got e = inl e
followed-table clean b none none (some m) got e = inl e
followed-table clean b none (some h) none got e = inl e
followed-table clean true none (some h) (some m) got e = inl e
followed-table clean false none (some h) (some m) got e = elim (Bool-cases (same h m)) [
  | inl y ↦ inl (rw y e)
  | inr n ↦ inr (refl, refl, (h, m, (refl, refl, n, result_inj e)))
]
followed-table clean b (some i) none none got e = inl e
followed-table clean b (some i) none (some m) got e = inl e
followed-table clean b (some i) (some h) none got e = inl e
followed-table clean b (some i) (some h) (some m) got e = inl e

fail-table :
    (clean initial : Bool) (i h m : Option IndexEntry)
    → followed clean initial i h m ≡ fail
    → table clean initial i h m ≡ fail
unfolding followed table
fail-table clean initial none none none e = e
fail-table clean initial none none (some m) e = e
fail-table clean initial none (some h) none e = e
fail-table clean initial none (some h) (some m) e = ground arith
fail-table clean initial (some i) none none e = e
fail-table clean initial (some i) none (some m) e = e
fail-table clean initial (some i) (some h) none e = e
fail-table clean initial (some i) (some h) (some m) e = e

module _ (c : Files) (index_exists : Bool) (index parent dst : IndexMap) (index_map : IsMap index)
    (dst_map : IsMap dst) where
  -- Where the fast-forward succeeds, on maps of the index and the destination without double
  -- paths, the new index has at every path what the table says for the index, the parent and
  -- the destination there. One case is excepted: where there is no index file, at a path that the
  -- index has not and where parent and destination have different blobs, the table says fail and the
  -- new index has the entry of the destination.
  pub fast_forward-outcome :
      {g : Index}
      → fast_forward c index_exists index parent dst ≡ inl g
      → (path : Bytes)
      → (result (get path g.objects) ≡ outcome c index_exists index parent dst path)
        ⊎ Differing index_exists index parent dst path (get path g.objects)
  unfolding followed_at outcome
  fast_forward-outcome {g} h path =
      elim (followed-table (clean_at c (get path index)) index_exists (get path index)
        (get path parent) (get path dst) (get path g.objects)
        (fast_forward-followed c index_exists index parent dst index_map dst_map h path)) [
          | inl e ↦ inl e
          | inr (z, absent, (a, b, (p, q, n, got))) ↦ inr (record {
            initial = z;
            not_in_index = absent;
            of_parent = a;
            in_parent = p;
            of_dst = b;
            in_dst = q;
            differ = n;
            takes_dst = got;
          })
        ]

  -- Where the fast-forward fails, on maps of the index and the destination without double
  -- paths, there is a path for which the table says so.
  pub fast_forward-fail :
      {x : MergeError}
      → fast_forward c index_exists index parent dst ≡ inr x
      → (path : Bytes) × (outcome c index_exists index parent dst path ≡ fail)
  unfolding followed_at outcome
  fast_forward-fail h =
      let (path, f) = failed-followed c index_exists index parent dst index_map dst_map h in
      (path, fail-table _ _ _ _ _ f)
