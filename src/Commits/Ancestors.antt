-- ===== src/Commits/Ancestors.antt =====
-- The ancestor map of a commit has what its parent links reach.
use dgit.Prelude.{
  ℕ, zero, suc, ◌<◌, ◌≡◌, ◌≢◌, ◌↔◌, ◌⊎◌, inl, inr, refl, subst, true, ◌||◌, List, [], ◌∷◌, ◌++◌,
  Bytes, bytes_eq, bytes_eq_iff, Bool-cases, Option-cases, some, arith,
}
use dgit.Commits.{
  Store, has, AncestorMap, known, failed, unfinished, collect, parents, ancestor_map,
}

pub has-append : (k : Bytes) (m n : List Bytes) → has k (m ++ n) ≡ (has k m || has k n)
unfolding has
has-append k [] n = refl
has-append k (x ∷ m) n = ground (arith, has-append k m n)

known_inj : {m n : List Bytes} → known m ≡ known n → m ≡ n
known_inj e = cc

pub AncestorMap-cases :
    (r : AncestorMap) → ((m : List Bytes) × (r ≡ known m)) ⊎ ((r ≡ failed) ⊎ (r ≡ unfinished))
AncestorMap-cases (known m) = inl (m, refl)
AncestorMap-cases failed = inr (inl refl)
AncestorMap-cases unfinished = inr (inr refl)

-- The map that the loop gives has what it had and what the maps of the parents have.
module _ (call : Bytes → AncestorMap) where
  -- A parent's map has `k`.
  pub record Grand (ps : List Bytes) (k : Bytes) : Type 0 where
    pub parent : Bytes
    pub map : List Bytes
    pub among : has parent ps ≡ true
    pub called : call parent ≡ known map
    pub member : has k map ≡ true

  collect-has :
      (ps m : List Bytes) {r : List Bytes}
      → collect call ps m ≡ known r
      → (k : Bytes) → has k r ≡ true
      → (has k m ≡ true) ⊎ Grand ps k
  unfolding collect has
  collect-has [] m e k h = inl (cc (known_inj e, h))
  collect-has (p ∷ ps) m e k h = elim (AncestorMap-cases (call p)) [
    | inr (inl f) ↦ cc (rw (f, collect) at e)
    | inr (inr f) ↦ cc (rw (f, collect) at e)
    | inl (g, f) ↦ elim (collect-has ps (m ++ g) (rw (f, collect) at e) k h) [
      | inr x ↦ inr (record {
        parent = x.parent;
        map = x.map;
        among = ground (arith, x.among);
        called = x.called;
        member = x.member;
      })
      | inl y ↦ elim (Bool-cases (has k m)) [
        | inl z ↦ inl z
        | inr z ↦ inr (record {
          parent = p;
          map = g;
          among = ground (arith, bytes_eq_iff p p);
          called = f;
          member = ground (arith, has-append k m g);
        })
      ]
    ]
  ]

  collect-keeps :
      (ps m : List Bytes) {r : List Bytes}
      → collect call ps m ≡ known r
      → (k : Bytes) → has k m ≡ true
      → has k r ≡ true
  unfolding collect
  collect-keeps [] m e k h = cc (known_inj e, h)
  collect-keeps (p ∷ ps) m e k h = elim (AncestorMap-cases (call p)) [
    | inr (inl f) ↦ cc (rw (f, collect) at e)
    | inr (inr f) ↦ cc (rw (f, collect) at e)
    | inl (g, f) ↦
        collect-keeps ps (m ++ g) (rw (f, collect) at e) k (ground (arith, has-append k m g))
  ]

  -- Every parent has a map, and what is in it is in the result.
  collect-adds :
      (ps m : List Bytes) {r : List Bytes}
      → collect call ps m ≡ known r
      → (p : Bytes) → has p ps ≡ true
      → (g : List Bytes) × (call p ≡ known g) × ((k : Bytes) → has k g ≡ true → has k r ≡ true)
  unfolding collect has
  collect-adds [] m e p h = cc
  collect-adds (q ∷ ps) m e p h = elim (AncestorMap-cases (call q)) [
    | inr (inl f) ↦ cc (rw (f, collect) at e)
    | inr (inr f) ↦ cc (rw (f, collect) at e)
    | inl (g, f) ↦ elim (Bool-cases (bytes_eq q p)) [
      | inl y ↦ (
        g,
        subst (λ (t : Bytes). call t ≡ known g) ((bytes_eq_iff q p).0 y) f,
        λ k i.
            collect-keeps ps (m ++ g) (rw (f, collect) at e) k (ground (arith, has-append k m g)),
      )
      | inr n ↦ collect-adds ps (m ++ g) (rw (f, collect) at e) p (rw n at h)
    ]
  ]

module _ (c : Store) where
  -- The links from a commit to its parents, any number of them.
  pub data Reaches : Bytes → Bytes → Type 0 where
    here : (s : Bytes) → Reaches s s
    up :
        (s p k : Bytes) (ps : List Bytes)
        → parents c s ≡ some ps
        → has p ps ≡ true
        → Reaches p k
        → Reaches s k

  ancestor_map_sound :
      (n : ℕ) (s : Bytes) {m : List Bytes}
      → ancestor_map c n s ≡ known m
      → (k : Bytes) → has k m ≡ true
      → Reaches s k
  unfolding ancestor_map has
  ancestor_map_sound zero s e k h = cc
  ancestor_map_sound (suc n) s e k h = elim (Option-cases (parents c s)) [
    | inl p ↦ cc (rw (p, ancestor_map) at e)
    | inr (ps, p) ↦
        elim (collect-has (ancestor_map c n) ps (s ∷ ps) (rw (p, ancestor_map) at e) k h) [
          | inr x ↦ up s x.parent k ps p x.among (ancestor_map_sound n x.parent x.called k x.member)
          | inl y ↦ elim (Bool-cases (bytes_eq s k)) [
            | inl z ↦ subst (λ (t : Bytes). Reaches s t) ((bytes_eq_iff s k).0 z) (here s)
            | inr z ↦ up s k k ps p (rw z at y) (here k)
          ]
        ]
  ]

  ancestor_map_complete :
      (n : ℕ) (s : Bytes) {m : List Bytes}
      → ancestor_map c n s ≡ known m
      → (k : Bytes) → Reaches s k
      → has k m ≡ true
  unfolding ancestor_map has
  ancestor_map_complete zero s e k r = cc
  ancestor_map_complete (suc n) _ e _ (here s) = elim (Option-cases (parents c s)) [
    | inl p ↦ cc (rw (p, ancestor_map) at e)
    | inr (ps, p) ↦
        collect-keeps (ancestor_map c n) ps (s ∷ ps) (rw (p, ancestor_map) at e) s
          (ground (arith, bytes_eq_iff s s))
  ]
  ancestor_map_complete (suc n) _ e _ (up s p k ps q among r) =
      let (g, called, adds) =
        collect-adds (ancestor_map c n) ps (s ∷ ps) (rw (q, ancestor_map) at e) p among in
      adds k (ancestor_map_complete n p called k r)

  -- If the ancestor map of a commit is known, it has exactly the commits that parent links
  -- reach from the commit, itself among them.
  pub ancestor_map-Reaches :
      (n : ℕ) (s : Bytes) {m : List Bytes}
      → ancestor_map c n s ≡ known m
      → (k : Bytes) → (has k m ≡ true) ↔ Reaches s k
  ancestor_map-Reaches n s e k = (ancestor_map_sound n s e k, ancestor_map_complete n s e k)

  -- A commit's parents stand below it.
  module _ (rank : Bytes → ℕ)
      (acyclic : (s p : Bytes) (ps : List Bytes)
        → parents c s ≡ some ps
        → has p ps ≡ true
        → rank p < rank s) where
    collect-ne-unfinished :
        (call : Bytes → AncestorMap) (ps m : List Bytes)
        → ((p : Bytes) → has p ps ≡ true → call p ≢ unfinished)
        → collect call ps m ≢ unfinished
    unfolding collect has
    collect-ne-unfinished call [] m h e = cc e
    collect-ne-unfinished call (p ∷ ps) m h e = elim (AncestorMap-cases (call p)) [
      | inr (inl f) ↦ cc (rw (f, collect) at e)
      | inr (inr f) ↦ h p (ground (arith, bytes_eq_iff p p)) f
      | inl (g, f) ↦
          collect-ne-unfinished call ps (m ++ g) (λ q k. h q (ground arith)) (rw (f, collect) at e)
    ]

    -- Where every parent has a lower rank than its child, fuel above the rank of a commit is
    -- enough for its ancestor map.
    pub ancestor_map-ne-unfinished :
        (n : ℕ) (s : Bytes) → rank s < n → ancestor_map c n s ≢ unfinished
    unfolding ancestor_map
    ancestor_map-ne-unfinished zero s h e = absurd (omega arith)
    ancestor_map-ne-unfinished (suc n) s h e = elim (Option-cases (parents c s)) [
      | inl p ↦ cc (rw (p, ancestor_map) at e)
      | inr (ps, p) ↦
          collect-ne-unfinished (ancestor_map c n) ps (s ∷ ps)
            (λ q k. ancestor_map-ne-unfinished n q (omega (arith, acyclic s q ps p k)))
            (rw (p, ancestor_map) at e)
    ]
