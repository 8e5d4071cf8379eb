-- ===== src/Commits/Common.antt =====
-- A merge base is a common ancestor.
use dgit.Prelude.{
  ℕ, zero, suc, ◌≡◌, ◌⊎◌, inl, inr, refl, subst, Bool, true, false, List, [], ◌∷◌, Bytes,
  bytes_eq_iff, Bool-cases, Option, Option-cases, none, some, some_inj, All, All-append, arith,
}
use dgit.Commits.{
  Store, has, parents, ancestor_map, is_ancestor, of_some, check_level, next_level, level_loop,
  breadth_first, merge_base, base,
}
use dgit.Commits.Ancestors.{Reaches, here, up, ancestor_map-Reaches, AncestorMap-cases}

base_inj : {a b : Bytes} → base a ≡ base b → a ≡ b
base_inj e = cc

module _ (c : Store) (fuel : ℕ) where
  -- `IsAncestor` holds of what the parent links reach.
  pub is_ancestor-Reaches :
      (child p : Bytes) → is_ancestor c fuel child p ≡ some true → Reaches c p child
  unfolding is_ancestor
  is_ancestor-Reaches child p e = elim (AncestorMap-cases (ancestor_map c fuel p)) [
    | inl (m, f) ↦ (ancestor_map-Reaches c fuel p f child).0 (some_inj (rw (f, is_ancestor) at e))
    | inr (inl f) ↦ cc (rw (f, is_ancestor) at e)
    | inr (inr f) ↦ cc (rw (f, is_ancestor) at e)
  ]

  -- The commit is an ancestor of one of the heads.
  pub record Common (others : List Bytes) (b : Bytes) : Type 0 where
    pub head : Bytes
    pub among : has head others ≡ true
    pub reached : Reaches c head b

  Test-cases : (o : Option Bool) → (o ≡ none) ⊎ ((o ≡ some true) ⊎ (o ≡ some false))
  Test-cases none = inl refl
  Test-cases (some true) = inr (inl refl)
  Test-cases (some false) = inr (inr refl)

  of_some-Common :
      (b : Bytes) (others : List Bytes) → of_some c fuel b others ≡ some true → Common others b
  unfolding of_some has
  of_some-Common b [] e = cc e
  of_some-Common b (o ∷ others) e = elim (Test-cases (is_ancestor c fuel b o)) [
    | inl f ↦ cc (rw (f, of_some) at e)
    | inr (inl f) ↦ record {
      head = o;
      among = ground (arith, bytes_eq_iff o o);
      reached = is_ancestor-Reaches b o f;
    }
    | inr (inr f) ↦
        let r = of_some-Common b others (rw (f, of_some) at e) in
        record { head = r.head; among = ground (arith, r.among); reached = r.reached }
  ]

  check_level-Common :
      (P : Bytes → Type 0) (level others : List Bytes) {b : Bytes}
      → All P level
      → check_level c fuel level others ≡ some (some b)
      → P b × Common others b
  unfolding check_level
  check_level-Common P [] others h e = cc e
  check_level-Common P (x ∷ level) others {b} (h, t) e =
      elim (Test-cases (of_some c fuel x others)) [
        | inl f ↦ cc (rw (f, check_level) at e)
        | inr (inl f) ↦
            subst (λ (z : Bytes). P z × Common others z)
              (some_inj (some_inj (rw (f, check_level) at e))) (h, of_some-Common x others f)
        | inr (inr f) ↦ check_level-Common P level others t (rw (f, check_level) at e)
      ]

  Reaches-parent :
      (s p q : Bytes) (ps : List Bytes)
      → Reaches c s p
      → parents c p ≡ some ps
      → has q ps ≡ true
      → Reaches c s q
  Reaches-parent _ _ q ps (here s) e h = up s q q ps e h (here q)
  Reaches-parent _ _ q ps (up s u k us f i r) e h = up s u q us f i (Reaches-parent u k q ps r e h)

  All-has :
      (P : Bytes → Type 0) (ps : List Bytes) → ((q : Bytes) → has q ps ≡ true → P q) → All P ps
  unfolding has
  All-has P [] h = tt
  All-has P (p ∷ ps) h =
      (h p (ground (arith, bytes_eq_iff p p)), All-has P ps (λ q i. h q (ground (arith, i))))

  next_level-Reaches :
      (s : Bytes) (level : List Bytes) {next : List Bytes}
      → All (Reaches c s) level
      → next_level c fuel level ≡ some next
      → All (Reaches c s) next
  unfolding next_level
  next_level-Reaches s [] h e = subst (All (Reaches c s)) (some_inj e) tt
  next_level-Reaches s (p ∷ level) (h, t) e = elim (Option-cases (parents c p)) [
    | inl f ↦ cc (rw (f, next_level) at e)
    | inr (ps, f) ↦ elim (Option-cases (next_level c fuel level)) [
      | inl g ↦ cc (rw (f, g, next_level) at e)
      | inr (rest, g) ↦ subst (All (Reaches c s)) (some_inj (rw (f, g, next_level) at e)) (
          All-append (Reaches c s) ps rest
            (All-has (Reaches c s) ps (λ q i. Reaches-parent s p q ps h f i))
            (next_level-Reaches s level t g))
    ]
  ]

  Found-cases :
      (o : Option (Option Bytes))
      → (o ≡ none) ⊎ ((o ≡ some none) ⊎ ((b : Bytes) × (o ≡ some (some b))))
  Found-cases none = inl refl
  Found-cases (some none) = inr (inl refl)
  Found-cases (some (some b)) = inr (inr (b, refl))

  level_loop-Common :
      (s : Bytes) (rounds : ℕ) (level others : List Bytes) {b : Bytes}
      → All (Reaches c s) level
      → level_loop c fuel rounds level others ≡ base b
      → Reaches c s b × Common others b
  unfolding level_loop
  level_loop-Common s rounds [] others h e = cc e
  level_loop-Common s zero (x ∷ level) others h e = cc e
  level_loop-Common s (suc rounds) (x ∷ level) others {b} h e =
      elim (Found-cases (check_level c fuel (x ∷ level) others)) [
        | inl f ↦ cc (rw (f, level_loop) at e)
        | inr (inr (d, f)) ↦
            subst (λ (z : Bytes). Reaches c s z × Common others z)
              (base_inj (rw (f, level_loop) at e))
              (check_level-Common (Reaches c s) (x ∷ level) others h f)
        | inr (inl f) ↦ elim (Option-cases (next_level c fuel (x ∷ level))) [
          | inl g ↦ cc (rw (f, g, level_loop) at e)
          | inr (next, g) ↦
              level_loop-Common s rounds next others (next_level-Reaches s (x ∷ level) h g)
                (rw (f, g, level_loop) at e)
        ]
      ]

  breadth_first-Common :
      (s : Bytes) (rounds : ℕ) (others : List Bytes) {b : Bytes}
      → breadth_first c fuel rounds s others ≡ base b
      → Reaches c s b × Common others b
  unfolding breadth_first
  breadth_first-Common s rounds others e = elim (Option-cases (parents c s)) [
    | inl f ↦ cc (rw (f, breadth_first) at e)
    | inr (level, f) ↦
        level_loop-Common s rounds level others
          (All-has (Reaches c s) level (λ q i. up s q q level f i (here q)))
          (rw (f, breadth_first) at e)
  ]

  -- The commit that `MergeBase` returns is an ancestor of the first commit and of another one.
  -- The zero id is not such a return.
  pub merge_base-Common :
      (rounds : ℕ) (only_ancestor : Bool) (cmt0 : Bytes) (others : List Bytes) {b : Bytes}
      → merge_base c fuel rounds only_ancestor (cmt0 ∷ others) ≡ base b
      → Reaches c cmt0 b × Common others b
  unfolding merge_base has
  merge_base-Common rounds only cmt0 [] e = cc e
  merge_base-Common rounds only cmt0 (cmt1 ∷ (cmt2 ∷ commits)) e =
      breadth_first-Common cmt0 rounds (cmt1 ∷ (cmt2 ∷ commits)) e
  merge_base-Common rounds only cmt0 (cmt1 ∷ []) {b} e =
      elim (Test-cases (is_ancestor c fuel cmt0 cmt1)) [
        | inl f ↦ cc (rw (f, merge_base) at e)
        | inr (inl f) ↦
            subst (λ (z : Bytes). Reaches c cmt0 z × Common (cmt1 ∷ []) z)
              (base_inj (rw (f, merge_base) at e))
              (
                here cmt0,
                record {
                  head = cmt1;
                  among = ground (arith, bytes_eq_iff cmt1 cmt1);
                  reached = is_ancestor-Reaches cmt0 cmt1 f;
                },
              )
        | inr (inr f) ↦ elim (Bool-cases only) [
          | inl o ↦ cc (rw (f, o, merge_base) at e)
          | inr o ↦ elim (Test-cases (is_ancestor c fuel cmt1 cmt0)) [
            | inl g ↦ cc (rw (f, o, g, merge_base) at e)
            | inr (inl g) ↦
                subst (λ (z : Bytes). Reaches c cmt0 z × Common (cmt1 ∷ []) z)
                  (base_inj (rw (f, o, g, merge_base) at e))
                  (
                    is_ancestor-Reaches cmt1 cmt0 g,
                    record {
                      head = cmt1;
                      among = ground (arith, bytes_eq_iff cmt1 cmt1);
                      reached = here cmt1;
                    },
                  )
            | inr (inr g) ↦
                breadth_first-Common cmt0 rounds (cmt1 ∷ []) (rw (f, o, g, merge_base) at e)
          ]
        ]
      ]
