-- ===== src/Index/Order.antt =====
-- `ByPath.Less` is a strict order of the entries by path and stage, total on different keys.
use dgit.Prelude.{
  ◌<◌, ◌≡◌, ◌≢◌, inl, inr, refl, sym, ◌∙◌, true, false, [], ◌∷◌, Bytes, bytes_eq, bytes_eq_iff,
  Bool-cases, arith,
}
use dgit.Index.Entry.{IndexEntry, stage, less_bytes, less}

less_bytes_trans :
    (p q r : Bytes) → less_bytes p q ≡ true → less_bytes q r ≡ true → less_bytes p r ≡ true
unfolding less_bytes
less_bytes_trans [] q r h k = refl
less_bytes_trans (x ∷ p) [] r h k = cc
less_bytes_trans (x ∷ p) (y ∷ q) [] h k = cc
less_bytes_trans (x ∷ p) (y ∷ q) (z ∷ r) h k = ground (arith, less_bytes_trans p q r)

less_bytes_antisymm : (p q : Bytes) → less_bytes p q ≡ true → less_bytes q p ≡ true → p ≡ q
unfolding less_bytes
less_bytes_antisymm [] [] h k = refl
less_bytes_antisymm [] (y ∷ q) h k = cc
less_bytes_antisymm (x ∷ p) [] h k = cc
less_bytes_antisymm (x ∷ p) (y ∷ q) h k = ground (arith, less_bytes_antisymm p q)

less_bytes-total : (p q : Bytes) → less_bytes p q ≡ false → less_bytes q p ≡ true
unfolding less_bytes
less_bytes-total [] q h = cc
less_bytes-total (x ∷ p) [] h = refl
less_bytes-total (x ∷ p) (y ∷ q) h = ground (arith, less_bytes-total p q)

-- The two entries have one path and one stage.
abbrev pub SameKey : IndexEntry → IndexEntry → Type 0
SameKey a b = (a.path_name ≡ b.path_name) × (stage a ≡ stage b)

bytes_eq_ne : (p q : Bytes) → p ≢ q → bytes_eq p q ≡ false
bytes_eq_ne p q h = elim (Bool-cases (bytes_eq p q)) [
  | inl e ↦ absurd (h ((bytes_eq_iff p q).0 e))
  | inr e ↦ e
]

-- An entry comes before another by its path, or at one path by its stage.
record Before (a b : IndexEntry) : Type 0 where
  paths : less_bytes a.path_name b.path_name ≡ true
  stages : a.path_name ≡ b.path_name → stage a < stage b

less_bytes_refl : (p : Bytes) → less_bytes p p ≡ true
unfolding less_bytes
less_bytes_refl [] = refl
less_bytes_refl (x ∷ p) = ground (arith, less_bytes_refl p)

less→Before : (a b : IndexEntry) → less a b ≡ true → Before a b
unfolding less
less→Before a b h = elim (Bool-cases (bytes_eq a.path_name b.path_name)) [
  | inl e ↦ record {
    paths = rw ((bytes_eq_iff a.path_name b.path_name).0 e) (less_bytes_refl b.path_name);
    stages = λ _. ground arith;
  }
  | inr e ↦ record {
    paths = ground arith;
    stages = λ p. ground (arith, bytes_eq_iff a.path_name b.path_name);
  }
]

Before→less : (a b : IndexEntry) → Before a b → less a b ≡ true
unfolding less
Before→less a b h = ground (arith, h.paths, h.stages, bytes_eq_iff a.path_name b.path_name)

-- The order of the entries is transitive.
pub less_trans : (a b c : IndexEntry) → less a b ≡ true → less b c ≡ true → less a c ≡ true
less_trans a b c h k =
    let u = less→Before a b h in
    let v = less→Before b c k in
    Before→less a c (record {
      paths = less_bytes_trans a.path_name b.path_name c.path_name u.paths v.paths;
      stages = λ e.
          let q : less_bytes b.path_name a.path_name ≡ true = rw e v.paths in
          let ab = less_bytes_antisymm a.path_name b.path_name u.paths q in
          omega (arith, u.stages ab, v.stages (sym ab ∙ e));
    })

pub less_irrefl : (a : IndexEntry) → less a a ≡ false
less_irrefl a = elim (Bool-cases (less a a)) [
  | inl h ↦ absurd (omega (arith, (less→Before a a h).stages refl))
  | inr h ↦ h
]

-- Of two entries with different keys one comes first.
pub less_total : (a b : IndexEntry) → ¬ SameKey a b → less a b ≡ false → less b a ≡ true
unfolding less
less_total a b ne h = ground (
  arith,
  bytes_eq_iff a.path_name b.path_name,
  bytes_eq_iff b.path_name a.path_name,
  less_bytes-total a.path_name b.path_name,
)
