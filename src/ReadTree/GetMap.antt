-- ===== src/ReadTree/GetMap.antt =====
-- `Index.GetMap`: a map of the objects by path.
use dgit.Prelude.{
  ◌≡◌, refl, sym, subst, ◌∙◌, false, List, [], ◌∷◌, Bytes, if◌then◌else◌, bytes_eq, bytes_eq_iff,
  Bool-cases, inl, inr, Option, none, some, Option-cases, arith,
}
use dgit.Index.Entry.{IndexEntry}
use dgit.Index.StageMap.{or_else, or_else-none}
use dgit.ReadTree.Maps.{IndexMap, get, put, put_all, get_map, IsMap}

-- The last object of a path.
unfoldable pub last_at : Bytes → List IndexEntry → Option IndexEntry
last_at path [] = none
last_at path (e ∷ es) = elim (last_at path es) [
  | some x ↦ some x
  | none ↦ if bytes_eq e.path_name path then some e else none
]

get-put : (new : IndexEntry) (m : IndexMap) → get new.path_name (put new m) ≡ some new
unfolding get put
get-put new [] = rw ((bytes_eq_iff new.path_name new.path_name).1 refl)
get-put new (e ∷ m) = elim (Bool-cases (bytes_eq e.path_name new.path_name)) [
  | inl y ↦ rw (y, (bytes_eq_iff new.path_name new.path_name).1 refl) refl
  | inr n ↦ rw n (rw n (get-put new m))
]

get-put_other :
    (path : Bytes) (new : IndexEntry) (m : IndexMap)
    → bytes_eq new.path_name path ≡ false
    → get path (put new m) ≡ get path m
unfolding get put
get-put_other path new [] h = rw h
get-put_other path new (e ∷ m) h = elim (Bool-cases (bytes_eq e.path_name new.path_name)) [
  | inl y ↦
      let k : bytes_eq e.path_name path ≡ false =
        rw (sym ((bytes_eq_iff e.path_name new.path_name).0 y)) at h in
      rw y (rw (h, k) refl)
  | inr n ↦ elim (Bool-cases (bytes_eq e.path_name path)) [
    | inl y ↦ rw n (rw y refl)
    | inr z ↦ rw n (rw z (get-put_other path new m h))
  ]
]

apart :
    (e new : IndexEntry)
    → bytes_eq e.path_name new.path_name ≡ false
    → bytes_eq new.path_name e.path_name ≡ false
apart e new n =
    ground (arith, bytes_eq_iff e.path_name new.path_name, bytes_eq_iff new.path_name e.path_name)

put-IsMap : (new : IndexEntry) (m : IndexMap) → IsMap m → IsMap (put new m)
unfolding get put
put-IsMap new [] h = (refl, tt)
put-IsMap new (e ∷ m) (fresh, h) = elim (Bool-cases (bytes_eq e.path_name new.path_name)) [
  | inl y ↦ rw y (rw ((bytes_eq_iff e.path_name new.path_name).0 y) at fresh, h)
  | inr n ↦ rw n (get-put_other e.path_name new m (apart e new n) ∙ fresh, put-IsMap new m h)
]

put_all-IsMap : (m : IndexMap) (es : List IndexEntry) → IsMap m → IsMap (put_all m es)
unfolding put_all
put_all-IsMap m [] h = h
put_all-IsMap m (e ∷ es) h = put_all-IsMap (put e m) es (put-IsMap e m h)

get-put_all :
    (path : Bytes) (es : List IndexEntry) (m : IndexMap)
    → get path (put_all m es) ≡ or_else (last_at path es) (get path m)
unfolding put_all last_at or_else
get-put_all path [] m = refl
get-put_all path (e ∷ es) m = elim (Option-cases (last_at path es)) [
  | inr (x, later) ↦ get-put_all path es (put e m) ∙ rw later refl
  | inl last ↦ elim (Bool-cases (bytes_eq e.path_name path)) [
    | inl y ↦
        get-put_all path es (put e m)
        ∙ rw last (
            rw y (
              subst (λ (p : Bytes). get p (put e m) ≡ some e) ((bytes_eq_iff e.path_name path).0 y)
                (get-put e m)))
    | inr n ↦ get-put_all path es (put e m) ∙ rw last (rw n (get-put_other path e m n))
  ]
]

-- In the map of an index no path stands twice, and at a path it has the last object of that path.
pub get_map-IsMap :
    (objects : List IndexEntry)
    → IsMap (get_map objects) × ((path : Bytes) → get path (get_map objects) ≡ last_at path objects)
unfolding get_map get or_else
get_map-IsMap objects = (
  put_all-IsMap [] objects tt,
  λ path. get-put_all path objects [] ∙ or_else-none (last_at path objects),
)
