-- ===== src/Index/Decoding.antt =====
-- The fields of an index entry, and its name, read back from what is written.
use dgit.Prelude.{
  ℕ, zero, suc, ◌+◌, ◌^◌, ◌≤◌, ◌<◌, min, ◌≡◌, ◌≢◌, inl, inr, refl, sym, ap, ◌∙◌, subst, Bool, true,
  false, ◌&&◌, [], ◌∷◌, ◌++◌, append_assoc, append-nil, Bytes, ltb, leb, ◌==◌, ==_iff,
  if◌then◌else◌, bit_and, length, length-append, take, drop, take-append, drop-append, Bool-cases,
  none, some, All, arith, be16, number, number-be16, number-be32, number-be64,
}
use dgit.Index.Entry.{IndexEntry, extended_flag}
use dgit.Index.Format.{
  zeros, fixed_bytes, padding, name_bytes, advance, entry_read, decode_fixed, read_long_name,
  read_short,
}

pub take_exact : (n : ℕ) (xs ys : Bytes) → length xs ≡ n → take n (xs ++ ys) ≡ xs
take_exact n xs ys e = subst (λ (t : ℕ). take t (xs ++ ys) ≡ xs) e (take-append xs ys)

pub drop_exact : (n : ℕ) (xs ys : Bytes) → length xs ≡ n → drop n (xs ++ ys) ≡ ys
drop_exact n xs ys e = subst (λ (t : ℕ). drop t (xs ++ ys) ≡ ys) e (drop-append xs ys)

pub length-zeros : (n : ℕ) → length (zeros n) ≡ n
unfolding zeros
length-zeros zero = refl
length-zeros (suc n) = omega (arith, length-zeros n)

-- The fields fit their types, and the low bits of the flags have the length of the name.
pub record Fits (e : IndexEntry) : Type 0 where
  pub ctime : e.ctime < 2 ^ 32
  pub ctimenano : e.ctimenano < 2 ^ 32
  pub mtime : e.mtime < 2 ^ 63
  pub dev : e.dev < 2 ^ 32
  pub ino : e.ino < 2 ^ 32
  pub mode : e.mode < 2 ^ 32
  pub uid : e.uid < 2 ^ 32
  pub gid : e.gid < 2 ^ 32
  pub fsize : e.fsize < 2 ^ 32
  pub sha1 : length e.sha1 ≡ 20
  pub flags : e.flags < 2 ^ 16
  pub name_length : bit_and e.flags 0xfff ≡ min (length e.path_name) 0xfff
  pub no_nul : 0xfff ≤ length e.path_name → All (λ b. b ≢ 0) e.path_name

pub length-fixed_bytes : (e : IndexEntry) → Fits e → length (fixed_bytes e) ≡ 62
unfolding fixed_bytes
length-fixed_bytes e h = omega (arith, length-append e.sha1 (be16 e.flags), h.sha1)

pub decode_fixed-fixed_bytes :
    (e : IndexEntry) (rest : Bytes)
    → Fits e
    → decode_fixed (fixed_bytes e ++ rest) ≡ record e { extensions = none; path_name = [] }
unfolding decode_fixed fixed_bytes
decode_fixed-fixed_bytes e rest h = λ i. record {
  ctime = number-be32 e.ctime [] h.ctime i;
  ctimenano = number-be32 e.ctimenano [] h.ctimenano i;
  mtime = number-be64 e.mtime [] (omega (arith, h.mtime)) i;
  dev = number-be32 e.dev [] h.dev i;
  ino = number-be32 e.ino [] h.ino i;
  mode = number-be32 e.mode [] h.mode i;
  uid = number-be32 e.uid [] h.uid i;
  gid = number-be32 e.gid [] h.gid i;
  fsize = number-be32 e.fsize [] h.fsize i;
  sha1 = id i;
  flags = flag_bits i;
  extensions = none;
  path_name = [];
}
  where
    id : take 20 ((e.sha1 ++ be16 e.flags) ++ rest) ≡ e.sha1
    id =
        ap (take 20) (append_assoc e.sha1 (be16 e.flags) rest)
        ∙ take_exact 20 e.sha1 (be16 e.flags ++ rest) h.sha1

    flag_bits : number 2 (drop 20 ((e.sha1 ++ be16 e.flags) ++ rest)) ≡ e.flags
    flag_bits =
        ap (λ t. number 2 (drop 20 t)) (append_assoc e.sha1 (be16 e.flags) rest)
        ∙ ap (number 2) (drop_exact 20 e.sha1 (be16 e.flags ++ rest) h.sha1)
        ∙ number-be16 e.flags rest h.flags

-- How many bytes a reader skips too many: where one NUL alone ends a long name.
unfoldable pub skipped : Bool → ℕ → ℕ
skipped extended name_length =
    if leb 0xfff name_length && padding extended name_length == 1 then 8 else 0

abbrev pub entry_skipped : IndexEntry → ℕ
entry_skipped e = skipped (extended_flag e.flags) (length e.path_name)

pub padding_bounds : (extended : Bool) (n : ℕ) → (0 < padding extended n) × (padding extended n ≤ 8)
unfolding padding
padding_bounds true n = (omega arith, omega arith)
padding_bounds false n = (omega arith, omega arith)

pub advance_over :
    (k n : ℕ) (xs ys : Bytes)
    → length xs ≡ n
    → advance n (record { consumed = k; rest = xs ++ ys }) ≡ record { consumed = k + n; rest = ys }
unfolding advance
advance_over k n xs ys e =
    ap (λ (t : Bytes). record { consumed = k + n; rest = t }) (drop_exact n xs ys e)

-- The name is read up to its NUL.
pub read_long_name-name :
    (initial : Bool) (name path rest : Bytes)
    → All (λ b. b ≢ 0) path
    → read_long_name initial name (path ++ (0 ∷ rest)) ≡ some (name ++ path, rest)
unfolding read_long_name
read_long_name-name initial name [] rest h = ap (λ t. some (t, rest)) (sym (append-nil name))
read_long_name-name initial name (b ∷ path) rest (n, h) = elim (Bool-cases (b == 0)) [
  | inl y ↦ absurd (n ((==_iff b 0).0 y))
  | inr m ↦
      rw (m, read_long_name)
        (read_long_name-name false (name ++ (b ∷ [])) path rest h
          ∙ ap (λ t. some (t, rest)) (append_assoc name (b ∷ []) path))
]

-- The position at the name, in a file with a header of 12 bytes and entries padded to 8.
abbrev pub name_position : Bool → ℕ
name_position extended = if extended then 4 else 2

pub short_name :
    (f e : IndexEntry) (k : ℕ) (rest : Bytes)
    → f.flags ≡ e.flags
    → read_short f (length e.path_name) (record { consumed = k; rest = name_bytes e ++ rest })
      ≡ entry_read
          (record f { path_name = e.path_name })
          (record { consumed = k + length (name_bytes e); rest = rest })
unfolding read_short name_bytes
short_name f e k rest same =
    rw (long_enough, read_short) (λ i. entry_read (record f { path_name = taken i }) (positioned i))
  where
    n : ℕ
    n = length e.path_name

    p : ℕ
    p = padding (extended_flag e.flags) (length e.path_name)

    split : (e.path_name ++ zeros p) ++ rest ≡ e.path_name ++ (zeros p ++ rest)
    split = append_assoc e.path_name (zeros p) rest

    long_enough : ltb (length ((e.path_name ++ zeros p) ++ rest)) n ≡ false
    long_enough =
        ground
          (arith, length-append (e.path_name ++ zeros p) rest, length-append e.path_name (zeros p))

    taken : take n ((e.path_name ++ zeros p) ++ rest) ≡ e.path_name
    taken = ap (take n) split ∙ take-append e.path_name (zeros p ++ rest)

    positioned :
        advance
          (padding (extended_flag f.flags) n)
          (advance n (record { consumed = k; rest = (e.path_name ++ zeros p) ++ rest }))
        ≡ record { consumed = k + length (e.path_name ++ zeros p); rest = rest }
    positioned =
        ap
          (λ t.
            advance (padding (extended_flag t) n)
              (advance n (record { consumed = k; rest = (e.path_name ++ zeros p) ++ rest })))
          same
        ∙ ap (λ (t : Bytes). advance p (advance n (record { consumed = k; rest = t }))) split
        ∙ ap (advance p) (advance_over k n e.path_name (zeros p ++ rest) refl)
        ∙ advance_over (k + n) p (zeros p) rest (length-zeros p)
        ∙ ap (λ t. record { consumed = t; rest = rest })
            (omega (arith, length-append e.path_name (zeros p), length-zeros p))
