-- ===== src/Config/HeaderTrip.antt =====
-- git/config.go: `ParseSectionHeader` on what `WriteFile` writes between the brackets.
use dgit.Prelude.{
  ℕ, suc, ◌+◌, ◌-◌, ◌≡◌, sym, ap, ◌∙◌, inl, inr, true, false, [], ◌∷◌, ◌++◌, append_assoc,
  append-nil, All-append, Bytes, codes, bytes_eq, bytes_eq_iff, ◌==◌, length, length-append, take,
  drop, take-append, drop-append, Bool-cases, if◌then◌else◌, arith,
}
use dgit.Config.{Section, trim_space}
use dgit.Config.Parse.{
  slice, Header, header_step, header_loop, section_of, parse_section_header, title,
}
use dgit.Config.Trim.{IsTrimmed, Lacks, trim_space-name, trim_space-trimmed}

-- The bytes between two positions that are given by what stands before them.
pub slice_between :
    (pre mid post : Bytes) (a b : ℕ)
    → a ≡ length pre
    → b ≡ length pre + length mid
    → slice a b (pre ++ (mid ++ post)) ≡ mid
unfolding slice
slice_between pre mid post a b e f =
    let n : b - a ≡ length mid = omega (arith, e, f) in
    ap (λ k. take k (drop a (pre ++ (mid ++ post)))) n
    ∙ ap (λ k. take (length mid) (drop k (pre ++ (mid ++ post)))) e
    ∙ ap (take (length mid)) (drop-append pre (mid ++ post))
    ∙ take-append mid post

header_skip :
    (line : Bytes) (idx : ℕ) (bs rest : Bytes) (h : Header)
    → Lacks b'"' bs
    → header_loop line idx (bs ++ rest) h ≡ header_loop line (idx + length bs) rest h
unfolding header_loop header_step
header_skip line idx [] rest h none_there =
    let e : idx ≡ idx + 0 = omega arith in ap (λ n. header_loop line n rest h) e
header_skip line idx (b ∷ bs) rest h none_there =
    let e : suc idx + length bs ≡ idx + suc (length bs) = omega arith in
    ap (header_loop line (suc idx) (bs ++ rest)) (ground arith)
    ∙ header_skip line (suc idx) bs rest h none_there.1
    ∙ ap (λ n. header_loop line n rest h) e

abbrev start : Bytes → Header
start line = record {
  name = line;
  subsection = [];
  parsing_subsection = false;
  subsection_start = 0;
}

header_name :
    (name : Bytes)
    → Lacks b'"' name
    → parse_section_header name ≡ record { name = name; subsection = []; values = [] }
unfolding parse_section_header section_of header_loop
header_name name h = ap (section_of name) (
    ap (λ t. header_loop name 0 t (start name)) (sym (append-nil name))
    ∙ header_skip name 0 name [] (start name) h)

quoted : Bytes → Bytes → Bytes
quoted name sub = name ++ (codes " \"" ++ (sub ++ codes "\""))

first_quote :
    (line : Bytes) (idx : ℕ) (name : Bytes)
    → trim_space (take idx line) ≡ name
    → header_step line idx b'"' (start line) ≡ record {
      name = name;
      subsection = [];
      parsing_subsection = true;
      subsection_start = suc idx;
    }
unfolding header_step
first_quote line idx name e = λ i. record {
  name = e i;
  subsection = [];
  parsing_subsection = true;
  subsection_start = suc idx;
}

second_quote :
    (line : Bytes) (idx n : ℕ) (name sub : Bytes)
    → trim_space (slice n idx line) ≡ sub
    → header_step line idx b'"'
        (record { name = name; subsection = []; parsing_subsection = true; subsection_start = n })
      ≡ record { name = name; subsection = sub; parsing_subsection = true; subsection_start = n }
unfolding header_step
second_quote line idx n name sub e =
    λ i. record { name = name; subsection = e i; parsing_subsection = true; subsection_start = n }

section_named :
    (line : Bytes) (h : Header)
    → (h.subsection_start == 0) ≡ false
    → section_of line h ≡ record { name = h.name; subsection = h.subsection; values = [] }
unfolding section_of
section_named line h e =
    λ i. record { name = (if e i then line else h.name); subsection = h.subsection; values = [] }

header_quoted :
    (name sub : Bytes)
    → IsTrimmed name
    → IsTrimmed sub
    → Lacks b'"' name
    → Lacks b'"' sub
    → parse_section_header (quoted name sub) ≡ record { name = name; subsection = sub; values = [] }
unfolding parse_section_header header_loop quoted
header_quoted name sub tn ts hn hs =
    ap (section_of line) whole
    ∙ section_named line
        (record {
          name = name;
          subsection = sub;
          parsing_subsection = true;
          subsection_start = suc n;
        })
        (ground arith)
  where
    line : Bytes
    line = quoted name sub

    n : ℕ
    n = length name + 1

    before :
        name ++ (b' ' ∷ (b'"' ∷ (sub ++ (b'"' ∷ []))))
        ≡ (name ++ (b' ' ∷ [])) ++ (b'"' ∷ (sub ++ (b'"' ∷ [])))
    before = sym (append_assoc name (b' ' ∷ []) _)

    len : 0 + length (name ++ (b' ' ∷ [])) ≡ n
    len = omega (arith, length-append name (b' ' ∷ []))

    cut : take n line ≡ name ++ (b' ' ∷ [])
    cut =
        ap (λ k. take k line) (let e : n ≡ length (name ++ (b' ' ∷ [])) = omega (arith, len) in e)
        ∙ ap (take (length (name ++ (b' ' ∷ [])))) before
        ∙ take-append (name ++ (b' ' ∷ [])) (b'"' ∷ (sub ++ (b'"' ∷ [])))

    opened : Header
    opened = record {
      name = name;
      subsection = [];
      parsing_subsection = true;
      subsection_start = suc n;
    }

    inside : slice (suc n) (suc n + length sub) line ≡ sub
    inside =
        ap (slice (suc n) (suc n + length sub)) (sym (append_assoc name (codes " \"") _))
        ∙ slice_between (name ++ codes " \"") sub (b'"' ∷ []) (suc n) (suc n + length sub)
            (omega (arith, length-append name (codes " \"")))
            (omega (arith, length-append name (codes " \"")))

    whole : header_loop line 0 line (start line) ≡ record {
      name = name;
      subsection = sub;
      parsing_subsection = true;
      subsection_start = suc n;
    }
    whole =
        ap (λ t. header_loop line 0 t (start line)) before
        ∙ header_skip line 0 (name ++ (b' ' ∷ [])) (b'"' ∷ (sub ++ (b'"' ∷ []))) (start line)
            (All-append _ name (b' ' ∷ []) hn (omega arith, tt))
        ∙ ap (λ k. header_loop line k (b'"' ∷ (sub ++ (b'"' ∷ []))) (start line)) len
        ∙ ap (header_loop line (suc n) (sub ++ (b'"' ∷ [])))
            (first_quote line n name (ap trim_space cut ∙ trim_space-name name tn))
        ∙ header_skip line (suc n) sub (b'"' ∷ []) opened hs
        ∙ second_quote line (suc n + length sub) (suc n) name sub
            (ap trim_space inside ∙ trim_space-trimmed sub ts)

pub record IsPlainHeader (s : Section) : Type 0 where
  pub name_trimmed : IsTrimmed s.name
  pub subsection_trimmed : IsTrimmed s.subsection
  pub name_quote : Lacks b'"' s.name
  pub subsection_quote : Lacks b'"' s.subsection
  pub name_closing : Lacks b']' s.name
  pub subsection_closing : Lacks b']' s.subsection

pub parse_section_header-title :
    (s : Section) → IsPlainHeader s → parse_section_header (title s) ≡ record s { values = [] }
unfolding title
parse_section_header-title s h = elim (Bool-cases (bytes_eq s.subsection [])) [
  | inl y ↦ rw y (
      header_name s.name h.name_quote ∙ λ i. record {
        name = s.name;
        subsection = sym ((bytes_eq_iff s.subsection []).0 y) i;
        values = [];
      })
  | inr n ↦ rw n (
      unfold quoted in
      header_quoted s.name s.subsection h.name_trimmed h.subsection_trimmed h.name_quote
        h.subsection_quote)
]

pub title_closing : (s : Section) → IsPlainHeader s → Lacks b']' (title s)
unfolding title
title_closing s h = elim (Bool-cases (bytes_eq s.subsection [])) [
  | inl y ↦ rw y h.name_closing
  | inr n ↦ rw n (
      All-append _ s.name _ h.name_closing (
        omega arith,
        (omega arith, All-append _ s.subsection _ h.subsection_closing (omega arith, tt)),
      ))
]
