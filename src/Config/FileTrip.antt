-- ===== src/Config/FileTrip.antt =====
-- git/config.go: `ParseConfig` on the files that `WriteFile` writes.
use dgit.Prelude.{
  ℕ, suc, ◌+◌, ◌≡◌, refl, sym, ap, ◌∙◌, List, [], ◌∷◌, ◌++◌, append_assoc, append-nil, All-append,
  Bytes, length, length-append, none, some, arith,
}
use dgit.Config.{Values, Section}
use dgit.Config.Parse.{
  slice, parse_values, find_position, config_loop, no_parser, sections_of, parse_config,
  write_values, title, write_file,
}
use dgit.Config.Trim.{Lacks}
use dgit.Config.ValuesTrip.{
  ArePlainValues, parse_values-write_values, front, front_newline, parse_values-front,
}
use dgit.Config.HeaderTrip.{slice_between, IsPlainHeader, title_closing}
use dgit.Config.FileSteps.{
  naming, reading, loop_next, skip_name, skip_values, first_step, closing_step, opening_step,
  last_step, one_more,
}

-- Each section is plain, and is new to the ones before it.
abbrev pub AreWritable : List Section → List Section → Type 0
AreWritable done [] = Unit {0}
AreWritable done (s ∷ g) =
    IsPlainHeader s
    × ArePlainValues [] s.values
    × (find_position s done ≡ none)
    × AreWritable (done ++ (s ∷ [])) g

module _ (raw pre : Bytes) (done : List Section) (s : Section) (opening closing : ℕ) where
  through_title :
      (d : ℕ) (rest : Bytes)
      → suc opening ≡ length pre
      → raw ≡ pre ++ (title s ++ (b']' ∷ (d ∷ rest)))
      → IsPlainHeader s
      → find_position s done ≡ none
      → config_loop raw (length pre) (title s ++ (b']' ∷ (d ∷ rest))) (naming done opening closing)
        ≡ config_loop raw
            (length ((pre ++ title s) ++ (b']' ∷ [])))
            (d ∷ rest)
            (reading done s opening (length (pre ++ title s)))
  through_title d rest n e plain fresh =
      skip_name raw (title s) pre (b']' ∷ (d ∷ rest)) (naming done opening closing) refl refl
        (title_closing s plain)
      ∙ loop_next raw (pre ++ title s) (d ∷ rest) b']' (naming done opening closing) _ (
          closing_step raw (length (pre ++ title s)) opening closing done s
            (ap (slice (suc opening) (length (pre ++ title s))) e
              ∙ slice_between pre (title s) _ (suc opening) (length (pre ++ title s)) n
                  (length-append pre (title s)))
            plain fresh (omega (arith, size, length-append pre (title s))))
    where
      size : length raw ≡ length pre + (length (title s) + suc (suc (length rest)))
      size = omega (
        arith,
        ap length e,
        length-append pre (title s ++ (b']' ∷ (d ∷ rest))),
        length-append (title s) (b']' ∷ (d ∷ rest)),
      )

  module _ (body : Bytes) (h : Lacks b'[' body) (v : parse_values body ≡ s.values)
      (n : suc closing ≡ length pre) where
    between :
        (rest : Bytes)
        → raw ≡ pre ++ (body ++ rest)
        → parse_values (slice (suc closing) (length (pre ++ body)) raw) ≡ s.values
    between rest e =
        ap parse_values (
          ap (slice (suc closing) (length (pre ++ body))) e
          ∙ slice_between pre body rest (suc closing) (length (pre ++ body)) n
              (length-append pre body))
        ∙ v

    size_with :
        (c : ℕ) (rest : Bytes)
        → raw ≡ pre ++ (body ++ (c ∷ rest))
        → length raw ≡ length (pre ++ body) + suc (length rest)
    size_with c rest e = omega (
      arith,
      ap length e,
      length-append pre (body ++ (c ∷ rest)),
      length-append body (c ∷ rest),
      length-append pre body,
    )

    through_values :
        (rest : Bytes)
        → raw ≡ pre ++ (body ++ (b'[' ∷ rest))
        → config_loop raw (length pre) (body ++ (b'[' ∷ rest)) (reading done s opening closing)
          ≡ config_loop raw
              (length ((pre ++ body) ++ (b'[' ∷ [])))
              rest
              (naming (done ++ (s ∷ [])) (length (pre ++ body)) closing)
    through_values rest e =
        skip_values raw body pre (b'[' ∷ rest) (reading done s opening closing) refl h
          (omega (arith, size_with b'[' rest e, length-append pre body))
        ∙ loop_next raw (pre ++ body) rest b'[' (reading done s opening closing) _ (
            opening_step raw (length (pre ++ body)) opening closing done s
              (between (b'[' ∷ rest) e))

    through_last :
        raw ≡ pre ++ (body ++ (b'\n' ∷ []))
        → sections_of
            (config_loop raw (length pre) (body ++ (b'\n' ∷ [])) (reading done s opening closing))
          ≡ some (done ++ (s ∷ []))
    through_last e =
        ap sections_of (
          skip_values raw body pre (b'\n' ∷ []) (reading done s opening closing) refl h
            (omega (arith, size_with b'\n' [] e, length-append pre body)))
        ∙ one_more raw (b'\n') (reading done s opening closing) (length (pre ++ body))
        ∙ last_step raw (length (pre ++ body)) opening closing done s (between (b'\n' ∷ []) e)
            (omega (arith, size_with b'\n' [] e)) (omega (arith, n, length-append pre body))

values_bracket : (m done : Values) → ArePlainValues done m → Lacks b'[' (write_values m)
unfolding write_values
values_bracket [] done h = tt
values_bracket ((k, v) ∷ m) done (plain, fresh, h) = (
  omega arith,
  All-append _ k _ plain.key_bracket (
    omega arith,
    (
      omega arith,
      (
        omega arith,
        All-append _ v _ plain.value_bracket
            (omega arith, values_bracket m (done ++ ((k, v) ∷ [])) h),
      ),
    ),
  ),
)

front_bracket : (m done : Values) → ArePlainValues done m → Lacks b'[' (front m)
front_bracket [] done h = tt
front_bracket ((k, v) ∷ m) done (plain, fresh, h) = (
  omega arith,
  (
    omega arith,
    All-append _ k _ plain.key_bracket (
      omega arith,
      (
        omega arith,
        (
          omega arith,
          All-append _ v _ plain.value_bracket (front_bracket m (done ++ ((k, v) ∷ [])) h),
        ),
      ),
    ),
  ),
)

abbrev body_of : Section → Bytes
body_of s = b'\n' ∷ write_values s.values

sections_read :
    (raw pre : Bytes) (done : List Section) (s : Section) (g : List Section) (opening closing : ℕ)
    → suc closing ≡ length pre
    → raw ≡ pre ++ (body_of s ++ write_file g)
    → ArePlainValues [] s.values
    → AreWritable (done ++ (s ∷ [])) g
    → sections_of
        (config_loop raw (length pre) (body_of s ++ write_file g) (reading done s opening closing))
      ≡ some (done ++ (s ∷ g))
unfolding write_file
sections_read raw pre done s [] opening closing n e values h =
    ap (λ t. sections_of (config_loop raw (length pre) t (reading done s opening closing))) ends
    ∙ through_last raw pre done s opening closing (front s.values)
        (front_bracket s.values [] values) (parse_values-front s.values values) n
        (e ∙ ap (◌++◌ pre) ends)
  where
    ends : body_of s ++ [] ≡ front s.values ++ (b'\n' ∷ [])
    ends = append-nil (body_of s) ∙ front_newline s.values
sections_read raw pre done s (t ∷ g) opening closing n e values (plain, more, fresh, h) =
    ap sections_of (
      through_values raw pre done s opening closing (body_of s)
        (omega arith, values_bracket s.values [] values) (parse_values-write_values s.values values)
        n _ e
      ∙ through_title raw pre2 (done ++ (s ∷ [])) t (length (pre ++ body_of s)) closing b'\n'
          (write_values t.values ++ write_file g) len2 e2 plain fresh)
    ∙ sections_read raw pre3 (done ++ (s ∷ [])) t g (length (pre ++ body_of s))
        (length (pre2 ++ title t)) len3 e3 more h
    ∙ ap some (append_assoc done (s ∷ []) (t ∷ g))
  where
    pre2 : Bytes
    pre2 = (pre ++ body_of s) ++ (b'[' ∷ [])

    pre3 : Bytes
    pre3 = (pre2 ++ title t) ++ (b']' ∷ [])

    len2 : suc (length (pre ++ body_of s)) ≡ length pre2
    len2 = omega (arith, length-append (pre ++ body_of s) (b'[' ∷ []))

    len3 : suc (length (pre2 ++ title t)) ≡ length pre3
    len3 = omega (arith, length-append (pre2 ++ title t) (b']' ∷ []))

    e2 : raw ≡ pre2 ++ (title t ++ (b']' ∷ (body_of t ++ write_file g)))
    e2 =
        e
        ∙ sym (append_assoc pre (body_of s) _)
        ∙ sym (append_assoc (pre ++ body_of s) (b'[' ∷ []) _)

    e3 : raw ≡ pre3 ++ (body_of t ++ write_file g)
    e3 =
        e2
        ∙ sym (append_assoc pre2 (title t) _)
        ∙ sym (append_assoc (pre2 ++ title t) (b']' ∷ []) _)

-- What `WriteFile` writes, `ParseConfig` reads back as the same sections in the same order, for
-- any order of their values, if no section has the name and subsection of one before it, no key
-- stands twice in a section, names, subsections, keys and values have no white space on either
-- side, names and subsections have no quote and no closing bracket, keys and values no opening
-- bracket and no newline, and keys no `=`.
pub parse_config-write_file :
    (g : List Section) → AreWritable [] g → parse_config (write_file g) ≡ some g
unfolding parse_config write_file
parse_config-write_file [] h = unfold config_loop sections_of in refl
parse_config-write_file (s ∷ g) (plain, values, fresh, h) =
    ap sections_of (
      loop_next raw [] (title s ++ (b']' ∷ (body_of s ++ write_file g))) b'[' no_parser
        (naming [] 0 0) (first_step raw)
      ∙ through_title raw (b'[' ∷ []) [] s 0 0 b'\n' (write_values s.values ++ write_file g) refl
          refl plain fresh)
    ∙ sections_read raw pre [] s g 0 (length ((b'[' ∷ []) ++ title s)) len
        (sym (append_assoc ((b'[' ∷ []) ++ title s) (b']' ∷ []) _)) values h
  where
    raw : Bytes
    raw = write_file (s ∷ g)

    pre : Bytes
    pre = ((b'[' ∷ []) ++ title s) ++ (b']' ∷ [])

    len : suc (length ((b'[' ∷ []) ++ title s)) ≡ length pre
    len = omega (arith, length-append ((b'[' ∷ []) ++ title s) (b']' ∷ []))
