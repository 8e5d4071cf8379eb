-- ===== src/Config/FileSteps.antt =====
-- git/config.go: the steps of the loop of `ParseConfig`.
use dgit.Prelude.{
  ℕ, suc, ◌+◌, ◌-◌, ◌<◌, ◌≡◌, ◌≢◌, refl, sym, ap, ◌∙◌, true, false, List, [], ◌∷◌, ◌++◌,
  append_assoc, append-nil, ◌&&◌, Bytes, bytes_eq, length, length-append, if◌then◌else◌, Option,
  none, some, arith,
}
use dgit.Config.{Values, Section}
use dgit.Config.Parse.{
  slice, parse_values, parse_section_header, Parser, no_section, store, find_position, or_earlier,
  store_open, at_bracket, at_closing, at_end, config_step, config_loop, no_parser, sections_of,
  title,
}
use dgit.Config.Trim.{Lacks}
use dgit.Config.HeaderTrip.{IsPlainHeader, parse_section_header-title}

-- The states behind a `[` and behind a `]`.
abbrev pub naming : List Section → ℕ → ℕ → Parser
naming done opening closing = record {
  section = no_section;
  parsing_section_name = true;
  parsing_values = false;
  sect = none;
  sections = done;
  last_bracket = opening;
  last_closing_bracket = closing;
}

abbrev pub reading : List Section → Section → ℕ → ℕ → Parser
reading done s opening closing = record {
  section = record s { values = [] };
  parsing_section_name = false;
  parsing_values = true;
  sect = none;
  sections = done;
  last_bracket = opening;
  last_closing_bracket = closing;
}

find_position-values :
    (s : Section) (m : Values) (done : List Section)
    → find_position (record s { values = m }) done ≡ find_position s done
unfolding find_position
find_position-values s m [] = refl
find_position-values s m (x ∷ done) = λ i.
    if bytes_eq x.name s.name && bytes_eq x.subsection s.subsection
    then some 0
    else elim (find_position-values s m done i) [ none ↦ none | some n ↦ some (suc n) ]

module _ (raw : Bytes) where
  at_end_idle : (idx : ℕ) (p : Parser) → p.parsing_values ≡ false → at_end raw idx p ≡ some p
  unfolding at_end
  at_end_idle idx p e = ground arith

  at_end_not_last : (idx : ℕ) (p : Parser) → idx ≢ length raw - 1 → at_end raw idx p ≡ some p
  unfolding at_end
  at_end_not_last idx p h = ground arith

  at_end_last :
      (idx : ℕ) (p : Parser)
      → idx ≡ length raw - 1
      → p.parsing_values ≡ true
      → p.last_closing_bracket < idx
      → at_end raw idx p
        ≡ some (store (parse_values (slice (suc p.last_closing_bracket) idx raw)) p)
  unfolding at_end
  at_end_last idx p last e after = ground arith

  pub loop_next :
      (pre bs : Bytes) (c : ℕ) (p q : Parser)
      → config_step raw (length pre) c p ≡ some q
      → config_loop raw (length pre) (c ∷ bs) p ≡ config_loop raw (length (pre ++ (c ∷ []))) bs q
  unfolding config_loop
  loop_next pre bs c p q e =
      let n : suc (length pre) ≡ length (pre ++ (c ∷ [])) =
        omega (arith, length-append pre (c ∷ [])) in
      rw (e, config_loop) (ap (λ k. config_loop raw k bs q) n)

  name_step :
      (idx c : ℕ) (p : Parser)
      → p.parsing_section_name ≡ true
      → p.parsing_values ≡ false
      → c ≢ b']'
      → config_step raw idx c p ≡ some p
  unfolding config_step at_bracket at_closing at_end
  name_step idx c p e f h = ground arith

  value_step :
      (idx c : ℕ) (p : Parser)
      → p.parsing_section_name ≡ false
      → c ≢ b'['
      → idx ≢ length raw - 1
      → config_step raw idx c p ≡ some p
  unfolding config_step at_bracket at_closing at_end
  value_step idx c p e h last = ground arith

  pub skip_name :
      (mid pre rest : Bytes) (p : Parser)
      → p.parsing_section_name ≡ true
      → p.parsing_values ≡ false
      → Lacks b']' mid
      → config_loop raw (length pre) (mid ++ rest) p ≡ config_loop raw (length (pre ++ mid)) rest p
  skip_name [] pre rest p e f h = ap (λ t. config_loop raw (length t) rest p) (sym (append-nil pre))
  skip_name (c ∷ mid) pre rest p e f h =
      loop_next pre (mid ++ rest) c p p (name_step (length pre) c p e f h.0)
      ∙ skip_name mid (pre ++ (c ∷ [])) rest p e f h.1
      ∙ ap (λ t. config_loop raw (length t) rest p) (append_assoc pre (c ∷ []) mid)

  pub skip_values :
      (mid pre rest : Bytes) (p : Parser)
      → p.parsing_section_name ≡ false
      → Lacks b'[' mid
      → length pre + length mid < length raw
      → config_loop raw (length pre) (mid ++ rest) p ≡ config_loop raw (length (pre ++ mid)) rest p
  skip_values [] pre rest p e h within =
      ap (λ t. config_loop raw (length t) rest p) (sym (append-nil pre))
  skip_values (c ∷ mid) pre rest p e h within =
      loop_next pre (mid ++ rest) c p p (value_step (length pre) c p e h.0 (omega (arith, within)))
      ∙ skip_values mid (pre ++ (c ∷ [])) rest p e h.1
          (omega (arith, within, length-append pre (c ∷ [])))
      ∙ ap (λ t. config_loop raw (length t) rest p) (append_assoc pre (c ∷ []) mid)

  pub first_step : config_step raw 0 b'[' no_parser ≡ some (naming [] 0 0)
  unfolding config_step at_bracket store_open at_closing at_end
  first_step = ground arith

  pub closing_step :
      (idx opening closing : ℕ) (done : List Section) (s : Section)
      → slice (suc opening) idx raw ≡ title s
      → IsPlainHeader s
      → find_position s done ≡ none
      → idx ≢ length raw - 1
      → config_step raw idx b']' (naming done opening closing) ≡ some (reading done s opening idx)
  unfolding config_step at_bracket at_closing or_earlier
  closing_step idx opening closing done s e plain fresh last =
      at_end_not_last idx (closed (parse_section_header (slice (suc opening) idx raw))) last
      ∙ ap (λ t. some (closed t)) (ap parse_section_header e ∙ parse_section_header-title s plain)
      ∙ λ i. some (record (reading done s opening idx) {
        sect = or_earlier ((find_position-values s [] done ∙ fresh) i) none;
      })
    where
      closed : Section → Parser
      closed t = record {
        section = t;
        parsing_section_name = false;
        parsing_values = true;
        sect = or_earlier (find_position t done) none;
        sections = done;
        last_bracket = opening;
        last_closing_bracket = idx;
      }

  pub opening_step :
      (idx opening closing : ℕ) (done : List Section) (s : Section)
      → parse_values (slice (suc closing) idx raw) ≡ s.values
      → config_step raw idx b'[' (reading done s opening closing)
        ≡ some (naming (done ++ (s ∷ [])) idx closing)
  unfolding config_step at_bracket store_open store at_closing
  opening_step idx opening closing done s e = at_end_idle idx _ refl ∙ λ i.
      some (naming (done ++ (record s { values = e i } ∷ [])) idx closing)

  pub last_step :
      (idx opening closing : ℕ) (done : List Section) (s : Section)
      → parse_values (slice (suc closing) idx raw) ≡ s.values
      → idx ≡ length raw - 1
      → closing < idx
      → sections_of (config_step raw idx b'\n' (reading done s opening closing))
        ≡ some (done ++ (s ∷ []))
  unfolding config_step at_bracket store at_closing sections_of
  last_step idx opening closing done s e last after =
      ap sections_of (at_end_last idx (reading done s opening closing) last refl after) ∙ λ i.
      some (done ++ (record s { values = e i } ∷ []))

  pub one_more :
      (c : ℕ) (p : Parser) (idx : ℕ)
      → sections_of (config_loop raw idx (c ∷ []) p) ≡ sections_of (config_step raw idx c p)
  unfolding config_loop
  one_more c p idx = ended (config_step raw idx c p)
    where
      ended :
          (o : Option Parser)
          → sections_of (elim o [ none ↦ none | some q ↦ config_loop raw (suc idx) [] q ])
            ≡ sections_of o
      ended none = refl
      ended (some q) = refl
