-- ===== src/Config/ValuesTrip.antt =====
-- git/config.go: the lines that `WriteFile` writes for the values of a section, and `ParseValues`.
use dgit.Prelude.{
  ◌≡◌, refl, sym, ap, ◌∙◌, inl, inr, false, List, [], ◌∷◌, ◌++◌, append_assoc, append-nil, Bytes,
  codes, bytes_eq, All-append, Bool-cases, none, if◌then◌else◌, arith,
}
use dgit.Config.{Values, is_space, trim_left, trim_right, trim_space, assign, value_of}
use dgit.Config.Parse.{
  split_by, parse_variable, parse_line, parse_lines, parse_values, write_values,
}
use dgit.Config.Trim.{
  IsTrimmed, Lacks, Lacks-trim_left, trim_left-append, trim_right-append, trim_left-tab,
  trim_space-key, trim_space-value, split_by-piece, split_by_end, join-split_by,
}

-- A key and a value that stand in a line of their own.
pub record IsPlainValue (k v : Bytes) : Type 0 where
  pub key_trimmed : IsTrimmed k
  pub value_trimmed : IsTrimmed v
  pub key_equals : Lacks b'=' k
  pub key_line : Lacks b'\n' k
  pub value_line : Lacks b'\n' v
  pub key_bracket : Lacks b'[' k
  pub value_bracket : Lacks b'[' v

-- Each key is new to the ones before it.
abbrev pub ArePlainValues : Values → Values → Type 0
ArePlainValues done [] = Unit {0}
ArePlainValues done ((k, v) ∷ m) =
    IsPlainValue k v × (value_of k done ≡ none) × ArePlainValues (done ++ ((k, v) ∷ [])) m

assign_new : (k v : Bytes) (m : Values) → value_of k m ≡ none → assign k v m ≡ m ++ ((k, v) ∷ [])
unfolding assign value_of
assign_new k v [] h = refl
assign_new k v ((j, w) ∷ m) h = elim (Bool-cases (bytes_eq j k)) [
  | inl y ↦ cc (rw y at h)
  | inr n ↦ rw n (ap (◌∷◌ (j, w)) (assign_new k v m (rw n at h)))
]

abbrev line_of : Bytes → Bytes → Bytes
line_of k v = b'\t' ∷ (k ++ (codes " = " ++ v))

abbrev trimmed_key : Bytes → Bytes
trimmed_key k = trim_left (k ++ (b' ' ∷ []))

abbrev trimmed_value : Bytes → Bytes
trimmed_value v = trim_right (b' ' ∷ v)

trim_space-line :
    (k v : Bytes) → trim_space (line_of k v) ≡ trimmed_key k ++ (b'=' ∷ trimmed_value v)
unfolding trim_space is_space
trim_space-line k v =
    ap trim_right (
      trim_left-tab (k ++ (codes " = " ++ v))
      ∙ ap trim_left (sym (append_assoc k (b' ' ∷ []) (b'=' ∷ (b' ' ∷ v))))
      ∙ trim_left-append (k ++ (b' ' ∷ [])) (b' ' ∷ v) b'=' refl)
    ∙ trim_right-append (trimmed_key k) (b' ' ∷ v) b'=' refl

not_empty : (s t : Bytes) → bytes_eq (s ++ (b'=' ∷ t)) [] ≡ false
unfolding bytes_eq
not_empty [] t = refl
not_empty (c ∷ s) t = refl

parse_line_trimmed :
    (line s t : Bytes) (m : Values)
    → trim_space line ≡ s ++ (b'=' ∷ t)
    → Lacks b'=' s
    → parse_line line m ≡ assign (trim_space s) (trim_space t) m
unfolding parse_line parse_variable
parse_line_trimmed line s t m e h =
    ap (λ x. if bytes_eq x [] then m else parse_variable (split_by b'=' x) m) e
    ∙ ap (λ b. if b then m else parse_variable (split_by b'=' (s ++ (b'=' ∷ t))) m) (not_empty s t)
    ∙ ap (λ p. parse_variable p m) (split_by-piece b'=' s t h)
    ∙ ap (λ x. assign (trim_space s) (trim_space x) m) (join-split_by b'=' t)

parse_line_written :
    (k v : Bytes) (m : Values) → IsPlainValue k v → parse_line (line_of k v) m ≡ assign k v m
parse_line_written k v m h =
    parse_line_trimmed (line_of k v) (trimmed_key k) (trimmed_value v) m (trim_space-line k v) (
      Lacks-trim_left b'=' (k ++ (b' ' ∷ []))
        (All-append _ k (b' ' ∷ []) h.key_equals (omega arith, tt)))
    ∙ (λ i. assign (trim_space-key k h.key_trimmed i) (trim_space-value v h.value_trimmed i) m)

abbrev lines_of : Values → List Bytes
lines_of [] = []
lines_of ((k, v) ∷ m) = line_of k v ∷ lines_of m

line_of_lem : (k v t : Bytes) → line_of k v ++ t ≡ b'\t' ∷ (k ++ (codes " = " ++ (v ++ t)))
line_of_lem k v t = ap (◌∷◌ b'\t') (append_assoc k (codes " = " ++ v) t)

split_by-values :
    (m done : Values)
    → ArePlainValues done m
    → split_by b'\n' (write_values m) ≡ lines_of m ++ ([] ∷ [])
unfolding write_values
split_by-values [] done h = unfold split_by in refl
split_by-values ((k, v) ∷ m) done (plain, fresh, h) =
    ap (split_by b'\n') (sym (line_of_lem k v (b'\n' ∷ write_values m)))
    ∙ split_by-piece b'\n' (line_of k v) (write_values m) (
      omega arith,
      All-append _ k (codes " = " ++ v) plain.key_line
          (omega arith, (omega arith, (omega arith, plain.value_line))),
    )
    ∙ ap (◌∷◌ (line_of k v)) (split_by-values m (done ++ ((k, v) ∷ [])) h)

parse_lines-append :
    (m done : Values) (rest : List Bytes)
    → ArePlainValues done m
    → parse_lines (lines_of m ++ rest) done ≡ parse_lines rest (done ++ m)
unfolding parse_lines
parse_lines-append [] done rest h = ap (parse_lines rest) (sym (append-nil done))
parse_lines-append ((k, v) ∷ m) done rest (plain, fresh, h) =
    ap (parse_lines (lines_of m ++ rest))
      (parse_line_written k v done plain ∙ assign_new k v done fresh)
    ∙ parse_lines-append m (done ++ ((k, v) ∷ [])) rest h
    ∙ ap (parse_lines rest) (append_assoc done ((k, v) ∷ []) m)

parse_line_empty : (m : Values) → parse_line [] m ≡ m
unfolding parse_line trim_space trim_left trim_right bytes_eq
parse_line_empty m = refl

parse_lines_end :
    (ls : List Bytes) (m : Values) → parse_lines (ls ++ ([] ∷ [])) m ≡ parse_lines ls m
unfolding parse_lines
parse_lines_end [] m = parse_line_empty m
parse_lines_end (l ∷ ls) m = parse_lines_end ls (parse_line l m)

-- The text behind the `]` of a section, and the same without its last byte.
pub parse_values-write_values :
    (m : Values) → ArePlainValues [] m → parse_values (b'\n' ∷ write_values m) ≡ m
unfolding parse_values parse_lines
parse_values-write_values m h =
    ap (λ ls. parse_lines ls [])
      (split_by-piece b'\n' [] (write_values m) tt ∙ ap (◌∷◌ []) (split_by-values m [] h))
    ∙ ap (parse_lines (lines_of m ++ ([] ∷ []))) (parse_line_empty [])
    ∙ parse_lines-append m [] ([] ∷ []) h
    ∙ parse_line_empty m

abbrev pub front : Values → Bytes
front [] = []
front ((k, v) ∷ m) = b'\n' ∷ (b'\t' ∷ (k ++ (codes " = " ++ (v ++ front m))))

pub front_newline : (m : Values) → b'\n' ∷ write_values m ≡ front m ++ (b'\n' ∷ [])
unfolding write_values
front_newline [] = refl
front_newline ((k, v) ∷ m) = simp (front_newline m, append_assoc)

pub parse_values-front : (m : Values) → ArePlainValues [] m → parse_values (front m) ≡ m
unfolding parse_values
parse_values-front m h =
    sym (parse_lines_end (split_by b'\n' (front m)) [])
    ∙ ap (λ ls. parse_lines ls []) (sym (split_by_end b'\n' (front m)))
    ∙ ap parse_values (sym (front_newline m))
    ∙ parse_values-write_values m h
