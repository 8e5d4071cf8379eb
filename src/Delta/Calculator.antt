-- ===== src/Delta/Calculator.antt =====
-- git/delta/calculator.go: the search for the instructions of a delta. The suffix array of Go's
-- `index/suffixarray` is a parameter with what its documentation says of `Lookup(s, 1)`.
use dgit.Prelude.{
  ℕ, zero, suc, ◌+◌, ◌-◌, ◌/◌, ◌%◌, ◌^◌, ◌≤◌, ◌≡◌, ◌≢◌, ◌&&◌, List, [], ◌∷◌, ◌++◌, Bytes, ltb, leb,
  if◌then◌else◌, length, take, drop, Option, none, some, true, false,
}
use dgit.Delta.Instruction.{Instruction, insert, copyinst, write_all, write_var_int}

-- The bytes `s` stand in `src` at `i`.
abbrev pub OccursAt : Bytes → Bytes → ℕ → Type 0
OccursAt src s i = (i + length s ≤ length src) × (take (length s) (drop i src) ≡ s)

-- `none` is the empty result, `some i` a result whose first index is `i`.
pub record Index (src : Bytes) : Type 0 where
  pub lookup : Bytes → Option ℕ
  pub found : (s : Bytes) (i : ℕ) → lookup s ≡ some i → OccursAt src s i
  pub missing : (s : Bytes) (i : ℕ) → s ≢ [] → lookup s ≡ none → ¬ OccursAt src s i

abbrev pub min_copy : ℕ
min_copy = 3

-- The outcome of `calculate`. `panicked` is a slice expression out of range; `unfinished`, which
-- is no outcome of the source, means that the fuel ran out.
pub data Calculated : Type 0 where
  done : List Instruction → Calculated
  size_exceeded : Calculated
  panicked : Calculated
  unfinished : Calculated

-- One round of the loop of `calculate` goes on with new variables, or ends it.
pub data Round : Type 0 where
  next : Bytes → ℕ → List Instruction → Round
  stop : Calculated → Round

module _ (lookup : Bytes → Option ℕ) where
  -- The binary search at the end of `longestPrefix`. `best` is (offset, length), and `none` for
  -- length -1; the outer `none` means that the fuel ran out.
  unfoldable pub search_loop : ℕ → Bytes → Option (ℕ × ℕ) → ℕ → ℕ → ℕ → Option (Option (ℕ × ℕ))
  search_loop zero dst best min_idx max_idx i = none
  search_loop (suc fuel) dst best min_idx max_idx i = elim (ltb 1 (max_idx - min_idx)) [
    | true ↦ elim (lookup (take i dst)) [
      | some r ↦ search_loop fuel dst (some (r, i)) i max_idx ((max_idx - i) / 2 + i)
      | none ↦ search_loop fuel dst best min_idx (i - 1) ((i - 1 - min_idx) / 2 + min_idx)
    ]
    | false ↦ some best
  ]

  unfoldable pub longest_prefix : Bytes → Option (Option (ℕ × ℕ))
  longest_prefix dst =
      if ltb (length dst) min_copy then some none else elim (lookup (take min_copy dst)) [
        | none ↦ some none
        | some _ ↦ elim (lookup dst) [
          | some r ↦ some (some (r, length dst))
          | none ↦ search_loop (length dst) dst none min_copy (length dst) min_copy
        ]
      ]

  -- The loop of `nextPrefixStart` at index `i`, over `dst[i:]`; `none` is -1.
  unfoldable pub next_prefix_from : ℕ → Bytes → Option ℕ
  next_prefix_from i [] = none
  next_prefix_from i (x ∷ xs) = elim (lookup (take min_copy (x ∷ xs))) [
    | some _ ↦ some i
    | none ↦ next_prefix_from (i + 1) xs
  ]

  unfoldable pub next_prefix_start : Bytes → Option ℕ
  next_prefix_start dst = next_prefix_from 1 (drop 1 dst)

  module _ (dst : Bytes) (maxsz : ℕ) where
    -- What the loop does where `longestPrefix` found nothing. It looks for the next prefix in
    -- `dst`, not in `remaining`, so the offset may lie behind the end of `remaining`.
    unfoldable pub insert_round : Bytes → ℕ → List Instruction → Round
    insert_round remaining estsz is =
        if leb (length remaining) min_copy
        then next [] (estsz + length remaining + 1) (is ++ (insert remaining ∷ []))
        else elim (next_prefix_start dst) [
          | some k ↦
              if leb k (length remaining)
              then next (drop k remaining) (estsz + (1 + length remaining - k))
                  (is ++ (insert (take k remaining) ∷ []))
              else stop panicked
          | none ↦ next [] (estsz + length remaining + 1) (is ++ (insert remaining ∷ []))
        ]

    -- A `maxsz` of 0 stands for every one that is not positive: there is no limit.
    unfoldable pub calculate_round : Bytes → ℕ → List Instruction → Round
    calculate_round remaining estsz is = elim (longest_prefix remaining) [
      | none ↦ stop unfinished
      | some best ↦ if ltb 0 maxsz && ltb maxsz estsz then stop size_exceeded else elim best [
        | some (o, l) ↦
            next (drop l remaining) (estsz + 9) (is ++ (copyinst (o % 2 ^ 32) (l % 2 ^ 32) ∷ []))
        | none ↦ insert_round remaining estsz is
      ]
    ]

    unfoldable pub calculate_loop : ℕ → Bytes → ℕ → List Instruction → Calculated
    calculate_loop fuel [] estsz is = done is
    calculate_loop zero (x ∷ xs) estsz is = unfinished
    calculate_loop (suc fuel) (x ∷ xs) estsz is = elim (calculate_round (x ∷ xs) estsz is) [
      | next remaining estsz' is' ↦ calculate_loop fuel remaining estsz' is'
      | stop c ↦ c
    ]

    unfoldable pub calculate : Calculated
    calculate = calculate_loop (length dst) dst 0 []

-- `CalculateWithIndex`, into a buffer: what is written, or why nothing is.
pub data Written : Type 0 where
  ok : Bytes → Written
  failed : Calculated → Written

unfoldable pub written : Bytes → Bytes → Calculated → Written
written src dst (done is) =
    ok (write_var_int (length src) ++ (write_var_int (length dst) ++ write_all is))
written src dst c = failed c

unfoldable pub calculate_with_index : (Bytes → Option ℕ) → Bytes → Bytes → ℕ → Written
unfolding written
calculate_with_index lookup src dst maxsz = written src dst (calculate lookup dst maxsz)
