-- ===== src/Samples/Delta.antt =====
-- Deltas computed, written and resolved.
use dgit.Prelude.{◌≡◌, ◌≢◌, refl, List, [], ◌∷◌, ◌++◌, Bytes, codes, All, arith, some, none}
use dgit.Delta.Instruction.{
  Instruction, insert, copyinst, write_insert_loop, write_insert, write_copy, write, write_all,
  put_uvarint_loop, write_var_int, offset_flags, length_flags, set_flag, byte_at, put_byte,
}
use dgit.Delta.Calculator.{
  done, panicked, unfinished, calculate, calculate_loop, calculate_round, insert_round,
  longest_prefix, search_loop, next_prefix_start, next_prefix_from, calculate_with_index, ok,
}
use dgit.Delta.Reader.{
  Reader, new_reader, read_variable, read_all, all, read, read_instruction, read_cached, read_copy,
  read_insert, read_full, copy_operands, copy_offset, copy_length, read_operand,
}
use dgit.Delta.Resolve.{apply, FitsBase, read_all-write_all}
use dgit.Delta.Deliver.{reader}
use dgit.Delta.Variable.{read_variable-write_var_int}
use dgit.Delta.Ending.{calculate-ne-unfinished}
use dgit.Delta.RoundTrip.{apply-calculate, read_all-calculate_with_index}
use dgit.Samples.Naive.{naive_lookup, naive_index}

abbrev source : Bytes
source = codes "abDxxxAxF"

abbrev target : Bytes
target = codes "AxxxFwX"

abbrev steps : List Instruction
steps = insert (codes "A") ∷ copyinst 3 3 ∷ insert (codes "FwX") ∷ []

-- A case of the source's own test.
calculate_mixed : calculate (naive_lookup source) target 0 ≡ done steps
unfolding calculate calculate_loop calculate_round insert_round longest_prefix search_loop
    next_prefix_start next_prefix_from naive_lookup
calculate_mixed = refl

-- The offset of the next prefix is looked for in the whole target: it lies behind the last four
-- bytes, and slicing them there panics.
calculate_panics : calculate (naive_lookup (codes "abc")) (codes "12345678abcWXYZ") 0 ≡ panicked
unfolding calculate calculate_loop calculate_round insert_round longest_prefix search_loop
    next_prefix_start next_prefix_from naive_lookup
calculate_panics = refl

-- Four bytes of which three occur have no prefix for the binary search.
longest_prefix_four : longest_prefix (naive_lookup (codes "abc")) (codes "abcX") ≡ some none
unfolding longest_prefix search_loop naive_lookup
longest_prefix_four = refl

-- A reader over the written delta gives the target back, three bytes at a time.
abbrev wire : Bytes
wire = 9 ∷ 7 ∷ 1 ∷ codes "A" ++ (0x91 ∷ 3 ∷ 3 ∷ 3 ∷ codes "FwX")

calculate_with_index_mixed : calculate_with_index (naive_lookup source) source target 0 ≡ ok wire
unfolding calculate_with_index calculate calculate_loop calculate_round insert_round longest_prefix
    search_loop next_prefix_start next_prefix_from naive_lookup write_var_int put_uvarint_loop
    write_all write write_insert write_insert_loop write_copy offset_flags length_flags set_flag
    byte_at put_byte
calculate_with_index_mixed = refl

read_all_mixed :
    read_all 8 (λ _. 3) (reader source 7 [] (1 ∷ codes "A" ++ (0x91 ∷ 3 ∷ 3 ∷ 3 ∷ codes "FwX"))) []
    ≡ all target
unfolding read_all read read_instruction read_cached read_copy read_insert read_full copy_operands
    copy_offset copy_length read_operand
read_all_mixed = refl

read_all-calculate_with_index_example :
    (d : Reader) × (new_reader wire source ≡ some d)
    × (d.sz ≡ 7)
    × (read_all 8 (λ _. 3) d [] ≡ all target)
read_all-calculate_with_index_example =
    read_all-calculate_with_index source (naive_index source) target 0 (omega arith) (omega arith)
      (λ _. 3) (λ k. omega arith) calculate_with_index_mixed

apply-calculate_example : (apply source steps ≡ target) × All (FitsBase source) steps
apply-calculate_example =
    apply-calculate source (naive_index source) target 0 (omega arith) (omega arith) calculate_mixed

calculate-ne-unfinished_example : calculate (naive_lookup source) target 0 ≢ unfinished
calculate-ne-unfinished_example = calculate-ne-unfinished source (naive_index source) target 0

read_all-write_all_example :
    read_all 8 (λ _. 2) (reader source 7 [] (write_all steps)) [] ≡ all (apply source steps)
read_all-write_all_example =
    read_all-write_all source 7 steps (λ _. 2) 8 (λ k. omega arith) (omega arith) (omega arith)

read_variable-write_var_int_example :
    read_variable (write_var_int 300 ++ (5 ∷ [])) ≡ some (300, 5 ∷ [])
read_variable-write_var_int_example = read_variable-write_var_int 300 (5 ∷ []) (omega arith)
