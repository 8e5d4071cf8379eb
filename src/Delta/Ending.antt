-- ===== src/Delta/Ending.antt =====
-- The loops of `calculate` end on every input: each round takes bytes off what remains.
use dgit.Prelude.{
  ℕ, zero, suc, ◌≤◌, ◌<◌, ◌≢◌, ◌+◌, ◌%◌, ◌^◌, ◌++◌, ◌&&◌, Bool-cases, Option-cases, inl, inr, List,
  [], ◌∷◌, Bytes, ltb, leb, length, length-drop, drop, arith, Option, none, some, subst,
}
use dgit.Delta.Instruction.{Instruction, copyinst}
use dgit.Delta.Calculator.{
  Index, Calculated, unfinished, Round, next, stop, longest_prefix, next_prefix_start, insert_round,
  calculate_round, calculate_loop, calculate,
}
use dgit.Delta.Search.{IsMatch, longest_prefix-IsMatch, longest_prefix_total, next_prefix_start-pos}

-- The fuel has not run out.
abbrev Ended : Calculated → Type 0
Ended unfinished = ⊥
Ended _ = Unit {0}

-- A round leaves less than there was, or it ends the loop.
abbrev Shrinks : Bytes → Round → Type 0
Shrinks r (next left estsz is) = length left < length r
Shrinks r (stop c) = Ended c

module _ (src : Bytes) (index : Index src) (dst : Bytes) (maxsz : ℕ) where
  insert_round-Shrinks :
      (r : Bytes) (estsz : ℕ) (is : List Instruction)
      → 0 < length r
      → Shrinks r (insert_round index.lookup dst maxsz r estsz is)
  unfolding insert_round
  insert_round-Shrinks r estsz is p = elim (Bool-cases (leb (length r) 3)) [
    | inl short_left ↦ rw short_left p
    | inr long_left ↦ rw long_left (elim (Option-cases (next_prefix_start index.lookup dst)) [
      | inl none_found ↦ rw (none_found, insert_round) p
      | inr (k, one) ↦
          rw (one, insert_round)
            (elim (Bool-cases (leb k (length r))) [
              | inl inside ↦
                  rw inside
                    (omega (arith, length-drop k r, next_prefix_start-pos src index dst k one))
              | inr outside ↦ rw outside tt
            ])
    ])
  ]

  calculate_round-Shrinks :
      (r : Bytes) (estsz : ℕ) (is : List Instruction)
      → 0 < length r
      → Shrinks r (calculate_round index.lookup dst maxsz r estsz is)
  unfolding calculate_round
  calculate_round-Shrinks r estsz is p = elim (Option-cases (longest_prefix index.lookup r)) [
    | inl stuck ↦ absurd (longest_prefix_total src index r stuck)
    | inr (best, found) ↦
        rw (found, calculate_round, Shrinks)
          (elim (Bool-cases (ltb 0 maxsz && ltb maxsz estsz)) [
            | inl over ↦ rw over tt
            | inr under ↦ rw under (best_case best (longest_prefix-IsMatch src index r found))
          ])
  ]
    where
      best_case :
          (best : Option (ℕ × ℕ))
          → IsMatch src index r best
          → Shrinks r (elim best [
            | some (o, l) ↦
                next (drop l r) (estsz + 9) (is ++ (copyinst (o % 2 ^ 32) (l % 2 ^ 32) ∷ []))
            | none ↦ insert_round index.lookup dst maxsz r estsz is
          ])
      best_case none m = insert_round-Shrinks r estsz is p
      best_case (some (o, l)) m = omega (arith, length-drop l r, m.0)

  calculate_loop-Ended :
      (fuel : ℕ) (r : Bytes) (estsz : ℕ) (is : List Instruction)
      → length r ≤ fuel
      → Ended (calculate_loop index.lookup dst maxsz fuel r estsz is)
  unfolding calculate_loop
  calculate_loop-Ended fuel [] estsz is h = tt
  calculate_loop-Ended zero (x ∷ xs) estsz is h = absurd (omega arith)
  calculate_loop-Ended (suc fuel) (x ∷ xs) estsz is h =
      go (calculate_round index.lookup dst maxsz (x ∷ xs) estsz is)
        (calculate_round-Shrinks (x ∷ xs) estsz is (omega arith))
        (λ left e js k. calculate_loop-Ended fuel left e js k)
    where
      go :
          (round : Round)
          → Shrinks (x ∷ xs) round
          → ((left : Bytes) (e : ℕ) (js : List Instruction)
              → length left ≤ fuel
              → Ended (calculate_loop index.lookup dst maxsz fuel left e js))
          → Ended (elim round [
            | next remaining estsz' is' ↦
                calculate_loop index.lookup dst maxsz fuel remaining estsz' is'
            | stop c ↦ c
          ])
      go (next left e js) less rest = rest left e js (omega (arith, less, h))
      go (stop c) ended rest = ended

  -- The loops of `calculate` and of its binary search end for every source and target: the fuel,
  -- which is the length of the target, does not run out.
  pub calculate-ne-unfinished : calculate index.lookup dst maxsz ≢ unfinished
  unfolding calculate
  calculate-ne-unfinished e =
      subst Ended e (calculate_loop-Ended (length dst) dst 0 [] (omega arith))
