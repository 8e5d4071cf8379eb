-- ===== src/Delta/Calculate.antt =====
-- What `calculate` returns describes its target, and it always ends.
use dgit.Prelude.{
  ℕ, zero, suc, ◌+◌, ◌%◌, ◌^◌, ◌≤◌, ◌<◌, ◌≡◌, refl, ap, sym, ◌∙◌, ◌&&◌, Bool-cases, Option-cases,
  inl, inr, List, [], ◌∷◌, ◌++◌, append_assoc, append-nil, Bytes, ltb, leb, length, length-append,
  length-take, length-drop, take, drop, take-append-drop, All, All-append, arith, Option, none,
  some,
}
use dgit.Delta.Instruction.{Instruction, insert, copyinst}
use dgit.Delta.Calculator.{
  Index, Calculated, done, size_exceeded, panicked, unfinished, Round, next, stop, longest_prefix,
  next_prefix_start, insert_round, calculate_round, calculate_loop, calculate,
}
use dgit.Delta.Resolve.{apply, FitsBase}
use dgit.Delta.Search.{IsMatch, longest_prefix-IsMatch, longest_prefix_total, next_prefix_start-pos}
use native.Mathlib.Nat.{mod-eq_of_lt}

pub apply-append :
    (base : Bytes) (is js : List Instruction)
    → apply base (is ++ js) ≡ apply base is ++ apply base js
apply-append base [] js = refl
apply-append base (insert i ∷ is) js = rw (apply-append base is js) (sym (append_assoc i _ _))
apply-append base (copyinst o l ∷ is) js =
    rw (apply-append base is js)
      (sym (append_assoc (take l (drop o base)) (apply base is) (apply base js)))

module _ (src : Bytes) (index : Index src) (dst : Bytes) (maxsz : ℕ)
    (src_small : length src < 2 ^ 32) (dst_small : length dst < 2 ^ 24) where
  -- The instructions so far, and what remains, make up the target.
  record Inv (remaining : Bytes) (is : List Instruction) : Type 0 where
    made : apply src is ++ remaining ≡ dst
    fits : All (FitsBase src) is

  push :
      (remaining left piece : Bytes) (is : List Instruction) (i : Instruction)
      → Inv remaining is
      → apply src (i ∷ []) ≡ piece
      → FitsBase src i
      → piece ++ left ≡ remaining
      → Inv left (is ++ (i ∷ []))
  push remaining left piece is i v a f e = record {
    made = rw (apply-append src is (i ∷ []), a, append_assoc, e) v.made;
    fits = All-append (FitsBase src) is (i ∷ []) v.fits (f, tt);
  }

  remaining_small :
      (remaining : Bytes) (is : List Instruction) → Inv remaining is → length remaining < 2 ^ 24
  remaining_small remaining is v =
      omega (arith, dst_small, ap length v.made, length-append (apply src is) remaining)

  -- What a round leaves: less than there was, or an end that is no result.
  abbrev RoundInv : Bytes → Round → Type 0
  RoundInv remaining (next left estsz is) = Inv left is × (length left < length remaining)
  RoundInv remaining (stop (done is)) = ⊥
  RoundInv remaining (stop size_exceeded) = Unit {0}
  RoundInv remaining (stop panicked) = Unit {0}
  RoundInv remaining (stop unfinished) = ⊥

  push_insert :
      (remaining left piece : Bytes) (is : List Instruction)
      → Inv remaining is
      → piece ++ left ≡ remaining
      → Inv left (is ++ (insert piece ∷ []))
  push_insert remaining left piece is v e =
      push remaining left piece is (insert piece) v (append-nil piece) tt e

  insert_round-RoundInv :
      (r : Bytes) (estsz : ℕ) (is : List Instruction)
      → 0 < length r
      → Inv r is
      → RoundInv r (insert_round index.lookup dst maxsz r estsz is)
  unfolding insert_round
  insert_round-RoundInv r estsz is p v = elim (Bool-cases (leb (length r) 3)) [
    | inl short_left ↦ rw short_left (push_insert r [] r is v (append-nil r), p)
    | inr long_left ↦ rw long_left (elim (Option-cases (next_prefix_start index.lookup dst)) [
      | inl none_found ↦ rw (none_found, insert_round) (push_insert r [] r is v (append-nil r), p)
      | inr (k, one) ↦
          rw (one, insert_round)
            (elim (Bool-cases (leb k (length r))) [
              | inl inside ↦ rw inside (
                push_insert r (drop k r) (take k r) is v (take-append-drop k r),
                omega (arith, length-drop k r, next_prefix_start-pos src index dst k one),
              )
              | inr outside ↦ rw outside tt
            ])
    ])
  ]

  push_copy :
      (r : Bytes) (o l : ℕ) (is : List Instruction)
      → Inv r is
      → IsMatch src index r (some (o, l))
      → Inv (drop l r) (is ++ (copyinst (o % 2 ^ 32) (l % 2 ^ 32) ∷ []))
  push_copy r o l is v (a, b, (c, d)) =
      let small = remaining_small r is v in
      let len : length (take l r) ≡ l = omega (arith, length-take l r) in
      let inside : o + l ≤ length src = omega (arith, len, c) in
      let ol : o % 2 ^ 32 ≡ o = mod-eq_of_lt (omega arith) in
      let ll : l % 2 ^ 32 ≡ l = mod-eq_of_lt (omega arith) in
      rw (ol, ll)
        (push r (drop l r) (take l r) is (copyinst o l) v (append-nil _ ∙ rw len at d)
          (inside, omega arith, omega arith, omega arith) (take-append-drop l r))

  calculate_round-RoundInv :
      (r : Bytes) (estsz : ℕ) (is : List Instruction)
      → 0 < length r
      → Inv r is
      → RoundInv r (calculate_round index.lookup dst maxsz r estsz is)
  unfolding calculate_round
  calculate_round-RoundInv r estsz is p v = elim (Option-cases (longest_prefix index.lookup r)) [
    | inl stuck ↦ absurd (longest_prefix_total src index r stuck)
    | inr (best, found) ↦
        rw (found, calculate_round, RoundInv)
          (elim (Bool-cases (ltb 0 maxsz && ltb maxsz estsz)) [
            | inl over ↦ rw over tt
            | inr under ↦ rw under (best_case best (longest_prefix-IsMatch src index r found))
          ])
  ]
    where
      best_case :
          (best : Option (ℕ × ℕ))
          → IsMatch src index r best
          → RoundInv r (elim best [
            | some (o, l) ↦
                next (drop l r) (estsz + 9) (is ++ (copyinst (o % 2 ^ 32) (l % 2 ^ 32) ∷ []))
            | none ↦ insert_round index.lookup dst maxsz r estsz is
          ])
      best_case none m = insert_round-RoundInv r estsz is p v
      best_case (some (o, l)) m = (push_copy r o l is v m, omega (arith, length-drop l r, m))

  -- A result describes the target; running out of fuel is none.
  abbrev pub Describes : Calculated → Type 0
  Describes (done is) = (apply src is ≡ dst) × All (FitsBase src) is
  Describes unfinished = ⊥
  Describes _ = Unit {0}

  calculate_loop-Describes :
      (fuel : ℕ) (r : Bytes) (estsz : ℕ) (is : List Instruction)
      → length r ≤ fuel
      → Inv r is
      → Describes (calculate_loop index.lookup dst maxsz fuel r estsz is)
  unfolding calculate_loop
  calculate_loop-Describes fuel [] estsz is h v = (sym (append-nil (apply src is)) ∙ v.made, v.fits)
  calculate_loop-Describes zero (x ∷ xs) estsz is h v = absurd (omega arith)
  calculate_loop-Describes (suc fuel) (x ∷ xs) estsz is h v =
      go (calculate_round index.lookup dst maxsz (x ∷ xs) estsz is)
        (calculate_round-RoundInv (x ∷ xs) estsz is (omega arith) v)
        (λ left e is w k. calculate_loop-Describes fuel left e is k w)
    where
      go :
          (round : Round)
          → RoundInv (x ∷ xs) round
          → ((left : Bytes) (e : ℕ) (js : List Instruction)
              → Inv left js
              → length left ≤ fuel
              → Describes (calculate_loop index.lookup dst maxsz fuel left e js))
          → Describes (elim round [
            | next remaining estsz' is' ↦
                calculate_loop index.lookup dst maxsz fuel remaining estsz' is'
            | stop c ↦ c
          ])
      go (next left e js) (w, less) ih = ih left e js w (omega arith)
      go (stop (done js)) w ih = absurd w
      go (stop size_exceeded) w ih = tt
      go (stop panicked) w ih = tt
      go (stop unfinished) w ih = absurd w

  pub calculate-Describes : Describes (calculate index.lookup dst maxsz)
  unfolding calculate
  calculate-Describes =
      calculate_loop-Describes (length dst) dst 0 [] (omega arith)
        (record { made = refl; fits = tt })
