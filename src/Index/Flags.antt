-- ===== src/Index/Flags.antt =====
-- The stage, the extended bit and the name length share the 16 flag bits of an entry.
use dgit.Prelude.{
  ℕ, zero, suc, ◌+◌, ◌-◌, ◌*◌, ◌/◌, ◌%◌, ◌^◌, ◌<◌, ◌≡◌, refl, Bool, true, false, Bytes, length,
  bit_and, bit_or, min, arith, some, none, Option,
}
use dgit.Prelude.Bits.{bit_and_mask, bit_or_fields, bit_or-shifted_fields}
use dgit.Index.Entry.{
  IndexEntry, stage_bits, stage, extended_flag, set_extended_flag, clear_bit_14, skip_worktree,
  set_skip_worktree,
}
use dgit.Index.Stages.{new_flags}

pub stage_bits-eq : (f : ℕ) → stage_bits f ≡ f / 2 ^ 12 % 4
unfolding stage_bits
stage_bits-eq f = bit_and_mask 2 (f / 2 ^ 12)

pub new_flags-eq :
    (s : ℕ) (path : Bytes) → s < 4 → new_flags s path ≡ s * 2 ^ 12 + min (length path) 0xfff
unfolding new_flags
new_flags-eq s path h = ground (
  arith,
  bit_and_mask 12 (length path % 2 ^ 16),
  bit_or_fields 12 s 0xfff (omega arith),
  bit_or_fields 12 s (length path),
)

-- A new entry at one of the stages 0 to 3 has that stage, no extended bit, and the length of
-- its name up to 0xfff in the low twelve bits.
pub new_flags_fields :
    (s : ℕ) (path : Bytes)
    → s < 4
    → (stage_bits (new_flags s path) ≡ s)
      × (extended_flag (new_flags s path) ≡ false)
      × (bit_and (new_flags s path) 0xfff ≡ min (length path) 0xfff)
unfolding extended_flag
new_flags_fields s path h = ground (
  arith,
  stage_bits-eq (new_flags s path),
  new_flags-eq s path h,
  bit_and_mask 12 (new_flags s path),
  bit_and_mask 1 (new_flags s path / 2 ^ 14),
)

bit_or_two_bits : (b : ℕ) → b < 4 → bit_or b 1 ≡ b / 2 * 2 + 1
bit_or_two_bits zero h = refl
bit_or_two_bits (suc zero) h = refl
bit_or_two_bits (suc (suc zero)) h = refl
bit_or_two_bits (suc (suc (suc zero))) h = refl
bit_or_two_bits (suc (suc (suc (suc n)))) h = absurd (omega arith)

set_bit_14 :
    (f : ℕ) → f < 2 ^ 16 → bit_or f (2 ^ 14) ≡ (f / 2 ^ 14 / 2 * 2 + 1) * 2 ^ 14 + f % 2 ^ 14
set_bit_14 f h =
    let split : f ≡ f / 2 ^ 14 * 2 ^ 14 + f % 2 ^ 14 = omega arith in
    ground (
      arith,
      rw (← split) at (bit_or-shifted_fields 14 (f / 2 ^ 14) (f % 2 ^ 14) 1 (omega arith)),
      bit_or_two_bits (f / 2 ^ 14) (omega arith),
    )

-- In flags of 16 bits, setting the extended bit sets it and leaves the stage and the length of
-- the name.
pub set_extended_flag_fields :
    (f : ℕ)
    → f < 2 ^ 16
    → (extended_flag (set_extended_flag f) ≡ true)
      × (stage_bits (set_extended_flag f) ≡ stage_bits f)
      × (bit_and (set_extended_flag f) 0xfff ≡ bit_and f 0xfff)
unfolding extended_flag set_extended_flag
set_extended_flag_fields f h = ground (
  arith,
  stage_bits-eq (bit_or f (2 ^ 14)),
  stage_bits-eq f,
  set_bit_14 f h,
  bit_and_mask 12 (bit_or f (2 ^ 14)),
  bit_and_mask 12 f,
  bit_and_mask 1 (bit_or f (2 ^ 14) / 2 ^ 14),
)

abbrev pub ExtensionFits : Option ℕ → Type 0
ExtensionFits none = Unit {0}
ExtensionFits (some x) = x < 2 ^ 16

bit_14_set : (f : ℕ) → f < 2 ^ 16 → bit_and (bit_or f (2 ^ 14) / 2 ^ 14) 1 ≡ 1
bit_14_set f h = omega (arith, set_bit_14 f h, bit_and_mask 1 (bit_or f (2 ^ 14) / 2 ^ 14))

bit_14_clear : (f : ℕ) → f < 2 ^ 16 → bit_and (clear_bit_14 f / 2 ^ 14) 1 ≡ 0
unfolding clear_bit_14
bit_14_clear f h =
    ground (arith, bit_and_mask 1 (f / 2 ^ 14), bit_and_mask 1 ((f - 2 ^ 14) / 2 ^ 14))

old_word : Option ℕ → ℕ
old_word o = elim o [ none ↦ 0 | some x ↦ x ]

old_word_fits : (o : Option ℕ) → ExtensionFits o → old_word o < 2 ^ 16
unfolding old_word
old_word_fits none h = omega arith
old_word_fits (some x) h = h

-- What `SetSkipWorktree` sets, `SkipWorktree` reads, and the stage of the entry stays, for
-- flags and an extension word of 16 bits.
pub skip_worktree-set_skip_worktree :
    (value : Bool) (e : IndexEntry)
    → e.flags < 2 ^ 16
    → ExtensionFits e.extensions
    → (skip_worktree (set_skip_worktree value e) ≡ value)
      × (stage (set_skip_worktree value e) ≡ stage e)
unfolding skip_worktree set_skip_worktree old_word
skip_worktree-set_skip_worktree true e h x = ground (
  arith,
  set_extended_flag_fields e.flags h,
  bit_14_set (old_word e.extensions) (old_word_fits e.extensions x),
)
skip_worktree-set_skip_worktree false e h x =
    ground (arith, bit_14_clear (old_word e.extensions) (old_word_fits e.extensions x))

pub set_skip_worktree-stage :
    (value : Bool) (e : IndexEntry) → e.flags < 2 ^ 16 → stage (set_skip_worktree value e) ≡ stage e
unfolding set_skip_worktree
set_skip_worktree-stage true e h = (set_extended_flag_fields e.flags h).1
set_skip_worktree-stage false e h = refl

pub set_skip_worktree-fits :
    (value : Bool) (e : IndexEntry) → e.flags < 2 ^ 16 → (set_skip_worktree value e).flags < 2 ^ 16
unfolding set_skip_worktree set_extended_flag
set_skip_worktree-fits true e h = omega (arith, set_bit_14 e.flags h)
set_skip_worktree-fits false e h = h

pub set_skip_worktree-path :
    (value : Bool) (e : IndexEntry) → (set_skip_worktree value e).path_name ≡ e.path_name
unfolding set_skip_worktree
set_skip_worktree-path value e = refl
