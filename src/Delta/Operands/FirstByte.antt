-- ===== src/Delta/Operands/FirstByte.antt =====
-- The first byte of a copy: each of its seven lower bits is the test of one operand byte.
use dgit.Prelude.{
  ℕ, ◌+◌, ◌*◌, ◌/◌, ◌%◌, ◌^◌, ◌<◌, ◌≡◌, refl, Bool, true, false, not, ◌&&◌, ◌==◌, ltb, arith,
  bit_and,
}
use dgit.Prelude.Bits.{bit_and_mask, bit_and-shifted}
use dgit.Delta.Instruction.{set_flag, byte_at}

-- The first byte of a copy, from its seven tests.
unfoldable pub instbyte : Bool → Bool → Bool → Bool → Bool → Bool → Bool → ℕ
unfolding set_flag
instbyte a b c d e f g = set_flag g 0x40 (
    set_flag f 0x20 (
      set_flag e 0x10 (set_flag d 0x08 (set_flag c 0x04 (set_flag b 0x02 (set_flag a 0x01 0x80))))))

bool_eq : Bool → Bool → Bool
bool_eq true b = b
bool_eq false b = not b

bool_eq→eq : (a b : Bool) → bool_eq a b ≡ true → a ≡ b
unfolding bool_eq
bool_eq→eq a b h = ground arith

both : (Bool → Bool) → Bool
both p = p true && p false

both_sound : (p : Bool → Bool) → both p ≡ true → (b : Bool) → p b ≡ true
unfolding both
both_sound p h true = ground arith
both_sound p h false = ground arith

-- The tests of the reader on the first byte `i` give back the tests of the writer.
reads_back : ℕ → Bool → Bool → Bool → Bool → Bool → Bool → Bool → Bool
unfolding bool_eq
reads_back i a b c d e f g =
    bool_eq (bit_and i 0x01 == 0) (not a)
    && bool_eq (bit_and i 0x02 == 0) (not b)
    && bool_eq (bit_and i 0x04 == 0) (not c)
    && bool_eq (bit_and i 0x08 == 0) (not d)
    && bool_eq (bit_and i 0x10 == 0) (not e)
    && bool_eq (bit_and i 0x20 == 0) (not f)
    && bool_eq (bit_and i 0x40 == 0) (not g)
    && ltb 127 i

table :
    both (λ a. both (λ b. both (λ c. both (λ d.
      both (λ e. both (λ f. both (λ g. reads_back (instbyte a b c d e f g) a b c d e f g)))))))
    ≡ true
unfolding both reads_back instbyte
table = refl

pub record Tests (i : ℕ) (a b c d e f g : Bool) : Type 0 where
  pub t1 : (bit_and i 0x01 == 0) ≡ not a
  pub t2 : (bit_and i 0x02 == 0) ≡ not b
  pub t3 : (bit_and i 0x04 == 0) ≡ not c
  pub t4 : (bit_and i 0x08 == 0) ≡ not d
  pub t5 : (bit_and i 0x10 == 0) ≡ not e
  pub t6 : (bit_and i 0x20 == 0) ≡ not f
  pub t7 : (bit_and i 0x40 == 0) ≡ not g
  pub above : 127 < i

reads_back→Tests :
    (i : ℕ) (a b c d e f g : Bool) → reads_back i a b c d e f g ≡ true → Tests i a b c d e f g
unfolding reads_back
reads_back→Tests i a b c d e f g h = ground arith

pub instbyte-Tests : (a b c d e f g : Bool) → Tests (instbyte a b c d e f g) a b c d e f g
instbyte-Tests a b c d e f g = reads_back→Tests (instbyte a b c d e f g) a b c d e f g (
    both_sound _
      (both_sound _
        (both_sound _ (both_sound _ (both_sound _ (both_sound _ (both_sound _ table a) b) c) d) e)
        f)
      g)

pub byte_at-eq : (k x : ℕ) → byte_at k x ≡ x / 2 ^ k % 256
unfolding byte_at
byte_at-eq k x = omega (arith, bit_and_mask 8 (x / 2 ^ k))

-- The writer's test of a byte under its mask is a test of that byte.
pub test_0 : (x : ℕ) → (bit_and x 0xff == 0) ≡ (byte_at 0 x == 0)
test_0 x = ground (arith, byte_at-eq 0 x, bit_and_mask 8 x)

pub test_8 : (x : ℕ) → (bit_and x 0xff00 == 0) ≡ (byte_at 8 x == 0)
test_8 x = ground (
  arith,
  byte_at-eq 8 x,
  rw (← split) at (bit_and-shifted 8 (x / 256) (x % 256) 0xff (omega arith)),
  bit_and_mask 8 (x / 256),
)
  where
    split : x ≡ x / 256 * 256 + x % 256
    split = omega arith

pub test_16 : (x : ℕ) → (bit_and x 0xff0000 == 0) ≡ (byte_at 16 x == 0)
test_16 x = ground (
  arith,
  byte_at-eq 16 x,
  rw (← split) at (bit_and-shifted 16 (x / 2 ^ 16) (x % 2 ^ 16) 0xff (omega arith)),
  bit_and_mask 8 (x / 2 ^ 16),
)
  where
    split : x ≡ x / 2 ^ 16 * 2 ^ 16 + x % 2 ^ 16
    split = omega arith

pub test_24 : (x : ℕ) → (bit_and x 0xff000000 == 0) ≡ (byte_at 24 x == 0)
test_24 x = ground (
  arith,
  byte_at-eq 24 x,
  rw (← split) at (bit_and-shifted 24 (x / 2 ^ 24) (x % 2 ^ 24) 0xff (omega arith)),
  bit_and_mask 8 (x / 2 ^ 24),
)
  where
    split : x ≡ x / 2 ^ 24 * 2 ^ 24 + x % 2 ^ 24
    split = omega arith
