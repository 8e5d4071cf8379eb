-- ===== src/Prelude/Bits.antt =====
-- `|`, `&` and shifts as arithmetic, at every width. `x << k` is `x * 2 ^ k`, `x >> k` is
-- `x / 2 ^ k`; the native operations mean a recursion on binary digits with fuel.
use Prim.Native.Nat.{
  ℕ, zero, suc, ◌+◌, ◌-◌, ◌*◌, ◌/◌, ◌%◌, ◌^◌, ◌≤◌, ◌<◌, min, max, digits, bitwise, bit_and, bit_or,
  bit_and-bitwise, bit_or-bitwise,
}
use mathlib.Core.Path.{◌≡◌, refl, ap, ◌∙◌}
use mathlib.Core.Bool.{Bool, true, ◌&&◌}
use dgit.Prelude.Tests.{◌==◌}
use native.Mathlib.Omega.{arith}
use native.Mathlib.Nat.{pow-suc, one-le-pow, mul-one}

pub zero-bit_or : (y : ℕ) → bit_or 0 y ≡ y
zero-bit_or y = bit_or-bitwise 0 y

-- One round more than a number has digits changes nothing, so any more do not.
module _ (rest : ℕ → ℕ) (op : ℕ → ℕ → ℕ) where
  next_round : (n a b : ℕ) → a ≤ n → digits rest op (suc n) a b ≡ digits rest op n a b
  next_round zero zero b h = refl
  next_round (suc n) zero b h = refl
  next_round zero (suc a) b h = absurd (omega arith)
  next_round (suc n) (suc a) b h =
      ap (λ t. t * 2 + op (suc a % 2) (b % 2)) (next_round n (suc a / 2) (b / 2) (omega arith))

  rounds : (k n m a b : ℕ) → m ≡ n + k → a ≤ n → digits rest op m a b ≡ digits rest op n a b
  rounds zero n m a b e h = let same : m ≡ n = omega arith in ap (λ t. digits rest op t a b) same
  rounds (suc k) n m a b e h =
      let same : m ≡ suc (n + k) = omega arith in
      ap (λ t. digits rest op t a b) same
      ∙ next_round (n + k) a b (omega arith)
      ∙ rounds k n (n + k) a b refl h

  halved : (n a b : ℕ) → a ≤ n → digits rest op n a b ≡ bitwise rest op a b
  halved n a b h = rounds (n - a) a n a b (omega arith) (omega arith)

  pub lowest_digit :
      (a b : ℕ)
      → 0 < a
      → bitwise rest op a b ≡ bitwise rest op (a / 2) (b / 2) * 2 + op (a % 2) (b % 2)
  lowest_digit zero b h = absurd (omega arith)
  lowest_digit (suc n) b h =
      ap (λ t. t * 2 + op (suc n % 2) (b % 2)) (halved n (suc n / 2) (b / 2) (omega arith))

-- The law of the lowest digit, for both operations.
pub bit_or_step : (x y : ℕ) → bit_or x y ≡ bit_or (x / 2) (y / 2) * 2 + max (x % 2) (y % 2)
bit_or_step zero y = omega (arith, zero-bit_or y, zero-bit_or (y / 2))
bit_or_step (suc n) y = simp bit_or-bitwise (lowest_digit (λ t. t) max (suc n) y (omega arith))

pub bit_and_step : (x y : ℕ) → bit_and x y ≡ bit_and (x / 2) (y / 2) * 2 + min (x % 2) (y % 2)
bit_and_step zero y = omega (arith, bit_and-bitwise 0 y, bit_and-bitwise 0 (y / 2))
bit_and_step (suc n) y = simp bit_and-bitwise (lowest_digit (λ t. 0) min (suc n) y (omega arith))

two_pow_suc : (k : ℕ) → 2 ^ suc k ≡ 2 * 2 ^ k
two_pow_suc k = omega (arith, pow-suc 2 k)

mul-two_pow_suc : (q k : ℕ) → q * 2 ^ suc k ≡ 2 * (q * 2 ^ k)
mul-two_pow_suc q k = omega (arith, ap (λ (t : ℕ). q * t) (pow-suc 2 k))

-- `r | q << k` is a sum when `r` fits `k` bits.
pub bit_or-shifted : (k r q : ℕ) → r < 2 ^ k → bit_or r (q * 2 ^ k) ≡ r + q * 2 ^ k
bit_or-shifted zero r q fits = ground (arith, zero-bit_or (q * 1))
bit_or-shifted (suc k) r q fits = ground (
  arith,
  bit_or_step r (q * 2 ^ suc k),
  mul-two_pow_suc q k,
  two_pow_suc k,
  bit_or-shifted k (r / 2) q (omega (arith, two_pow_suc k)),
)

digits-zero : (n x : ℕ) → digits (λ t. 0) min n x 0 ≡ 0
digits-zero zero zero = refl
digits-zero zero (suc x) = refl
digits-zero (suc n) zero = refl
digits-zero (suc n) (suc x) = omega (arith, digits-zero n (suc x / 2))

pub bit_and-zero : (x : ℕ) → bit_and x 0 ≡ 0
bit_and-zero x = bit_and-bitwise x 0 ∙ digits-zero x x

-- A mask of `k` low bits is the remainder by `2 ^ k`.
bit_and_fields : (k q r : ℕ) → r < 2 ^ k → bit_and (q * 2 ^ k + r) (2 ^ k - 1) ≡ r
bit_and_fields zero q r fits = omega (arith, bit_and-zero (q * 1 + r))
bit_and_fields (suc k) q r fits = ground (
  arith,
  bit_and_step (q * 2 ^ suc k + r) (2 ^ suc k - 1),
  mul-two_pow_suc q k,
  two_pow_suc k,
  one-le-pow k 2,
  bit_and_fields k q (r / 2) (omega (arith, two_pow_suc k)),
)

pub bit_and_mask : (k a : ℕ) → bit_and a (2 ^ k - 1) ≡ a % 2 ^ k
bit_and_mask k a = ground (arith, one-le-pow k 2, bit_and_fields k (a / 2 ^ k) (a % 2 ^ k))

-- A mask that is shifted left reads the number shifted right.
pub bit_and-shifted :
    (k b r m : ℕ) → r < 2 ^ k → bit_and (b * 2 ^ k + r) (m * 2 ^ k) ≡ bit_and b m * 2 ^ k
bit_and-shifted zero b r m fits = ground (arith, one (b * 1 + r) b (omega arith))
  where
    one : (x y : ℕ) → x ≡ y → bit_and x (m * 1) ≡ bit_and y m * 1
    one x y e = cc (e, mul-one m, mul-one (bit_and y m))
bit_and-shifted (suc k) b r m fits = ground (
  arith,
  bit_and_step (b * 2 ^ suc k + r) (m * 2 ^ suc k),
  mul-two_pow_suc b k,
  mul-two_pow_suc m k,
  mul-two_pow_suc (bit_and b m) k,
  two_pow_suc k,
  bit_and-shifted k b (r / 2) m (omega (arith, two_pow_suc k)),
)

-- Over a small range two functions are compared by evaluation.
module _ (f g : ℕ → ℕ) where
  agree_below : ℕ → Bool
  agree_below zero = true
  agree_below (suc n) = f n == g n && agree_below n

  agree_below→eq : (n : ℕ) → agree_below n ≡ true → (i : ℕ) → i < n → f i ≡ g i
  unfolding agree_below
  agree_below→eq zero e i h = absurd (omega arith)
  agree_below→eq (suc n) e i h = ground (arith, agree_below→eq n (ground arith) i)

pub set_top_bit : (b : ℕ) → b < 256 → bit_or b 0x80 ≡ b % 128 + 128
unfolding agree_below
set_top_bit = agree_below→eq _ _ 256 refl

pub top_bit : (b : ℕ) → b < 256 → bit_and b 0x80 ≡ b / 128 * 128
unfolding agree_below
top_bit = agree_below→eq _ _ 256 refl

pub bit_or_nibbles : (b : ℕ) → b < 256 → bit_or (b / 16 * 16) (b % 16) ≡ b
unfolding agree_below
bit_or_nibbles = agree_below→eq (λ b. bit_or (b / 16 * 16) (b % 16)) (λ b. b) 256 refl

pub middle_bits : (b : ℕ) → b < 256 → bit_and b 0x70 / 16 ≡ b / 16 % 8
unfolding agree_below
middle_bits = agree_below→eq _ _ 256 refl

-- `q << k | r` is a sum when `r` fits `k` bits.
pub bit_or_fields : (k q r : ℕ) → r < 2 ^ k → bit_or (q * 2 ^ k) r ≡ q * 2 ^ k + r
bit_or_fields zero q r fits = ground (arith, bit_or_nil (q * 1))
  where
    digits_nil : (n x : ℕ) → x ≤ n → digits (λ t. t) max n x 0 ≡ x
    digits_nil zero zero h = refl
    digits_nil zero (suc x) h = absurd (omega arith)
    digits_nil (suc n) zero h = refl
    digits_nil (suc n) (suc x) h = omega (arith, digits_nil n (suc x / 2) (omega arith))

    bit_or_nil : (x : ℕ) → bit_or x 0 ≡ x
    bit_or_nil x = bit_or-bitwise x 0 ∙ digits_nil x x (omega arith)
bit_or_fields (suc k) q r fits = ground (
  arith,
  bit_or_step (q * 2 ^ suc k) r,
  mul-two_pow_suc q k,
  two_pow_suc k,
  bit_or_fields k q (r / 2) (omega (arith, two_pow_suc k)),
)

-- An or with a shifted number leaves the bits below.
pub bit_or-shifted_fields :
    (k b r m : ℕ) → r < 2 ^ k → bit_or (b * 2 ^ k + r) (m * 2 ^ k) ≡ bit_or b m * 2 ^ k + r
bit_or-shifted_fields zero b r m fits = ground (arith, one (b * 1 + r) b (omega arith))
  where
    one : (x y : ℕ) → x ≡ y → bit_or x (m * 1) ≡ bit_or y m * 1
    one x y e = cc (e, mul-one m, mul-one (bit_or y m))
bit_or-shifted_fields (suc k) b r m fits = ground (
  arith,
  bit_or_step (b * 2 ^ suc k + r) (m * 2 ^ suc k),
  mul-two_pow_suc b k,
  mul-two_pow_suc m k,
  mul-two_pow_suc (bit_or b m) k,
  two_pow_suc k,
  bit_or-shifted_fields k b (r / 2) m (omega (arith, two_pow_suc k)),
)
