-- ===== src/Base/Bits.antt =====
-- `&` and `|` on numbers of any width, by their lowest digit, and masks as arithmetic.
mod Digit
use Digit.{and_digit, or_digit, bit_and_zero_left, bit_or_zero_left}
use Prim.Native.Nat.{ℕ, zero, suc, ◌+◌, ◌-◌, ◌*◌, ◌/◌, ◌%◌, ◌^◌, ◌<◌, ◌≤◌, bit_and, bit_or}
use mathlib.Core.Path.{◌≡◌, refl, ap}
use mathlib.Core.Bool.{Bool, true, not, ◌&&◌, ◌||◌}
use project_base_learning.Base.Tests.{ltb, ◌==◌, if◌then◌else◌, ==→eq}
use native.Mathlib.Nat.{pow-suc, one-le-pow}
use native.Mathlib.Omega.{arith}

-- Strong induction, as a recursion on a bound.
pub bit_and-zero : (bound a : ℕ) → a ≤ bound → bit_and a 0 ≡ 0
bit_and-zero bound zero h = refl
bit_and-zero zero (suc a) h = elim h [ ]
bit_and-zero (suc bound) (suc a) h =
    omega (arith, and_digit (suc a) 0, bit_and-zero bound (suc a / 2) (omega arith))

pub bit_or-zero : (bound a : ℕ) → a ≤ bound → bit_or a 0 ≡ a
bit_or-zero bound zero h = refl
bit_or-zero zero (suc a) h = elim h [ ]
bit_or-zero (suc bound) (suc a) h =
    omega (arith, or_digit (suc a) 0, bit_or-zero bound (suc a / 2) (omega arith))

double : (q k : ℕ) → q * 2 ^ suc k ≡ 2 * (q * 2 ^ k)
double q k = omega (arith, ap (λ (t : ℕ). q * t) (pow-suc 2 k))

-- A mask that leaves out the `k` low bits acts on what stands above them.
pub bit_and_high :
    (k q r mask : ℕ) → r < 2 ^ k → bit_and (q * 2 ^ k + r) (mask * 2 ^ k) ≡ bit_and q mask * 2 ^ k
bit_and_high zero q r mask h = ground arith
bit_and_high (suc k) q r mask h = ground (
  arith,
  and_digit (q * 2 ^ suc k + r) (mask * 2 ^ suc k),
  double q k,
  double mask k,
  double (bit_and q mask) k,
  pow-suc 2 k,
  bit_and_high k q (r / 2) mask (omega (arith, pow-suc 2 k)),
)

-- A mask of the `k` low bits keeps the remainder by `2 ^ k`.
pub bit_and_low : (k q r : ℕ) → r < 2 ^ k → bit_and (q * 2 ^ k + r) (2 ^ k - 1) ≡ r
bit_and_low zero q r h = omega (arith, bit_and-zero (q * 1 + r) (q * 1 + r) (omega arith))
bit_and_low (suc k) q r h = ground (
  arith,
  and_digit (q * 2 ^ suc k + r) (2 ^ suc k - 1),
  double q k,
  pow-suc 2 k,
  one-le-pow k 2,
  bit_and_low k q (r / 2) (omega (arith, pow-suc 2 k)),
)

pub bit_or_high :
    (k q r mask : ℕ) → r < 2 ^ k → bit_or (q * 2 ^ k + r) (mask * 2 ^ k) ≡ bit_or q mask * 2 ^ k + r
bit_or_high zero q r mask h = ground arith
bit_or_high (suc k) q r mask h = ground (
  arith,
  or_digit (q * 2 ^ suc k + r) (mask * 2 ^ suc k),
  double q k,
  double mask k,
  double (bit_or q mask) k,
  pow-suc 2 k,
  bit_or_high k q (r / 2) mask (omega (arith, pow-suc 2 k)),
)

pub bit_and_one : (a : ℕ) → bit_and a 1 ≡ a % 2
bit_and_one a = omega (arith, and_digit a 1, bit_and-zero (a / 2) (a / 2) (omega arith))

-- Checking every value below a bound by evaluation.
unfoldable pub all_below : ℕ → (ℕ → Bool) → Bool
all_below zero p = true
all_below (suc n) p = p n && all_below n p

pub all_below_sound : (n : ℕ) (p : ℕ → Bool) (x : ℕ) → all_below n p ≡ true → x < n → p x ≡ true
unfolding all_below
all_below_sound zero p x h lt = elim lt [ ]
all_below_sound (suc n) p x h lt = ground (arith, all_below_sound n p x)

-- `a & 0x3ff`.
pub bit_and_1023 : (a : ℕ) → bit_and a 0x3ff ≡ a % 1024
bit_and_1023 a = ground (arith, bit_and_low 10 (a / 1024) (a % 1024))

-- `a | 1`.
pub bit_or_one : (a : ℕ) → bit_or a 1 ≡ a / 2 * 2 + 1
bit_or_one a = omega (arith, or_digit a 1, bit_or-zero (a / 2) (a / 2) (omega arith))

-- Bit `i` of a number.
abbrev pub bit : ℕ → ℕ → ℕ
bit b i = b / 2 ^ i % 2

-- The byte operations of the bitmap, over all bytes and places.
test_table : all_below 256 (λ b. all_below 8 (λ i. bit_and b (2 ^ i) == bit b i * 2 ^ i)) ≡ true
unfolding all_below
test_table = refl

set_table :
    all_below 256 (λ b. all_below 8 (λ i. all_below 8 (λ j.
      ltb (bit_or b (2 ^ i)) 256 && bit (bit_or b (2 ^ i)) j == (if i == j then 1 else bit b j))))
    ≡ true
unfolding all_below
set_table = refl

clear_table :
    all_below 256 (λ b. all_below 8 (λ i. all_below 8 (λ j.
      bit (bit_and b (2 ^ 32 - 1 - 2 ^ i)) j == (if i == j then 0 else bit b j)
      && ltb (bit_and b (2 ^ 32 - 1 - 2 ^ i)) 256)))
    ≡ true
unfolding all_below
clear_table = refl

pub bit_and-byte : (b i : ℕ) → b < 256 → i < 8 → bit_and b (2 ^ i) ≡ bit b i * 2 ^ i
bit_and-byte b i hb hi =
    ==→eq _ _ (all_below_sound 8 _ i (all_below_sound 256 _ b test_table hb) hi)

pub bit_or-byte :
    (b i j : ℕ)
    → b < 256
    → i < 8
    → j < 8
    → (bit_or b (2 ^ i) < 256) × (bit (bit_or b (2 ^ i)) j ≡ (if i == j then 1 else bit b j))
bit_or-byte b i j hb hi hj =
    let row =
      all_below_sound 8 _ j (all_below_sound 8 _ i (all_below_sound 256 _ b set_table hb) hi) hj in
    ground (arith, row)

pub bit_and-byte_clear :
    (b i j : ℕ)
    → b < 256
    → i < 8
    → j < 8
    → (bit_and b (2 ^ 32 - 1 - 2 ^ i) < 256)
      × (bit (bit_and b (2 ^ 32 - 1 - 2 ^ i)) j ≡ (if i == j then 0 else bit b j))
bit_and-byte_clear b i j hb hi hj =
    let row =
      all_below_sound 8 _ j (all_below_sound 8 _ i (all_below_sound 256 _ b clear_table hb) hi)
        hj in
    ground (arith, row)

-- A mask that has been cut to a byte, as it is shifted out of it.
shifted_table :
    all_below 256 (λ b. all_below 9 (λ i.
      let masked = bit_and (1 * 2 ^ i % 2 ^ 8) b in
      if i == 8 || bit b i == 0 then masked == 0 else not (masked == 0)))
    ≡ true
unfolding all_below
shifted_table = refl

pub bit_and-byte_shifted :
    (b i : ℕ) → b < 256 → i < 9 → (bit_and (1 * 2 ^ i % 2 ^ 8) b == 0) ≡ (i == 8 || bit b i == 0)
bit_and-byte_shifted b i hb hi =
    let row = all_below_sound 9 _ i (all_below_sound 256 _ b shifted_table hb) hi in
    ground (arith, row)

pub zero-bit_and : (b : ℕ) → bit_and 0 b ≡ 0
zero-bit_and b = bit_and_zero_left b

pub bit_and_comm : (bound a b : ℕ) → a ≤ bound → bit_and a b ≡ bit_and b a
bit_and_comm bound zero b h = omega (arith, zero-bit_and b, bit_and-zero b b (omega arith))
bit_and_comm zero (suc a) b h = elim h [ ]
bit_and_comm (suc bound) (suc a) b h = omega (
  arith,
  and_digit (suc a) b,
  and_digit b (suc a),
  bit_and_comm bound (suc a / 2) (b / 2) (omega arith),
)

-- Above and below place `k` a mask acts apart.
pub bit_and_split :
    (k q r mask low : ℕ)
    → r < 2 ^ k
    → low < 2 ^ k
    → bit_and (q * 2 ^ k + r) (mask * 2 ^ k + low) ≡ bit_and q mask * 2 ^ k + bit_and r low
bit_and_split zero q r mask low h i =
    let r_zero : r ≡ 0 = omega arith in
    let low_zero : low ≡ 0 = omega arith in ground (arith, zero-bit_and 0)
bit_and_split (suc k) q r mask low h i = ground (
  arith,
  and_digit (q * 2 ^ suc k + r) (mask * 2 ^ suc k + low),
  and_digit r low,
  double q k,
  double mask k,
  double (bit_and q mask) k,
  pow-suc 2 k,
  bit_and_split k q (r / 2) mask (low / 2) (omega (arith, pow-suc 2 k))
      (omega (arith, pow-suc 2 k)),
)

-- Two fields side by side.
pub bit_or_fields : (k low high : ℕ) → low < 2 ^ k → bit_or low (high * 2 ^ k) ≡ high * 2 ^ k + low
bit_or_fields k low high h = ground (arith, bit_or_high k 0 low high, bit_or_zero_left high)
