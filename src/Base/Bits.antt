-- ===== src/Base/Bits.antt =====
-- Bitwise operations at variables: `|` of disjoint fields is a sum, `&` with a low mask is a
-- remainder, `^` undoes itself and stays within a width.
use Prim.Native.Nat.{
  ℕ, zero, suc, ◌+◌, ◌-◌, ◌*◌, ◌/◌, ◌%◌, ◌^◌, ◌≤◌, ◌<◌, min, max, digits, differ, bit_and, bit_or,
  bit_xor, bit_and-bitwise, bit_or-bitwise, bit_xor-bitwise,
}
use mathlib.Core.Path.{◌≡◌, refl, ap}
use mathlib.Core.Bool.{Bool, true, ◌&&◌}
use native.Mathlib.Nat.{pow-suc, one-le-pow}
use native.Mathlib.Omega.{arith}

-- More fuel than the first number changes nothing.
digits_enough :
    (z : ℕ → ℕ) (f : ℕ → ℕ → ℕ) (m n a b : ℕ) → a ≤ m → a ≤ n → digits z f m a b ≡ digits z f n a b
digits_enough z f zero zero zero b p q = refl
digits_enough z f (suc m) zero zero b p q = refl
digits_enough z f zero (suc n) zero b p q = refl
digits_enough z f (suc m) (suc n) zero b p q = refl
digits_enough z f zero n (suc a) b p q = absurd (omega arith)
digits_enough z f (suc m) zero (suc a) b p q = absurd (omega arith)
digits_enough z f (suc m) (suc n) (suc a) b p q =
    omega (arith, digits_enough z f m n (suc a / 2) (b / 2) (omega arith) (omega arith))

pub bit_or_step : (a b : ℕ) → bit_or a b ≡ bit_or (a / 2) (b / 2) * 2 + max (a % 2) (b % 2)
bit_or_step zero b = omega (arith, bit_or-bitwise 0 b, bit_or-bitwise 0 (b / 2))
bit_or_step (suc a) b = omega (
  arith,
  bit_or-bitwise (suc a) b,
  bit_or-bitwise (suc a / 2) (b / 2),
  digits_enough (λ y. y) max a (suc a / 2) (suc a / 2) (b / 2) (omega arith) (omega arith),
)

pub bit_and_step : (a b : ℕ) → bit_and a b ≡ bit_and (a / 2) (b / 2) * 2 + min (a % 2) (b % 2)
bit_and_step zero b = omega (arith, bit_and-bitwise 0 b, bit_and-bitwise 0 (b / 2))
bit_and_step (suc a) b = omega (
  arith,
  bit_and-bitwise (suc a) b,
  bit_and-bitwise (suc a / 2) (b / 2),
  digits_enough (λ y. 0) min a (suc a / 2) (suc a / 2) (b / 2) (omega arith) (omega arith),
)

pub bit_xor_step : (a b : ℕ) → bit_xor a b ≡ bit_xor (a / 2) (b / 2) * 2 + differ (a % 2) (b % 2)
bit_xor_step zero b = omega (arith, bit_xor-bitwise 0 b, bit_xor-bitwise 0 (b / 2))
bit_xor_step (suc a) b = omega (
  arith,
  bit_xor-bitwise (suc a) b,
  bit_xor-bitwise (suc a / 2) (b / 2),
  digits_enough (λ y. y) differ a (suc a / 2) (suc a / 2) (b / 2) (omega arith) (omega arith),
)

bit_or-zero_upto : (n a : ℕ) → a ≤ n → bit_or a 0 ≡ a
bit_or-zero_upto n zero h = refl
bit_or-zero_upto zero (suc a) h = absurd (omega arith)
bit_or-zero_upto (suc n) (suc a) h =
    omega (arith, bit_or_step (suc a) 0, bit_or-zero_upto n (suc a / 2) (omega arith))

twice_shifted : (q k : ℕ) → q * 2 ^ suc k ≡ 2 * (q * 2 ^ k)
twice_shifted q k = omega (arith, ap (λ (t : ℕ). q * t) (pow-suc 2 k))

-- `(q << k) | r` where `r` has at most `k` bits.
pub bit_or_fields : (k q r : ℕ) → r < 2 ^ k → bit_or (q * 2 ^ k) r ≡ q * 2 ^ k + r
bit_or_fields zero q r h = ground (arith, bit_or-zero_upto q q)
bit_or_fields (suc k) q r h = ground (
  arith,
  twice_shifted q k,
  pow-suc 2 k,
  bit_or_step (q * 2 ^ suc k) r,
  bit_or_fields k q (r / 2) (omega (arith, pow-suc 2 k)),
)

bit_and-zero_upto : (n a : ℕ) → a ≤ n → bit_and a 0 ≡ 0
bit_and-zero_upto n zero h = refl
bit_and-zero_upto zero (suc a) h = absurd (omega arith)
bit_and-zero_upto (suc n) (suc a) h =
    omega (arith, bit_and_step (suc a) 0, bit_and-zero_upto n (suc a / 2) (omega arith))

bit_and_split : (k q r : ℕ) → r < 2 ^ k → bit_and (q * 2 ^ k + r) (2 ^ k - 1) ≡ r
bit_and_split zero q r h = ground (arith, bit_and-zero_upto (q * 1 + r) (q * 1 + r))
bit_and_split (suc k) q r h = ground (
  arith,
  twice_shifted q k,
  pow-suc 2 k,
  one-le-pow k 2,
  bit_and_step (q * 2 ^ suc k + r) (2 ^ suc k - 1),
  bit_and_split k q (r / 2) (omega (arith, pow-suc 2 k)),
)

-- `a & (2^k - 1)`.
pub bit_and_mask : (k a : ℕ) → bit_and a (2 ^ k - 1) ≡ a % 2 ^ k
bit_and_mask k a = ground (arith, one-le-pow k 2, bit_and_split k (a / 2 ^ k) (a % 2 ^ k))

differ_bit : (x y : ℕ) → x < 2 → y < 2 → differ x y ≡ (x + y) % 2
differ_bit zero y h k = omega arith
differ_bit (suc zero) zero h k = refl
differ_bit (suc zero) (suc zero) h k = refl
differ_bit (suc zero) (suc (suc y)) h k = absurd (omega arith)
differ_bit (suc (suc x)) y h k = absurd (omega arith)

bit_xor_digit : (a b : ℕ) → bit_xor a b ≡ bit_xor (a / 2) (b / 2) * 2 + (a % 2 + b % 2) % 2
bit_xor_digit a b =
    omega (arith, bit_xor_step a b, differ_bit (a % 2) (b % 2) (omega arith) (omega arith))

-- A mask applied twice is gone.
bit_xor_twice_upto : (n a b : ℕ) → a < 2 ^ n → b < 2 ^ n → bit_xor (bit_xor a b) b ≡ a
bit_xor_twice_upto zero zero zero h k = refl
bit_xor_twice_upto zero zero (suc b) h k = absurd (omega arith)
bit_xor_twice_upto zero (suc a) b h k = absurd (omega arith)
bit_xor_twice_upto (suc n) a b h k =
    let half : bit_xor a b / 2 ≡ bit_xor (a / 2) (b / 2) = omega (arith, bit_xor_digit a b) in
    let low : bit_xor a b % 2 ≡ (a % 2 + b % 2) % 2 = omega (arith, bit_xor_digit a b) in
    let ih : bit_xor (bit_xor a b / 2) (b / 2) ≡ a / 2 = rw half (
      bit_xor_twice_upto n (a / 2) (b / 2) (omega (arith, pow-suc 2 n))
        (omega (arith, pow-suc 2 n))) in
    omega (arith, bit_xor_digit (bit_xor a b) b, ih, low)

pub bit_xor_twice : (a b : ℕ) → a < 256 → b < 256 → bit_xor (bit_xor a b) b ≡ a
bit_xor_twice a b h k = bit_xor_twice_upto 8 a b h k

bit_xor-lt_upto : (n a b : ℕ) → a < 2 ^ n → b < 2 ^ n → bit_xor a b < 2 ^ n
bit_xor-lt_upto zero zero zero h k = omega arith
bit_xor-lt_upto zero zero (suc b) h k = absurd (omega arith)
bit_xor-lt_upto zero (suc a) b h k = absurd (omega arith)
bit_xor-lt_upto (suc n) a b h k = omega (
  arith,
  pow-suc 2 n,
  bit_xor_digit a b,
  bit_xor-lt_upto n (a / 2) (b / 2) (omega (arith, pow-suc 2 n)) (omega (arith, pow-suc 2 n)),
)

pub bit_xor-lt : (a b : ℕ) → a < 256 → b < 256 → bit_xor a b < 256
bit_xor-lt a b h k = bit_xor-lt_upto 8 a b h k

-- `a ^ 0`.
pub bit_xor-zero : (a : ℕ) → bit_xor a 0 ≡ a
bit_xor-zero a = upto a a (omega arith)
  where
    upto : (n a : ℕ) → a ≤ n → bit_xor a 0 ≡ a
    upto n zero h = refl
    upto zero (suc a) h = absurd (omega arith)
    upto (suc n) (suc a) h =
        omega (arith, bit_xor_digit (suc a) 0, upto n (suc a / 2) (omega arith))

-- Over a small range a law is checked at every value.
unfoldable pub all_below : ℕ → (ℕ → Bool) → Bool
all_below zero p = true
all_below (suc n) p = p n && all_below n p

pub all_below_sound : (n : ℕ) (p : ℕ → Bool) (x : ℕ) → all_below n p ≡ true → x < n → p x ≡ true
unfolding all_below
all_below_sound zero p x h k = absurd (omega arith)
all_below_sound (suc n) p x h k = ground (arith, all_below_sound n p x)
