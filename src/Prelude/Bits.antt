-- ===== src/Prelude/Bits.antt =====
-- Bits of machine words: BIT(n), tests and masks, and what `|`, `&` and `^` do to each bit.
use Prim.Native.Nat.{
  ℕ, zero, suc, ◌+◌, ◌*◌, ◌/◌, ◌%◌, ◌^◌, ◌≤◌, ◌<◌, min, max, digits, bit_and, bit_or, bit_xor,
  bit_and-bitwise, bit_or-bitwise, bit_xor-bitwise, differ,
}
use mathlib.Core.Path.{◌≡◌, refl}
use mathlib.Core.Bool.{Bool, true, false, not, ◌&&◌, ◌||◌, xor}
use native.Mathlib.Omega.{arith}
use native.Mathlib.Nat.{pow-suc}
use blue_retro_forever.Prelude.Tests.{◌==◌}

abbrev pub u8 : ℕ → ℕ
u8 n = n % 2 ^ 8

abbrev pub u16 : ℕ → ℕ
u16 n = n % 2 ^ 16

abbrev pub u32 : ℕ → ℕ
u32 n = n % 2 ^ 32

-- BIT(n)
abbrev pub bit : ℕ → ℕ
bit n = 2 ^ n

-- `~m` on 32 bits
abbrev pub not32 : ℕ → ℕ
not32 m = bit_xor 0xffff_ffff m

-- `(x >> k) & 1`
unfoldable pub test_bit : ℕ → ℕ → Bool
test_bit x zero = x % 2 == 1
test_bit x (suc k) = test_bit (x / 2) k

-- The two operands lose their lowest digit together.
module _ (z : ℕ → ℕ) (f : ℕ → ℕ → ℕ) where
  enough : (n k a b : ℕ) → a ≤ n → a ≤ k → digits z f n a b ≡ digits z f k a b
  enough zero zero zero b h g = refl
  enough zero zero (suc a) b h g = absurd (omega arith)
  enough zero (suc k) zero b h g = refl
  enough zero (suc k) (suc a) b h g = absurd (omega arith)
  enough (suc n) zero zero b h g = refl
  enough (suc n) zero (suc a) b h g = absurd (omega arith)
  enough (suc n) (suc k) zero b h g = refl
  enough (suc n) (suc k) (suc a) b h g =
      omega (arith, enough n k (suc a / 2) (b / 2) (omega arith) (omega arith))

  lowest :
      (a b : ℕ)
      → digits z f (suc a) (suc a) b
        ≡ digits z f (suc a / 2) (suc a / 2) (b / 2) * 2 + f (suc a % 2) (b % 2)
  lowest a b = omega (arith, enough a (suc a / 2) (suc a / 2) (b / 2) (omega arith) (omega arith))

pub bit_and_step : (x y : ℕ) → bit_and x y ≡ min (x % 2) (y % 2) + bit_and (x / 2) (y / 2) * 2
bit_and_step zero y = simp bit_and-bitwise (omega arith)
bit_and_step (suc x) y = omega (arith, and_lowest)
  where
    and_lowest : bit_and (suc x) y ≡ bit_and (suc x / 2) (y / 2) * 2 + min (suc x % 2) (y % 2)
    and_lowest = simp bit_and-bitwise (lowest (λ _. 0) min x y)

pub bit_xor_step : (x y : ℕ) → bit_xor x y ≡ differ (x % 2) (y % 2) + bit_xor (x / 2) (y / 2) * 2
bit_xor_step zero y = simp bit_xor-bitwise (omega arith)
bit_xor_step (suc x) y = omega (arith, xor_lowest)
  where
    xor_lowest : bit_xor (suc x) y ≡ bit_xor (suc x / 2) (y / 2) * 2 + differ (suc x % 2) (y % 2)
    xor_lowest = simp bit_xor-bitwise (lowest (λ r. r) differ x y)

pub bit_or_step : (x y : ℕ) → bit_or x y ≡ max (x % 2) (y % 2) + bit_or (x / 2) (y / 2) * 2
bit_or_step zero y = simp bit_or-bitwise (omega arith)
bit_or_step (suc x) y = omega (arith, or_lowest)
  where
    or_lowest : bit_or (suc x) y ≡ bit_or (suc x / 2) (y / 2) * 2 + max (suc x % 2) (y % 2)
    or_lowest = simp bit_or-bitwise (lowest (λ r. r) max x y)

-- Each bit of a result is the operation on the two bits.
pub test_bit-or : (a b k : ℕ) → test_bit (bit_or a b) k ≡ test_bit a k || test_bit b k
unfolding test_bit
test_bit-or a b zero = ground (arith, bit_or_step a b)
test_bit-or a b (suc k) =
    let e : bit_or a b / 2 ≡ bit_or (a / 2) (b / 2) = omega (arith, bit_or_step a b) in
    rw e (test_bit-or (a / 2) (b / 2) k)

pub test_bit-and : (a b k : ℕ) → test_bit (bit_and a b) k ≡ test_bit a k && test_bit b k
unfolding test_bit
test_bit-and a b zero = ground (arith, bit_and_step a b)
test_bit-and a b (suc k) =
    let e : bit_and a b / 2 ≡ bit_and (a / 2) (b / 2) = omega (arith, bit_and_step a b) in
    rw e (test_bit-and (a / 2) (b / 2) k)

differ_lt : (a b : ℕ) → a < 2 → b < 2 → differ a b < 2
differ_lt zero b h g = g
differ_lt (suc zero) zero h g = omega arith
differ_lt (suc zero) (suc b) h g = omega arith
differ_lt (suc (suc a)) b h g = absurd (omega arith)

differ_test : (a b : ℕ) → a < 2 → b < 2 → (differ a b == 1) ≡ xor (a == 1) (b == 1)
unfolding xor
differ_test zero zero h g = refl
differ_test zero (suc zero) h g = refl
differ_test zero (suc (suc b)) h g = absurd (omega arith)
differ_test (suc zero) zero h g = refl
differ_test (suc zero) (suc zero) h g = refl
differ_test (suc zero) (suc (suc b)) h g = absurd (omega arith)
differ_test (suc (suc a)) b h g = absurd (omega arith)

pub test_bit-xor : (a b k : ℕ) → test_bit (bit_xor a b) k ≡ xor (test_bit a k) (test_bit b k)
unfolding test_bit
test_bit-xor a b zero =
    let small = differ_lt (a % 2) (b % 2) (omega arith) (omega arith) in
    let e : bit_xor a b % 2 ≡ differ (a % 2) (b % 2) = omega (arith, bit_xor_step a b) in
    rw e (differ_test (a % 2) (b % 2) (omega arith) (omega arith))
test_bit-xor a b (suc k) =
    let small = differ_lt (a % 2) (b % 2) (omega arith) (omega arith) in
    let e : bit_xor a b / 2 ≡ bit_xor (a / 2) (b / 2) = omega (arith, bit_xor_step a b) in
    rw e (test_bit-xor (a / 2) (b / 2) k)

pub test_bit-zero : (k : ℕ) → test_bit 0 k ≡ false
unfolding test_bit
test_bit-zero zero = refl
test_bit-zero (suc k) = test_bit-zero k

-- BIT(n) has the bit `n` and no other.
pub test_bit-bit : (n k : ℕ) → test_bit (bit n) k ≡ (n == k)
unfolding test_bit
test_bit-bit zero zero = refl
test_bit-bit zero (suc k) = ground (arith, test_bit-zero k)
test_bit-bit (suc n) zero = ground (arith, pow-suc 2 n)
test_bit-bit (suc n) (suc k) =
    let e : 2 ^ suc n / 2 ≡ 2 ^ n = omega (arith, pow-suc 2 n) in
    rw e (ground (arith, test_bit-bit n k))

-- Below the modulus there is nothing above the width.
pub test_bit-of_lt : (w k x : ℕ) → x < 2 ^ w → w ≤ k → test_bit x k ≡ false
unfolding test_bit
test_bit-of_lt zero zero x h g = ground arith
test_bit-of_lt zero (suc k) x h g = let e : x / 2 ≡ 0 = omega arith in rw e (test_bit-zero k)
test_bit-of_lt (suc w) zero x h g = absurd (omega arith)
test_bit-of_lt (suc w) (suc k) x h g =
    test_bit-of_lt w k (x / 2) (omega (arith, pow-suc 2 w)) (omega arith)

-- A number is zero exactly when it has no bit.
pub bits_zero : (w x : ℕ) → x < 2 ^ w → ((k : ℕ) → test_bit x k ≡ false) → x ≡ 0
unfolding test_bit
bits_zero zero x h all = omega arith
bits_zero (suc w) x h all =
    let e = bits_zero w (x / 2) (omega (arith, pow-suc 2 w)) (λ k. all (suc k)) in
    ground (arith, all 0)

-- Two words with the same bits are the same.
pub bits_ext : (w x y : ℕ) → x < 2 ^ w → y < 2 ^ w → ((k : ℕ) → test_bit x k ≡ test_bit y k) → x ≡ y
unfolding test_bit
bits_ext zero x y h g all = omega arith
bits_ext (suc w) x y h g all =
    let e =
      bits_ext w (x / 2) (y / 2) (omega (arith, pow-suc 2 w)) (omega (arith, pow-suc 2 w))
        (λ k. all (suc k)) in
    ground (arith, all 0)

unfoldable pub all_below : ℕ → (ℕ → Bool) → Bool
all_below zero test = true
all_below (suc m) test = test m && all_below m test

pub all_below_sound :
    (m : ℕ) (test : ℕ → Bool) (i : ℕ) → all_below m test ≡ true → i < m → test i ≡ true
unfolding all_below
all_below_sound zero test i all lt = absurd (omega arith)
all_below_sound (suc m) test i all lt = ground (arith, all_below_sound m test i)

ones_table : all_below 32 (λ k. test_bit 0xffff_ffff k) ≡ true
unfolding all_below test_bit
ones_table = refl

-- atomic_set_bit: `*target |= BIT(n)`
unfoldable pub set_bit : ℕ → ℕ → ℕ
set_bit x n = bit_or x (bit n)

-- atomic_clear_bit: `*target &= ~BIT(n)`
unfoldable pub clear_bit : ℕ → ℕ → ℕ
clear_bit x n = bit_and x (not32 (bit n))

pub test_bit-set_bit : (x n k : ℕ) → test_bit (set_bit x n) k ≡ test_bit x k || (n == k)
unfolding set_bit
test_bit-set_bit x n k = rw (test_bit-or x (bit n) k, test_bit-bit n k)

pub test_bit-clear_bit :
    (x n k : ℕ) → k < 32 → test_bit (clear_bit x n) k ≡ test_bit x k && not (n == k)
unfolding clear_bit xor
test_bit-clear_bit x n k h = ground (
  arith,
  test_bit-and x (not32 (bit n)) k,
  test_bit-xor 0xffff_ffff (bit n) k,
  test_bit-bit n k,
  all_below_sound 32 (λ i. test_bit 0xffff_ffff i) k ones_table h,
)

-- `x & m`, as a condition
abbrev pub meets : ℕ → ℕ → Bool
meets x m = not (bit_and x m == 0)

bit_and_zero : (x : ℕ) → bit_and 0 x ≡ 0
bit_and_zero x = simp bit_and-bitwise refl

-- A word without the bit `n` meets BIT(n) in nothing.
pub bit_and-bit : (n x : ℕ) → test_bit x n ≡ false → bit_and (bit n) x ≡ 0
unfolding test_bit
bit_and-bit zero x h = ground (arith, bit_and_step 1 x, bit_and_zero (x / 2))
bit_and-bit (suc n) x h =
    let e : 2 ^ suc n / 2 ≡ 2 ^ n = omega (arith, pow-suc 2 n) in
    let e' : 2 ^ suc n % 2 ≡ 0 = omega (arith, pow-suc 2 n) in
    let r : bit_and (2 ^ suc n / 2) (x / 2) ≡ 0 = rw e (bit_and-bit n (x / 2) h) in
    omega (arith, bit_and_step (2 ^ suc n) x, r, e')

pub test_bit-not32 : (m k : ℕ) → k < 32 → test_bit (not32 m) k ≡ not (test_bit m k)
unfolding xor
test_bit-not32 m k lt = ground (
  arith,
  test_bit-xor 0xffff_ffff m k,
  all_below_sound 32 (λ i. test_bit 0xffff_ffff i) k ones_table lt,
)
