-- ===== src/Prelude/Fields.antt =====
-- Bits of sums of fields, of shifts and of masks.
use Prim.Native.Nat.{ℕ, zero, suc, ◌+◌, ◌-◌, ◌*◌, ◌/◌, ◌%◌, ◌^◌, ◌≤◌, ◌<◌, bit_and, bit_or}
use mathlib.Core.Path.{◌≡◌, refl, sym, ◌∙◌, ap}
use mathlib.Core.Bool.{true}
use native.Mathlib.Omega.{arith}
use native.Mathlib.Nat.{pow-suc, div-div-eq-div-mul}
use blue_retro_forever.Prelude.Tests.{◌==◌, ltb, ==_iff}
use blue_retro_forever.Prelude.Bits.{
  test_bit, bit_and_step, bit_or_step, all_below, all_below_sound, not32, test_bit-zero,
}
use blue_retro_forever.Prelude.Meets.{bit_and-zero}

halve : (n a b : ℕ) → (a + 2 ^ suc n * b) / 2 ≡ a / 2 + 2 ^ n * b
halve n a b =
    let e : 2 ^ suc n * b ≡ 2 * (2 ^ n * b) = ap (λ (t : ℕ). t * b) (pow-suc 2 n) ∙ grind arith in
    omega (arith, e)

even_part : (n a b : ℕ) → (a + 2 ^ suc n * b) % 2 ≡ a % 2
even_part n a b =
    let e : 2 ^ suc n * b ≡ 2 * (2 ^ n * b) = ap (λ (t : ℕ). t * b) (pow-suc 2 n) ∙ grind arith in
    omega (arith, e)

pub positive : (n : ℕ) → 1 ≤ 2 ^ n
positive zero = omega arith
positive (suc n) = omega (arith, pow-suc 2 n, positive n)

-- The bits below a field are those of what lies below it.
pub test_bit-below : (n k a b : ℕ) → k < n → test_bit (a + 2 ^ n * b) k ≡ test_bit a k
unfolding test_bit
test_bit-below zero k a b h = absurd (omega arith)
test_bit-below (suc n) zero a b h = rw (even_part n a b) refl
test_bit-below (suc n) (suc k) a b h = rw (halve n a b) (test_bit-below n k (a / 2) b (omega arith))

-- A field that starts at the bit `n`.
pub test_bit-above : (n k a b : ℕ) → a < 2 ^ n → test_bit (a + 2 ^ n * b) (n + k) ≡ test_bit b k
unfolding test_bit
test_bit-above zero k a b h =
    let e : a + 2 ^ 0 * b ≡ b = omega arith in let e' : 0 + k ≡ k = omega arith in rw (e, e') refl
test_bit-above (suc n) k a b h =
    let e : suc n + k ≡ suc (n + k) = omega arith in
    ap (test_bit (a + 2 ^ suc n * b)) e
    ∙ ap (λ y. test_bit y (n + k)) (halve n a b)
    ∙ test_bit-above n k (a / 2) b (omega (arith, pow-suc 2 n))

pub test_bit-shift : (s k x : ℕ) → test_bit (x / 2 ^ s) k ≡ test_bit x (s + k)
unfolding test_bit
test_bit-shift zero k x =
    let e : x / 2 ^ 0 ≡ x = omega arith in let e' : 0 + k ≡ k = omega arith in rw (e, e') refl
test_bit-shift (suc s) k x =
    let e : x / 2 ^ suc s ≡ x / 2 / 2 ^ s =
      ap (λ (t : ℕ). x / t) (pow-suc 2 s ∙ grind arith) ∙ sym (div-div-eq-div-mul x 2 (2 ^ s)) in
    let e' : suc s + k ≡ suc (s + k) = omega arith in
    ap (λ y. test_bit y k) e ∙ test_bit-shift s k (x / 2) ∙ sym (ap (test_bit x) e')

pub test_bit-mask : (n k : ℕ) → test_bit (2 ^ n - 1) k ≡ ltb k n
unfolding test_bit
test_bit-mask zero k = test_bit-zero k ∙ ground arith
test_bit-mask (suc n) zero = ground (arith, pow-suc 2 n, positive n)
test_bit-mask (suc n) (suc k) =
    let e : (2 ^ suc n - 1) / 2 ≡ 2 ^ n - 1 = omega (arith, pow-suc 2 n, positive n) in
    rw e (test_bit-mask n k ∙ ground arith)

or_zero_below : (n z : ℕ) → z ≤ n → bit_or 0 z ≡ z
or_zero_below zero z h = let e : z ≡ 0 = omega arith in rw e refl
or_zero_below (suc n) z h = omega (arith, bit_or_step 0 z, or_zero_below n (z / 2) (omega arith))

-- `bit_or` of parts that do not meet is their sum.
pub bit_or-above : (n x y : ℕ) → x < 2 ^ n → bit_or x (y * 2 ^ n) ≡ x + y * 2 ^ n
bit_or-above zero x y h =
    let e : x ≡ 0 = omega arith in
    let e' : y * 2 ^ 0 ≡ y = omega arith in
    ap (λ t. bit_or t (y * 2 ^ 0)) e
    ∙ ap (bit_or 0) e'
    ∙ or_zero_below y y (omega arith)
    ∙ omega arith
bit_or-above (suc n) x y h =
    let e : y * 2 ^ suc n ≡ 2 * (y * 2 ^ n) = ap (λ (t : ℕ). y * t) (pow-suc 2 n) ∙ grind arith in
    let h' : x / 2 < 2 ^ n = omega (arith, pow-suc 2 n) in
    let e' : y * 2 ^ suc n / 2 ≡ y * 2 ^ n = omega (arith, e) in
    let r : bit_or (x / 2) (y * 2 ^ suc n / 2) ≡ bit_or (x / 2) (y * 2 ^ n) =
      ap (bit_or (x / 2)) e' in
    omega (arith, bit_or_step x (y * 2 ^ suc n), r, bit_or-above n (x / 2) y h', e)

-- Above a mask everything is set.
not_mask_table : all_below 33 (λ n. not32 (2 ^ n - 1) == (2 ^ (32 - n) - 1) * 2 ^ n) ≡ true
unfolding all_below
not_mask_table = refl

pub not32-mask : (n : ℕ) → n ≤ 32 → not32 (2 ^ n - 1) ≡ (2 ^ (32 - n) - 1) * 2 ^ n
not32-mask n h = (==_iff (not32 (2 ^ n - 1)) ((2 ^ (32 - n) - 1) * 2 ^ n)).0 (
    all_below_sound 33 (λ k. not32 (2 ^ k - 1) == (2 ^ (32 - k) - 1) * 2 ^ k) n not_mask_table
      (omega arith))

-- `x & 0x1f`
pub bit_and-31 : (x : ℕ) → bit_and x 0x1f ≡ x % 32
bit_and-31 x = omega (
  arith,
  bit_and_step x 31,
  bit_and_step (x / 2) 15,
  bit_and_step (x / 2 / 2) 7,
  bit_and_step (x / 2 / 2 / 2) 3,
  bit_and_step (x / 2 / 2 / 2 / 2) 1,
  bit_and-zero (x / 2 / 2 / 2 / 2 / 2),
)
