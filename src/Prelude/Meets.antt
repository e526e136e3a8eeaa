-- ===== src/Prelude/Meets.antt =====
-- `x & BIT(n)` as a condition is the bit `n` of `x`.
use Prim.Native.Nat.{ℕ, zero, suc, ◌*◌, ◌/◌, ◌%◌, ◌^◌, ◌≤◌, bit_and}
use mathlib.Core.Path.{◌≡◌, refl}
use native.Mathlib.Omega.{arith}
use native.Mathlib.Nat.{pow-suc}
use blue_retro_forever.Prelude.Bits.{bit, meets, test_bit, bit_and_step}

and_zero_below : (n x : ℕ) → x ≤ n → bit_and x 0 ≡ 0
and_zero_below zero x h = omega (arith, bit_and_step x 0, no_bits x h)
  where
    no_bits : (y : ℕ) → y ≤ 0 → bit_and (y / 2) (0 / 2) ≡ 0
    no_bits y g = let e : y / 2 ≡ 0 = omega arith in rw e refl
and_zero_below (suc n) x h = omega (arith, bit_and_step x 0, and_zero_below n (x / 2) (omega arith))

pub bit_and-zero : (x : ℕ) → bit_and x 0 ≡ 0
bit_and-zero x = and_zero_below x x (omega arith)

pub meets-bit : (n x : ℕ) → meets x (bit n) ≡ test_bit x n
unfolding test_bit
meets-bit zero x = ground (arith, bit_and_step x 1, bit_and-zero (x / 2))
meets-bit (suc n) x =
    let half : 2 ^ suc n / 2 ≡ 2 ^ n = omega (arith, pow-suc 2 n) in
    let even : 2 ^ suc n % 2 ≡ 0 = omega (arith, pow-suc 2 n) in
    let rest : bit_and (x / 2) (2 ^ suc n / 2) ≡ bit_and (x / 2) (2 ^ n) = rw half refl in
    let e : bit_and x (2 ^ suc n) ≡ bit_and (x / 2) (2 ^ n) * 2 =
      omega (arith, bit_and_step x (2 ^ suc n), rest, even) in
    rw e (ground (arith, meets-bit n (x / 2)))
