-- ===== src/Prelude/Masks.antt =====
-- Or and and of binary digits where the code uses them as sums and remainders.
use Prim.Native.Nat.{
  ℕ, zero, suc, ◌+◌, ◌*◌, ◌/◌, ◌%◌, ◌^◌, ◌≤◌, ◌<◌, min, max, bit_or, bit_or-bitwise, bit_and,
  bit_and-bitwise, digits,
}
use mathlib.Core.Path.{◌≡◌, sym, ap, ◌∙◌}
use native.Mathlib.Nat.{mul_left_comm}
use native.Mathlib.Omega.{arith}
use xedge.Prelude.Xor.{digits-enough}

abbrev keep : ℕ → ℕ
keep b = b

abbrev clear : ℕ → ℕ
clear b = 0

abbrev or_digits : (a b : ℕ) → bit_or a b ≡ digits keep max a a b
or_digits a b = λ i. bit_or-bitwise a b i

abbrev and_digits : (a b : ℕ) → bit_and a b ≡ digits clear min a a b
and_digits a b = λ i. bit_and-bitwise a b i

bit_or-rec : (a b : ℕ) → bit_or a b ≡ bit_or (a / 2) (b / 2) * 2 + max (a % 2) (b % 2)
bit_or-rec zero b = or_digits 0 b ∙ omega (arith, or_digits 0 (b / 2))
bit_or-rec (suc a) b =
    rw
      (
        or_digits (suc a / 2) (b / 2),
        sym (digits-enough keep max a (suc a / 2) (suc a / 2) (b / 2) (omega arith) (omega arith)),
      )
      (or_digits (suc a) b)

bit_and-rec : (a b : ℕ) → bit_and a b ≡ bit_and (a / 2) (b / 2) * 2 + min (a % 2) (b % 2)
bit_and-rec zero b = and_digits 0 b ∙ omega (arith, and_digits 0 (b / 2))
bit_and-rec (suc a) b =
    rw
      (
        and_digits (suc a / 2) (b / 2),
        sym (digits-enough clear min a (suc a / 2) (suc a / 2) (b / 2) (omega arith) (omega arith)),
      )
      (and_digits (suc a) b)

-- Numbers that have no digit in common are added: `z` has none below the digit `k`.
pub bit_or-add : (k x m z : ℕ) → x < 2 ^ k → z ≡ m * 2 ^ k → bit_or x z ≡ x + z
bit_or-add zero x m z h e = let x0 : x ≡ 0 = omega arith in rw x0 (or_digits 0 z ∙ omega arith)
bit_or-add (suc k) x m z h e =
    let power : 2 ^ suc k ≡ 2 * 2 ^ k = omega arith in
    let twice : z ≡ 2 * (m * 2 ^ k) = e ∙ ap (λ p. m * p) power ∙ mul_left_comm m 2 (2 ^ k) in
    omega (arith, bit_or-rec x z, bit_or-add k (x / 2) m (z / 2) (omega arith) (omega arith))

bit_or-zero : (n : ℕ) → bit_or n 0 ≡ n
bit_or-zero n = below n n (omega arith)
  where
    below : (k n : ℕ) → n ≤ k → bit_or n 0 ≡ n
    below zero n h = let n0 : n ≡ 0 = omega arith in rw n0 (or_digits 0 0)
    below (suc k) n h = omega (arith, bit_or-rec n 0, below k (n / 2) (omega arith))

-- A number below 8 next to a multiple of 8.
pub bit_or-low : (n w : ℕ) → w < 8 → bit_or (n * 8) w ≡ n * 8 + w
bit_or-low n w h =
    let e1 : n * 8 / 2 / 2 / 2 ≡ n = omega arith in
    let e2 : w / 2 / 2 / 2 ≡ 0 = omega arith in
    let third = bit_or-rec (n * 8 / 2 / 2) (w / 2 / 2) in
    let deepest = rw (e1, e2, bit_or-zero n) at third in
    omega (arith, bit_or-rec (n * 8) w, bit_or-rec (n * 8 / 2) (w / 2), deepest)

bit_and-zero : (n : ℕ) → bit_and n 0 ≡ 0
bit_and-zero n = below n n (omega arith)
  where
    below : (k n : ℕ) → n ≤ k → bit_and n 0 ≡ 0
    below zero n h = let n0 : n ≡ 0 = omega arith in rw n0 (and_digits 0 0)
    below (suc k) n h = omega (arith, bit_and-rec n 0, below k (n / 2) (omega arith))

pub bit_and-seven : (n : ℕ) → bit_and n 7 ≡ n % 8
bit_and-seven n = omega (
  arith,
  bit_and-rec n 7,
  bit_and-rec (n / 2) 3,
  bit_and-rec (n / 2 / 2) 1,
  bit_and-zero (n / 2 / 2 / 2),
)

pub bit_and-127 : (n : ℕ) → bit_and n 127 ≡ n % 128
bit_and-127 n = omega (
  arith,
  bit_and-rec n 127,
  bit_and-rec (n / 2) 63,
  bit_and-rec (n / 2 / 2) 31,
  bit_and-rec (n / 2 / 2 / 2) 15,
  bit_and-seven (n / 2 / 2 / 2 / 2),
)
