-- ===== src/Prelude/Xor.antt =====
-- Exclusive or of binary digits: its recursion, its bound, and that it undoes itself.
use Prim.Native.Nat.{
  ℕ, zero, suc, ◌+◌, ◌*◌, ◌/◌, ◌%◌, ◌^◌, ◌≤◌, ◌<◌, bit_xor, bit_xor-bitwise, digits, differ,
}
use mathlib.Core.Path.{◌≡◌, refl, sym, ◌∙◌}
use native.Mathlib.Omega.{arith}

-- The count of digits to go does not matter, once it is large enough.
pub digits-enough :
    (z : ℕ → ℕ) (f : ℕ → ℕ → ℕ) (n m a b : ℕ) → a ≤ n → a ≤ m → digits z f n a b ≡ digits z f m a b
digits-enough z f zero zero zero b h l = refl
digits-enough z f zero (suc m) zero b h l = refl
digits-enough z f (suc n) zero zero b h l = refl
digits-enough z f (suc n) (suc m) zero b h l = refl
digits-enough z f (suc n) (suc m) (suc a) b h l =
    rw (digits-enough z f n m (suc a / 2) (b / 2) (omega arith) (omega arith)) refl
digits-enough z f zero m (suc a) b h l = absurd (omega arith)
digits-enough z f (suc n) zero (suc a) b h l = absurd (omega arith)

abbrev run_out : ℕ → ℕ
run_out b = b

abbrev xor_digits : (a b : ℕ) → bit_xor a b ≡ digits run_out differ a a b
xor_digits a b = λ i. bit_xor-bitwise a b i

pub bit_xor-rec : (a b : ℕ) → bit_xor a b ≡ bit_xor (a / 2) (b / 2) * 2 + differ (a % 2) (b % 2)
bit_xor-rec zero b =
    let whole : bit_xor 0 b ≡ b = xor_digits 0 b in
    let half : bit_xor 0 (b / 2) ≡ b / 2 = xor_digits 0 (b / 2) in whole ∙ omega (arith, half)
bit_xor-rec (suc a) b =
    rw
      (
        xor_digits (suc a / 2) (b / 2),
        sym (
            digits-enough run_out differ a (suc a / 2) (suc a / 2) (b / 2) (omega arith)
              (omega arith)),
      )
      (xor_digits (suc a) b)

differ_bit : (a b : ℕ) → differ (a % 2) (b % 2) < 2
differ_bit a b = bits (a % 2) (b % 2) (omega arith) (omega arith)
  where
    bits : (x y : ℕ) → x < 2 → y < 2 → differ x y < 2
    bits zero y h l = l
    bits (suc zero) zero h l = omega arith
    bits (suc zero) (suc zero) h l = omega arith
    bits (suc zero) (suc (suc y)) h l = absurd (omega arith)
    bits (suc (suc x)) y h l = absurd (omega arith)

differ_undone : (a b : ℕ) → differ (a % 2) (differ (a % 2) (b % 2)) ≡ b % 2
differ_undone a b = bits (a % 2) (b % 2) (omega arith) (omega arith)
  where
    bits : (x y : ℕ) → x < 2 → y < 2 → differ x (differ x y) ≡ y
    bits zero y h l = refl
    bits (suc zero) zero h l = refl
    bits (suc zero) (suc zero) h l = refl
    bits (suc zero) (suc (suc y)) h l = absurd (omega arith)
    bits (suc (suc x)) y h l = absurd (omega arith)

differ_comm : (a b : ℕ) → differ (a % 2) (b % 2) ≡ differ (b % 2) (a % 2)
differ_comm a b = bits (a % 2) (b % 2)
  where
    bits : (x y : ℕ) → differ x y ≡ differ y x
    bits zero zero = refl
    bits zero (suc y) = refl
    bits (suc x) zero = refl
    bits (suc x) (suc y) = bits x y

bit_xor-low :
    (a b : ℕ)
    → (bit_xor a b / 2 ≡ bit_xor (a / 2) (b / 2)) × (bit_xor a b % 2 ≡ differ (a % 2) (b % 2))
bit_xor-low a b =
    let r = bit_xor-rec a b in let d = differ_bit a b in (omega (arith, r, d), omega (arith, r, d))

pub bit_xor_fits : (k a b : ℕ) → a < 2 ^ k → b < 2 ^ k → bit_xor a b < 2 ^ k
bit_xor_fits zero a b h l =
    let a0 : a ≡ 0 = omega arith in
    let b0 : b ≡ 0 = omega arith in rw (a0, b0) (omega (arith, xor_digits 0 0))
bit_xor_fits (suc k) a b h l = omega (
  arith,
  bit_xor-rec a b,
  differ_bit a b,
  bit_xor_fits k (a / 2) (b / 2) (omega arith) (omega arith),
)

abbrev UndoneBelow : ℕ → Type 0
UndoneBelow n = (a b : ℕ) → a ≤ n → bit_xor a (bit_xor a b) ≡ b

undone_below : (n : ℕ) → UndoneBelow n
undone_below n zero b h = xor_digits 0 (bit_xor 0 b) ∙ xor_digits 0 b
undone_below zero (suc a) b h = absurd (omega arith)
undone_below (suc n) (suc a) b h =
    let (high, low) = bit_xor-low (suc a) b in
    let below = undone_below n (suc a / 2) (b / 2) (omega arith) in
    let r = bit_xor-rec (suc a) (bit_xor (suc a) b) in
    let r' = rw (high, low) at r in omega (arith, r', below, differ_undone (suc a) b)

pub bit_xor_undone : (a b : ℕ) → bit_xor a (bit_xor a b) ≡ b
bit_xor_undone a b = undone_below a a b (omega arith)

comm_below : (n a b : ℕ) → a ≤ n → b ≤ n → bit_xor a b ≡ bit_xor b a
comm_below zero a b h l =
    let a0 : a ≡ 0 = omega arith in let b0 : b ≡ 0 = omega arith in rw (a0, b0) refl
comm_below (suc n) a b h l =
    rw
      (
        bit_xor-rec a b,
        bit_xor-rec b a,
        differ_comm a b,
        comm_below n (a / 2) (b / 2) (omega arith) (omega arith),
      )
      refl

pub bit_xor_comm : (a b : ℕ) → bit_xor a b ≡ bit_xor b a
bit_xor_comm a b = comm_below (a + b) a b (omega arith) (omega arith)

-- Both operands of an exclusive or can be cancelled.
pub bit_xor_cancel_left : (a b c : ℕ) → bit_xor a b ≡ bit_xor a c → b ≡ c
bit_xor_cancel_left a b c h = cc (bit_xor_undone a b, bit_xor_undone a c)

pub bit_xor_cancel_right : (a b c : ℕ) → bit_xor b a ≡ bit_xor c a → b ≡ c
bit_xor_cancel_right a b c h = bit_xor_cancel_left a b c (cc (bit_xor_comm a b, bit_xor_comm a c))
