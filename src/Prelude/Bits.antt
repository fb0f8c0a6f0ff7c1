-- ===== src/Prelude/Bits.antt =====
-- Bit operations as arithmetic: tables over small ranges, and laws from the recursion on digits.
use Prim.Native.Nat.{ℕ, zero, suc, ◌<◌}
use mathlib.Core.Path.{◌≡◌}
use mathlib.Core.Bool.{Bool, true, ◌&&◌}
use native.Mathlib.Omega.{arith}
use xedge.Prelude.Tests.{◌==◌, ==_iff}

-- A test that passes on 0, 1, …, bound - 1; a table is such a run, closed by evaluation.
unfoldable pub passes_below : (ℕ → Bool) → ℕ → Bool
passes_below test zero = true
passes_below test (suc bound) = passes_below test bound && test bound

pub passes_below-at :
    (test : ℕ → Bool) (bound x : ℕ) → x < bound → passes_below test bound ≡ true → test x ≡ true
unfolding passes_below
passes_below-at test zero x h t = absurd (omega arith)
passes_below-at test (suc bound) x h t = ground (arith, passes_below-at test bound x)

pub eq_below :
    (f g : ℕ → ℕ) (bound : ℕ)
    → passes_below (λ x. f x == g x) bound ≡ true
    → (x : ℕ) → x < bound
    → f x ≡ g x
eq_below f g bound t x h = (==_iff (f x) (g x)).0 (passes_below-at (λ x. f x == g x) bound x h t)
