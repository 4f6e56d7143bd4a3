-- ===== src/Common/Tables.antt =====
-- Facts about small numbers, checked by evaluation at every number below a bound.
use Prim.Native.Nat.{ℕ, zero, suc, ◌<◌}
use mathlib.Core.Path.{◌≡◌}
use mathlib.Core.Bool.{Bool, true, ◌&&◌}
use native.Mathlib.Omega.{arith}
use mip_clients.Common.Tests.{◌==◌}

unfoldable pub agree_below : (ℕ → ℕ) → (ℕ → ℕ) → ℕ → Bool
agree_below f g zero = true
agree_below f g (suc n) = f n == g n && agree_below f g n

pub agree_below→eq : (f g : ℕ → ℕ) (n i : ℕ) → agree_below f g n ≡ true → i < n → f i ≡ g i
unfolding agree_below
agree_below→eq f g zero i e h = absurd (omega arith)
agree_below→eq f g (suc n) i e h = ground (arith, agree_below→eq f g n i)
