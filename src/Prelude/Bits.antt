-- ===== src/Prelude/Bits.antt =====
-- Facts about every byte, checked by evaluation.
use Prim.Native.Nat.{ℕ, zero, suc, ◌<◌}
use mathlib.Core.Path.{◌≡◌}
use mathlib.Core.Bool.{Bool, true, false}
use adaptivemsg_go.Prelude.Tests.{if◌then◌else◌}
use native.Mathlib.Omega.{arith}

unfoldable pub all_below : (ℕ → Bool) → ℕ → Bool
all_below test zero = true
all_below test (suc bound) = if test bound then all_below test bound else false

pub all_below_lem :
    (test : ℕ → Bool) {x : ℕ} (bound : ℕ) → all_below test bound ≡ true → x < bound → test x ≡ true
unfolding all_below
all_below_lem test zero checked below = absurd (omega arith)
all_below_lem test {x} (suc bound) checked below =
    ground (arith, checked, all_below_lem test {x = x} bound)
