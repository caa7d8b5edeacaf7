-- ===== src/Base/Tables.antt =====
-- A property of small numbers, checked by evaluation.
use Prim.Native.Nat.{ℕ, zero, suc, ◌<◌}
use mathlib.Core.Bool.{Bool, true, ◌&&◌}
use mathlib.Core.Path.{◌≡◌}
use native.Mathlib.Omega.{arith}

-- whether `holds` answers true for each number below a bound
unfoldable pub test_below : (ℕ → Bool) → ℕ → Bool
test_below holds zero = true
test_below holds (suc top) = holds top && test_below holds top

pub test_below-at :
    (holds : ℕ → Bool) (top i : ℕ) → test_below holds top ≡ true → i < top → holds i ≡ true
unfolding test_below
test_below-at holds zero i tested below = absurd (omega arith)
test_below-at holds (suc top) i tested below = ground (arith, test_below-at holds top i)
