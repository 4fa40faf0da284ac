-- ===== src/Base/Words.antt =====
-- Laws of the bit operations over a byte, checked at every value.
use Prim.Native.Nat.{ℕ, zero, suc, ◌<◌, ◌+◌, ◌≤◌}
use mathlib.Core.Path.{◌≡◌}
use mathlib.Core.Bool.{Bool, true, false}
use libnavajo.Base.Tests.{if◌then◌else◌}
use native.Mathlib.Omega.{arith}

-- The test holds of the numbers from `from` on, `many` of them.
unfoldable pub holds_from : (ℕ → Bool) → ℕ → ℕ → Bool
holds_from test from zero = true
holds_from test from (suc many) =
    let later = holds_from test (from + 1) many in if test from then later else false

pub holds_from-all :
    (test : ℕ → Bool) (from many v : ℕ)
    → holds_from test from many ≡ true
    → from ≤ v
    → v < from + many
    → test v ≡ true
unfolding holds_from
holds_from-all test from zero v h low high = absurd (omega (arith, low, high))
holds_from-all test from (suc many) v h low high =
    ground (arith, holds_from-all test (from + 1) many v)

pub holds_below :
    (many : ℕ) (test : ℕ → Bool) (v : ℕ) → holds_from test 0 many ≡ true → v < many → test v ≡ true
holds_below many test v h high = holds_from-all test 0 many v h (omega arith) (omega (arith, high))
