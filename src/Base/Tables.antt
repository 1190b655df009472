-- ===== src/Base/Tables.antt =====
-- Facts about a small range of numbers, by evaluation at each of them.
use Prim.Native.Nat.{ℕ, zero, suc, ◌+◌, ◌<◌}
use mathlib.Core.Path.{◌≡◌}
use mathlib.Core.Bool.{Bool, true, false}
use native.Mathlib.Omega.{arith}
use base_system.Base.Tests.{if◌then◌else◌}

-- A test of the `count` values from `start` on, to be evaluated.
unfoldable pub passes : (ℕ → Bool) → ℕ → ℕ → Bool
passes test start zero = true
passes test start (suc count) =
    let rest = passes test (start + 1) count in if test start then rest else false

passes_at :
    (test : ℕ → Bool) (start count k : ℕ)
    → passes test start count ≡ true
    → k < count
    → test (start + k) ≡ true
unfolding passes
passes_at test start zero k all l = absurd (omega arith)
passes_at test start (suc count) zero all l =
    let e : start + 0 ≡ start = omega arith in rw e (ground arith)
passes_at test start (suc count) (suc k) all l =
    let e : start + suc k ≡ start + 1 + k = omega arith in
    rw e (passes_at test (start + 1) count k (ground arith) (omega arith))

pub passes_below :
    (test : ℕ → Bool) (bound x : ℕ) → passes test 0 bound ≡ true → x < bound → test x ≡ true
passes_below test bound x all l =
    let e : 0 + x ≡ x = omega arith in rw e at (passes_at test 0 bound x all l)
