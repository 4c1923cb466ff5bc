-- ===== src/Base/Bytes.antt =====
-- Facts about all bytes, by evaluation.
use Prim.Native.Nat.{ℕ, zero, suc, ◌<◌, bit_and}
use mathlib.Core.Bool.{Bool, true, ◌&&◌}
use mathlib.Core.Path.{◌≡◌, refl}
use native.Mathlib.Omega.{arith}
use docker_analysis.Base.Tests.{ltb, ltb→lt}

-- The test passes on every number below the bound.
passes : (ℕ → Bool) → ℕ → Bool
passes test zero = true
passes test (suc bound) = passes test bound && test bound

test-passes : (test : ℕ → Bool) (bound k : ℕ) → k < bound → passes test bound ≡ true → test k ≡ true
unfolding passes
test-passes test zero k low every = absurd (omega arith)
test-passes test (suc bound) k low every = ground (arith, test-passes test bound k)

and_table : passes (λ x. passes (λ y. ltb (bit_and x y) 256) 256) 256 ≡ true
unfolding passes
and_table = refl

pub bit_and_byte : (x y : ℕ) → x < 256 → y < 256 → bit_and x y < 256
bit_and_byte x y hx hy = ltb→lt _ _ (test-passes _ 256 y hy (test-passes _ 256 x hx and_table))
