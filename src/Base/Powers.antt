-- ===== src/Base/Powers.antt =====
-- Doubling, as the delays use it.
use native.Mathlib.Nat.{pow-suc, one-le-pow}
use Prim.Native.Nat.{ℕ, suc, ◌*◌, ◌^◌, ◌≤◌}
use mathlib.Core.Path.{◌≡◌, ap}
use native.Mathlib.Omega.{arith}

pub times-pow-suc : (v n : ℕ) → v * 2 ^ suc n ≡ v * 2 * 2 ^ n
times-pow-suc v n = omega (arith, ap (λ (t : ℕ). v * t) (pow-suc 2 n))

pub le-times-pow : (v n : ℕ) → v ≤ v * 2 ^ n
le-times-pow v n = grind (arith, one-le-pow n 2)
