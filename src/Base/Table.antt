-- ===== src/Base/Table.antt =====
-- A fact about small numbers, by running its test on each of them.
use Prim.Native.Nat.{ℕ, zero, suc, ◌<◌}
use mathlib.Core.Path.{◌≡◌}
use mathlib.Core.Bool.{Bool, true, ◌&&◌}
use native.Mathlib.Omega.{arith}

unfoldable pub passes_below : ℕ → (ℕ → Bool) → Bool
passes_below zero test = true
passes_below (suc n) test = test n && passes_below n test

pub passes_below_sound :
    (n : ℕ) (test : ℕ → Bool) → passes_below n test ≡ true → (x : ℕ) → x < n → test x ≡ true
unfolding passes_below
passes_below_sound zero test h x lt = absurd (omega arith)
passes_below_sound (suc n) test h x lt = ground (arith, passes_below_sound n test _ x)
