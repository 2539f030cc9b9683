-- ===== src/Prelude/Member.antt =====
-- Membership in a list of numbers, as a test.
use Prim.Native.Nat.{ℕ}
use mathlib.Core.Path.{◌≡◌, refl}
use mathlib.Core.Bool.{Bool, false, ◌||◌}
use mathlib.Core.List.{List, [], ◌∷◌, ◌++◌}
use native.Mathlib.Omega.{arith}
use coretrace_stack_analyzer.Prelude.Tests.{◌==◌}

abbrev pub has : List ℕ → ℕ → Bool
has [] f = false
has (g ∷ gs) f = g == f || has gs f

pub has-append : (xs ys : List ℕ) (f : ℕ) → has (xs ++ ys) f ≡ (has xs f || has ys f)
has-append [] ys f = refl
has-append (x ∷ xs) ys f = ground (arith, has-append xs ys f)
