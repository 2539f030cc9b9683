-- ===== src/Prelude/Maps.antt =====
-- `std::map` with numbers for keys: an association list. The order of the keys is not used.
use Prim.Native.Nat.{ℕ}
use mathlib.Core.Path.{◌≡◌, refl}
use mathlib.Core.Option.{Option, none, some}
use mathlib.Core.List.{List, [], ◌∷◌}
use native.Mathlib.Omega.{arith}
use coretrace_stack_analyzer.Prelude.Tests.{◌==◌, if◌then◌else◌}

abbrev pub Assoc {ℓ} : Type ℓ → Type ℓ
Assoc A = List (ℕ × A)

module _ {ℓ} {A : Type ℓ} where
  -- `find`.
  unfoldable pub lookup : Assoc A → ℕ → Option A
  lookup [] key = none
  lookup ((k, a) ∷ m) key = if k == key then some a else lookup m key

  -- `m[key] = value`.
  unfoldable pub insert : Assoc A → ℕ → A → Assoc A
  insert [] key value = (key, value) ∷ []
  insert ((k, a) ∷ m) key value = if k == key then (key, value) ∷ m else (k, a) ∷ insert m key value

  pub lookup-insert :
      (m : Assoc A) (key : ℕ) (value : A) (j : ℕ)
      → lookup (insert m key value) j ≡ (if key == j then some value else lookup m j)
  unfolding lookup insert
  lookup-insert [] key value j = refl
  lookup-insert ((k, a) ∷ m) key value j = ground (arith, lookup-insert m key value j)
