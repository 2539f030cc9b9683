-- ===== src/IntRanges/Edge/Feasible.antt =====
-- When a range, or the state of a path, is dropped as empty.
use coretrace_stack_analyzer.Prelude.{
  ℕ, ◌≡◌, refl, ◌↔◌, true, false, none, some, [], ◌∷◌, arith, ◌==◌, ==_iff, Bool-cases, inl, inr,
  Option,
}
use coretrace_stack_analyzer.Prelude.Int.{ℤ, pos}
use coretrace_stack_analyzer.IntRanges.{IntRange, tighten, Ranges, find_range}
use coretrace_stack_analyzer.IntRanges.Sound.{InRange, AboveLower, BelowUpper}
use coretrace_stack_analyzer.IntRanges.Tighten.{tighten_iff, find_range-apply_constraint}
use coretrace_stack_analyzer.IntRanges.Edge.{
  is_not_empty, sat, evaluate_interval_satisfiability, apply_constraint_to_state,
}

-- Some integer meets the bounds.
abbrev pub IsSatisfiable : IntRange → Type 0
IsSatisfiable r = (z : ℤ) × InRange r z

bounds_satisfiable :
    (lower upper : Option ℤ)
    → is_not_empty (record { lower = lower; upper = upper }) ≡ true
    → (z : ℤ) × (AboveLower lower z × BelowUpper upper z)
unfolding is_not_empty
bounds_satisfiable none none h = (pos 0, (tt, tt))
bounds_satisfiable none (some u) h = (u, (tt, omega arith))
bounds_satisfiable (some l) none h = (l, (omega arith, tt))
bounds_satisfiable (some l) (some u) h = (l, (omega arith, ground arith))

pub is_not_empty_iff : (r : IntRange) → (is_not_empty r ≡ true) ↔ IsSatisfiable r
unfolding is_not_empty
is_not_empty_iff r = (bounds_satisfiable r.lower r.upper, λ (z, h). ground arith)

-- The flag of `applyConstraintToState` is true exactly when some integer meets the bounds that the
-- key had before and those of the constraint, and every other key keeps its range.
pub apply_constraint_to_state_lem :
    (ranges : Ranges) (key : ℕ) (c : IntRange)
    → (((apply_constraint_to_state ranges key c).1 ≡ true)
        ↔ ((z : ℤ) × (InRange (find_range ranges key) z × InRange c z)))
      × ((j : ℕ)
          → (key == j) ≡ false
          → find_range (apply_constraint_to_state ranges key c).0 j ≡ find_range ranges j)
unfolding apply_constraint_to_state
apply_constraint_to_state_lem ranges key c =
    let self : (key == key) ≡ true = (==_iff key key).1 refl in
    let (forth, back) = is_not_empty_iff (tighten (find_range ranges key) c) in
    (
      rw (find_range-apply_constraint ranges key c key, self)
          (
            λ h. let (z, m) = forth h in (z, (tighten_iff (find_range ranges key) c z).0 m),
            λ (z, m). back (z, (tighten_iff (find_range ranges key) c z).1 m),
          ),
      λ j other. rw (find_range-apply_constraint ranges key c j, other),
    )

-- Each range of the map, on its own, is met by some integer.
abbrev pub AllSatisfiable : Ranges → Type 0
AllSatisfiable [] = Unit
AllSatisfiable ((k, r) ∷ ranges) = IsSatisfiable r × AllSatisfiable ranges

-- The answer of `evaluateIntervalSatisfiability` is Sat exactly when each range is met by some
-- integer.
pub evaluate_interval_satisfiability_iff :
    (ranges : Ranges) → (evaluate_interval_satisfiability ranges ≡ sat) ↔ AllSatisfiable ranges
unfolding evaluate_interval_satisfiability
evaluate_interval_satisfiability_iff [] = (λ h. tt, λ h. refl)
evaluate_interval_satisfiability_iff ((k, r) ∷ ranges) =
    let (forth, back) = is_not_empty_iff r in
    let (rest, rest') = evaluate_interval_satisfiability_iff ranges in
    elim (Bool-cases (is_not_empty r)) [
      | inl some_z ↦ rw some_z (λ h. (forth some_z, rest h), λ h. rest' h.1)
      | inr no_z ↦ rw no_z (λ h. absurd (cc), λ h. absurd (cc (back h.0, no_z)))
    ]
