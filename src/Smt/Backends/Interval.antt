-- ===== src/Smt/Backends/Interval.antt =====
-- What the interval backend decides.
use coretrace_stack_analyzer.Prelude.{
  ◌≡◌, refl, ◌↔◌, Bool, true, false, ◌&&◌, List, [], ◌∷◌, arith, Bool-cases, inl, inr,
}
use coretrace_stack_analyzer.Prelude.Int.{ℤ, pos, ◌≤ℤ◌, ltb_ℤ}
use coretrace_stack_analyzer.Smt.Types.{IntervalConstraint, sat, unsat}
use coretrace_stack_analyzer.Smt.Backends.{is_contradictory, interval_status}

-- `z` meets the bounds that the interval has.
abbrev pub MeetsLower : Bool → ℤ → ℤ → Type 0
MeetsLower true bound z = bound ≤ℤ z
MeetsLower false bound z = Unit

abbrev pub MeetsUpper : Bool → ℤ → ℤ → Type 0
MeetsUpper true bound z = z ≤ℤ bound
MeetsUpper false bound z = Unit

abbrev pub Meets : IntervalConstraint → ℤ → Type 0
Meets c z = MeetsLower c.has_lower c.lower z × MeetsUpper c.has_upper c.upper z

abbrev pub AllSatisfiable : List IntervalConstraint → Type 0
AllSatisfiable [] = Unit
AllSatisfiable (c ∷ intervals) = ((z : ℤ) × Meets c z) × AllSatisfiable intervals

bounds_consistent :
    (has_lower has_upper : Bool) (lower upper : ℤ)
    → (has_lower && has_upper && ltb_ℤ upper lower) ≡ false
    → (z : ℤ) × (MeetsLower has_lower lower z × MeetsUpper has_upper upper z)
bounds_consistent true true lower upper h = (lower, (omega arith, ground arith))
bounds_consistent true false lower upper h = (lower, (omega arith, tt))
bounds_consistent false true lower upper h = (upper, (tt, omega arith))
bounds_consistent false false lower upper h = (pos 0, (tt, tt))

bounds_contradictory :
    (has_lower has_upper : Bool) (lower upper z : ℤ)
    → (has_lower && has_upper && ltb_ℤ upper lower) ≡ true
    → MeetsLower has_lower lower z
    → MeetsUpper has_upper upper z
    → ⊥
bounds_contradictory true true lower upper z h p q = ground arith
bounds_contradictory true false lower upper z h p q = cc
bounds_contradictory false _ lower upper z h p q = cc

-- The interval backend answers Sat exactly when each interval of the query contains an integer, and
-- Unsat exactly when this is not so.
pub interval_status_iff :
    (intervals : List IntervalConstraint)
    → ((interval_status intervals ≡ sat) ↔ AllSatisfiable intervals)
      × ((interval_status intervals ≡ unsat) ↔ ¬ AllSatisfiable intervals)
unfolding interval_status is_contradictory
interval_status_iff [] = ((λ h. tt, λ h. refl), (λ h. cc, λ h. absurd (h tt)))
interval_status_iff (c ∷ intervals) =
    let ((s, s'), (u, u')) = interval_status_iff intervals in
    elim (Bool-cases (is_contradictory c)) [
      | inl bad ↦
          let none_meets : ¬ AllSatisfiable (c ∷ intervals) = λ ((z, p), rest).
            bounds_contradictory c.has_lower c.has_upper c.lower c.upper z bad p.0 p.1 in
          rw bad ((λ h. cc, λ h. absurd (none_meets h)), (λ h. none_meets, λ h. refl))
      | inr good ↦
          let one = bounds_consistent c.has_lower c.has_upper c.lower c.upper good in
          rw good ((λ h. (one, s h), λ h. s' h.1), (λ h m. u h m.1, λ h. u' (λ m. h (one, m))))
    ]
