-- ===== src/IntRanges/Tighten.antt =====
-- Tightening a range is intersection, and the map keeps one range for each value.
use coretrace_stack_analyzer.Prelude.{
  ℕ, ◌≡◌, ◌↔◌, Option, none, some, [], ◌∷◌, arith, ◌==◌, if◌then◌else◌,
}
use coretrace_stack_analyzer.Prelude.Int.{ℤ}
use coretrace_stack_analyzer.IntRanges.{
  IntRange, tighten_lower, tighten_upper, tighten, Ranges, find_range, apply_constraint,
}
use coretrace_stack_analyzer.IntRanges.Sound.{AboveLower, BelowUpper, InRange}

tighten_lower_iff :
    (cur c : Option ℤ) (z : ℤ)
    → AboveLower (tighten_lower cur c) z ↔ (AboveLower cur z × AboveLower c z)
unfolding tighten_lower
tighten_lower_iff none none z = ground arith
tighten_lower_iff (some a) none z = ground arith
tighten_lower_iff none (some b) z = ground arith
tighten_lower_iff (some a) (some b) z = ground arith

tighten_upper_iff :
    (cur c : Option ℤ) (z : ℤ)
    → BelowUpper (tighten_upper cur c) z ↔ (BelowUpper cur z × BelowUpper c z)
unfolding tighten_upper
tighten_upper_iff none none z = ground arith
tighten_upper_iff (some a) none z = ground arith
tighten_upper_iff none (some b) z = ground arith
tighten_upper_iff (some a) (some b) z = ground arith

-- An integer is in the tightened range exactly when it is in both ranges.
pub tighten_iff :
    (cur c : IntRange) (z : ℤ) → InRange (tighten cur c) z ↔ (InRange cur z × InRange c z)
unfolding tighten
tighten_iff cur c z =
    let (lower, lower') = tighten_lower_iff cur.lower c.lower z in
    let (upper, upper') = tighten_upper_iff cur.upper c.upper z in
    (
      λ h. (((lower h.0).0, (upper h.1).0), ((lower h.0).1, (upper h.1).1)),
      λ h. (lower' (h.0.0, h.1.0), upper' (h.0.1, h.1.1)),
    )

pub find_range-apply_constraint :
    (ranges : Ranges) (key : ℕ) (c : IntRange) (j : ℕ)
    → find_range (apply_constraint ranges key c) j
      ≡ (if key == j then tighten (find_range ranges j) c else find_range ranges j)
unfolding find_range apply_constraint
find_range-apply_constraint [] key c j = ground arith
find_range-apply_constraint ((k, r) ∷ ranges) key c j =
    ground (arith, find_range-apply_constraint ranges key c j)
