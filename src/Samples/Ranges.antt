-- ===== src/Samples/Ranges.antt =====
-- The byte-range sets on small inputs.
use coretrace_stack_analyzer.Prelude.{ℕ, ◌≡◌, refl, ◌↔◌, true, ◌&&◌, ◌||◌, [], ◌∷◌, arith}
use coretrace_stack_analyzer.ByteRanges.{
  RangeSet, range, add_range, intersect_ranges, is_range_covered,
  is_range_covered_allowing_small_interior_gaps,
}
use coretrace_stack_analyzer.ByteRanges.Contains.{inside, contains, IsNormal}
use coretrace_stack_analyzer.ByteRanges.Add.{contains-add_range}
use coretrace_stack_analyzer.ByteRanges.Intersect.{contains-intersect_ranges}
use coretrace_stack_analyzer.ByteRanges.Covered.{AllIn, is_range_covered_iff}
use coretrace_stack_analyzer.ByteRanges.Gaps.{
  PrefixIn, is_range_covered_allowing_small_interior_gaps_iff,
}

abbrev two_ranges : RangeSet
two_ranges = range 0 4 ∷ range 8 12 ∷ []

abbrev other_ranges : RangeSet
other_ranges = range 2 10 ∷ []

two_ranges-IsNormal : IsNormal two_ranges
two_ranges-IsNormal = omega arith

-- The new range touches both: the three become one.
add_range_run : add_range two_ranges 4 8 ≡ range 0 12 ∷ []
unfolding add_range
add_range_run = refl

-- A byte that no range holds stands between two gaps that are narrow enough; the access is taken.
gaps_run : is_range_covered_allowing_small_interior_gaps two_ranges 0 12 8 ≡ true
unfolding is_range_covered_allowing_small_interior_gaps
gaps_run = refl

contains-add_range_example :
    IsNormal (add_range two_ranges 4 8)
    × ((x : ℕ)
        → contains (add_range two_ranges 4 8) x ≡ (inside (range 4 8) x || contains two_ranges x))
contains-add_range_example = contains-add_range two_ranges 4 8 two_ranges-IsNormal

contains-intersect_ranges_example :
    IsNormal (intersect_ranges two_ranges other_ranges)
    × ((x : ℕ)
        → contains (intersect_ranges two_ranges other_ranges) x
          ≡ (contains two_ranges x && contains other_ranges x))
contains-intersect_ranges_example =
    contains-intersect_ranges two_ranges other_ranges two_ranges-IsNormal (omega arith)

is_range_covered_iff_example : (is_range_covered two_ranges 9 12 ≡ true) ↔ AllIn two_ranges 9 12
is_range_covered_iff_example = is_range_covered_iff two_ranges 9 12 two_ranges-IsNormal

is_range_covered_allowing_small_interior_gaps_iff_example :
    (is_range_covered_allowing_small_interior_gaps two_ranges 0 12 8 ≡ true)
    ↔ ((c : ℕ) × PrefixIn two_ranges 0 12 8 c)
is_range_covered_allowing_small_interior_gaps_iff_example =
    is_range_covered_allowing_small_interior_gaps_iff two_ranges 0 12 8 two_ranges-IsNormal
      (omega arith)
