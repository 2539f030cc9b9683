-- ===== src/ByteRanges.antt =====
-- The byte-range sets of src/analysis/UninitializedVarAnalysis.cpp: the sorted vectors of half-open
-- ranges in which the analysis of uninitialised variables keeps the initialised bytes of an object.
-- Offsets are 64-bit; the operations below only compare them, so no sum of them is formed here.
pub mod Contains
pub mod Add
pub mod Intersect
pub mod Covered
pub mod Gaps
pub mod Canonical
use coretrace_stack_analyzer.Prelude.{
  ℕ, ◌-◌, ◌≤◌, ◌<◌, suc, min, max, Bool, true, false, not, ◌&&◌, ◌||◌, List, [], ◌∷◌, ltb, leb,
  if◌then◌else◌,
}

pub record ByteRange : Type 0 where
  pub first : ℕ
  pub end : ℕ

abbrev pub RangeSet : Type 0
RangeSet = List ByteRange

abbrev pub range : ℕ → ℕ → ByteRange
range b e = record { first = b; end = e }

-- The rest of `addRange` behind the range that has grown to `[b, e)`.
unfoldable pub absorb : ℕ → ℕ → RangeSet → RangeSet
absorb b e [] = range b e ∷ []
absorb b e (next ∷ rs) =
    let grown = absorb b (max e next.end) rs in
    if leb next.first e then grown else range b e ∷ next ∷ rs

-- `std::lower_bound` on a sorted vector is the first range that does not end before `b`.
unfoldable pub insert_range : RangeSet → ℕ → ℕ → RangeSet
unfolding absorb
insert_range [] b e = range b e ∷ []
insert_range (it ∷ rs) b e =
    let later = it ∷ insert_range rs b e in
    if ltb it.end b
    then later
    else if ltb e it.first
    then range b e ∷ it ∷ rs
    else absorb (min it.first b) (max it.end e) rs

unfoldable pub add_range : RangeSet → ℕ → ℕ → RangeSet
unfolding insert_range
add_range rs b e = if leb e b then rs else insert_range rs b e

unfoldable pub intersect_ranges : RangeSet → RangeSet → RangeSet
intersect_ranges [] rhs = []
intersect_ranges (l ∷ lhs) [] = []
intersect_ranges (l ∷ lhs) (r ∷ rhs) =
    let b = max l.first r.first in
    let e = min l.end r.end in
    let skip_left = intersect_ranges lhs (r ∷ rhs) in
    let skip_right = intersect_ranges (l ∷ lhs) rhs in
    let rest = if ltb l.end r.end then skip_left else skip_right in
    if ltb b e then range b e ∷ rest else rest

pub covered_loop : RangeSet → ℕ → ℕ → Bool
covered_loop [] b e = false
covered_loop (r ∷ rs) b e =
    if leb r.first b && leb e r.end
    then true
    else if ltb b r.first
    then false
    else covered_loop rs b e

pub is_range_covered : RangeSet → ℕ → ℕ → Bool
unfolding covered_loop
is_range_covered rs b e = if leb e b then true else covered_loop rs b e

-- The final test of `isRangeCoveredAllowingSmallInteriorGaps`, behind its loop.
tail_gap : ℕ → ℕ → ℕ → ℕ → Bool
tail_gap b e gap cursor =
    if ltb cursor e
    then (if not (ltb b cursor) || ltb gap (e - cursor) then false else true)
    else true

-- The loop of `isRangeCoveredAllowingSmallInteriorGaps`, at its cursor.
gaps_loop : RangeSet → ℕ → ℕ → ℕ → ℕ → Bool
unfolding tail_gap
gaps_loop [] b e gap cursor = tail_gap b e gap cursor
gaps_loop (r ∷ rs) b e gap cursor =
    let gap_end = min r.first e in
    let too_wide =
      ltb cursor gap_end && (not (ltb b cursor && ltb gap_end e) || ltb gap (gap_end - cursor)) in
    let cursor' = if leb r.first cursor then max cursor (min r.end e) else cursor in
    let next = gaps_loop rs b e gap (if leb r.end cursor then cursor else cursor') in
    if leb r.end cursor
    then next
    else if leb e r.first
    then tail_gap b e gap cursor
    else if too_wide
    then false
    else if leb e cursor'
    then true
    else next

abbrev pub max_interior_gap_bytes : ℕ
max_interior_gap_bytes = 7

unfoldable pub is_range_covered_allowing_small_interior_gaps : RangeSet → ℕ → ℕ → ℕ → Bool
unfolding gaps_loop
is_range_covered_allowing_small_interior_gaps rs b e gap =
    if leb e b then true else gaps_loop rs b e gap b
