-- ===== src/ByteRanges/Gaps.antt =====
-- `isRangeCoveredAllowingSmallInteriorGaps`: what its loop accepts.
use coretrace_stack_analyzer.Prelude.{
  ℕ, suc, ◌+◌, ◌≤◌, ◌<◌, ◌≡◌, refl, ◌↔◌, inl, inr, true, false, [], ◌∷◌, min, arith, leb,
  Bool-cases, if◌then◌else◌,
}
use coretrace_stack_analyzer.ByteRanges.{
  RangeSet, tail_gap, gaps_loop, is_range_covered_allowing_small_interior_gaps,
}
use coretrace_stack_analyzer.ByteRanges.Contains.{contains, IsNormalFrom, IsNormal, contains_below}
use coretrace_stack_analyzer.ByteRanges.Covered.{AllIn}

-- A prefix of `[b, e)` that is not empty is in the set, and at most `gap` bytes are left behind it.
abbrev pub PrefixIn : RangeSet → ℕ → ℕ → ℕ → ℕ → Type 0
PrefixIn rs b e gap c = (b < c) × (c ≤ e) × (e ≤ c + gap) × AllIn rs b c

-- The first byte from `cursor` on that is not in the set, or `e`.
frontier : RangeSet → ℕ → ℕ → ℕ
frontier [] e cursor = cursor
frontier (r ∷ rs) e cursor =
    if leb r.end cursor
    then frontier rs e cursor
    else if leb r.first cursor
    then frontier rs e (min r.end e)
    else cursor

frontier_above :
    (lo : ℕ) (rs : RangeSet) (e cursor : ℕ)
    → IsNormalFrom lo rs
    → cursor < lo
    → frontier rs e cursor ≡ cursor
unfolding frontier
frontier_above lo [] e cursor n h = refl
frontier_above lo (r ∷ rs) e cursor n h = ground arith

-- The loop neither uses nor needs what stands behind the first gap: a gap that is narrow enough is
-- passed over, but the cursor stays in front of it.
gaps_loop-eq :
    (lo : ℕ) (rs : RangeSet) (b e gap cursor : ℕ)
    → IsNormalFrom lo rs
    → b ≤ cursor
    → cursor < e
    → gaps_loop rs b e gap cursor ≡ tail_gap b e gap (frontier rs e cursor)
unfolding gaps_loop frontier
gaps_loop-eq lo [] b e gap cursor n p q = refl
gaps_loop-eq lo (r ∷ rs) b e gap cursor n p q = elim (Bool-cases (leb r.end cursor)) [
  | inl past ↦ rw past (ground (arith, gaps_loop-eq (suc r.end) rs b e gap cursor n.2 p q))
  | inr ahead ↦ ground (
    arith,
    gaps_loop-eq (suc r.end) rs b e gap cursor n.2 p q,
    gaps_loop-eq (suc r.end) rs b e gap r.end n.2,
    frontier_above (suc r.end) rs e cursor n.2,
    frontier_above (suc r.end) rs e e n.2,
  )
]

module _ (e : ℕ) where
  frontier_bounds :
      (rs : RangeSet) (cursor : ℕ)
      → cursor ≤ e
      → (cursor ≤ frontier rs e cursor) × (frontier rs e cursor ≤ e)
  unfolding frontier
  frontier_bounds [] cursor h = omega arith
  frontier_bounds (r ∷ rs) cursor h =
      ground (arith, frontier_bounds rs cursor, frontier_bounds rs (min r.end e))

  frontier_in :
      (rs : RangeSet) (cursor x : ℕ)
      → cursor ≤ e
      → cursor ≤ x
      → x < frontier rs e cursor
      → contains rs x ≡ true
  unfolding frontier contains
  frontier_in [] cursor x h p q = absurd (omega arith)
  frontier_in (r ∷ rs) cursor x h p q =
      ground (arith, frontier_in rs cursor x, frontier_in rs (min r.end e) x)

  frontier_out :
      (lo : ℕ) (rs : RangeSet) (cursor : ℕ)
      → IsNormalFrom lo rs
      → cursor ≤ e
      → frontier rs e cursor < e
      → contains rs (frontier rs e cursor) ≡ false
  unfolding frontier contains
  frontier_out lo [] cursor n h q = refl
  frontier_out lo (r ∷ rs) cursor n h q = ground (
    arith,
    frontier_out (suc r.end) rs cursor n.2,
    frontier_out (suc r.end) rs (min r.end e) n.2,
    frontier_bounds rs cursor,
    frontier_bounds rs (min r.end e),
    contains_below (suc r.end) rs cursor n.2,
  )

-- On a normal set and a range `[b, e)` that is not empty, the function answers true exactly when a
-- prefix of the range that is not empty is in the set and at most `gap` bytes are left behind that
-- prefix, whatever of those bytes is in the set.
pub is_range_covered_allowing_small_interior_gaps_iff :
    (rs : RangeSet) (b e gap : ℕ)
    → IsNormal rs
    → b < e
    → (is_range_covered_allowing_small_interior_gaps rs b e gap ≡ true)
      ↔ ((c : ℕ) × PrefixIn rs b e gap c)
unfolding is_range_covered_allowing_small_interior_gaps tail_gap
is_range_covered_allowing_small_interior_gaps_iff rs b e gap n h = (
  λ t. (
    frontier rs e b,
    (
      ground (arith, gaps_loop-eq 0 rs b e gap b n, frontier_bounds e rs b),
      ground (arith, frontier_bounds e rs b),
      ground (arith, gaps_loop-eq 0 rs b e gap b n, frontier_bounds e rs b),
      λ x p q. frontier_in e rs b x (omega arith) p q,
    ),
  ),
  λ (c, prefix). ground (
    arith,
    gaps_loop-eq 0 rs b e gap b n,
    frontier_bounds e rs b,
    frontier_out e 0 rs b n,
    prefix.3 (frontier rs e b),
  ),
)
