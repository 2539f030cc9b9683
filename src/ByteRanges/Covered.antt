-- ===== src/ByteRanges/Covered.antt =====
-- `isRangeCovered` answers whether every byte of a range is in the set.
use coretrace_stack_analyzer.Prelude.{
  ℕ, suc, ◌≤◌, ◌<◌, ◌≡◌, ◌↔◌, inl, inr, true, [], ◌∷◌, arith, leb, Bool-cases,
}
use coretrace_stack_analyzer.ByteRanges.{RangeSet, covered_loop, is_range_covered}
use coretrace_stack_analyzer.ByteRanges.Contains.{contains, IsNormalFrom, IsNormal, contains_below}

-- Every byte of `[b, e)` is in the set.
abbrev pub AllIn : RangeSet → ℕ → ℕ → Type 0
AllIn rs b e = (x : ℕ) → b ≤ x → x < e → contains rs x ≡ true

covered_loop_sound :
    (rs : RangeSet) (b e x : ℕ) → covered_loop rs b e ≡ true → b ≤ x → x < e → contains rs x ≡ true
unfolding covered_loop contains
covered_loop_sound [] b e x h p q = cc
covered_loop_sound (r ∷ rs) b e x h p q = ground (arith, covered_loop_sound rs b e x)

-- The byte behind the range that holds `b` is in a gap, so all of `[b, e)` is in that range.
covered_loop_complete :
    (lo : ℕ) (rs : RangeSet) (b e : ℕ)
    → IsNormalFrom lo rs
    → b < e
    → AllIn rs b e
    → covered_loop rs b e ≡ true
unfolding covered_loop contains
covered_loop_complete lo [] b e n h all = cc (all b (omega arith) h)
covered_loop_complete lo (r ∷ rs) b e n h all = elim (Bool-cases (leb r.end b)) [
  | inl past ↦
      let rest : AllIn rs b e = λ x p q. ground (arith, all x p q) in
      ground (arith, covered_loop_complete (suc r.end) rs b e n.2 h rest)
  | inr within ↦ ground (
    arith,
    all b,
    all r.end,
    contains_below (suc r.end) rs b n.2,
    contains_below (suc r.end) rs r.end n.2,
  )
]

-- On a normal set `isRangeCovered(initialized, b, e)` is true exactly when every byte of `[b, e)`
-- is in the set; an empty range is covered.
pub is_range_covered_iff :
    (rs : RangeSet) (b e : ℕ) → IsNormal rs → (is_range_covered rs b e ≡ true) ↔ AllIn rs b e
unfolding is_range_covered
is_range_covered_iff rs b e n = (
  λ h x p q. ground (arith, covered_loop_sound rs b e x),
  λ all. ground (arith, covered_loop_complete 0 rs b e n),
)
