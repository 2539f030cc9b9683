-- ===== src/ByteRanges/Contains.antt =====
-- What a range set means: the bytes that it contains, and the shape that the operations keep.
use coretrace_stack_analyzer.Prelude.{
  ℕ, suc, ◌≤◌, ◌<◌, ◌≡◌, Bool, false, ◌&&◌, ◌||◌, [], ◌∷◌, arith, ltb, leb,
}
use coretrace_stack_analyzer.ByteRanges.{ByteRange, RangeSet}

abbrev pub inside : ByteRange → ℕ → Bool
inside r x = leb r.first x && ltb x r.end

unfoldable pub contains : RangeSet → ℕ → Bool
contains [] x = false
contains (r ∷ rs) x = inside r x || contains rs x

-- Ranges are not empty, in order, and neither overlap nor touch; the first begins at `lo` or later.
abbrev pub IsNormalFrom : ℕ → RangeSet → Type 0
IsNormalFrom lo [] = Unit
IsNormalFrom lo (r ∷ rs) = (lo ≤ r.first) × (r.first < r.end) × IsNormalFrom (suc r.end) rs

abbrev pub IsNormal : RangeSet → Type 0
IsNormal rs = IsNormalFrom 0 rs

pub IsNormalFrom-le :
    (hi lo : ℕ) (rs : RangeSet) → lo ≤ hi → IsNormalFrom hi rs → IsNormalFrom lo rs
IsNormalFrom-le hi lo [] h n = tt
IsNormalFrom-le hi lo (r ∷ rs) h n = (omega arith, n.1, n.2)

-- Nothing below the first range is contained.
pub contains_below :
    (lo : ℕ) (rs : RangeSet) (x : ℕ) → IsNormalFrom lo rs → x < lo → contains rs x ≡ false
unfolding contains
contains_below lo [] x n h = ground arith
contains_below lo (r ∷ rs) x n h = ground (arith, contains_below (suc r.end) rs x)
