-- ===== src/ByteRanges/Canonical.antt =====
-- A normal set is determined by its bytes, so `==` of two sets decides whether they are the same.
use coretrace_stack_analyzer.Prelude.{ℕ, suc, ◌≡◌, refl, ap₂, [], ◌∷◌, arith}
use coretrace_stack_analyzer.ByteRanges.{ByteRange, RangeSet}
use coretrace_stack_analyzer.ByteRanges.Contains.{contains, IsNormalFrom, contains_below}

abbrev SameBytes : RangeSet → RangeSet → Type 0
SameBytes rs ss = (x : ℕ) → contains rs x ≡ contains ss x

-- The first ranges of two sets with the same bytes begin and end together.
first-eq :
    (lo lo' : ℕ) (r s : ByteRange) (rs ss : RangeSet)
    → IsNormalFrom lo (r ∷ rs)
    → IsNormalFrom lo' (s ∷ ss)
    → SameBytes (r ∷ rs) (s ∷ ss)
    → (r.first ≡ s.first) × (r.end ≡ s.end)
unfolding contains
first-eq lo lo' r s rs ss n m same = ground (
  arith,
  same r.first,
  same s.first,
  same r.end,
  same s.end,
  contains_below (suc r.end) rs s.first n.2,
  contains_below (suc s.end) ss r.first m.2,
  contains_below (suc r.end) rs r.end n.2,
  contains_below (suc s.end) ss s.end m.2,
)

rest_same :
    (lo lo' : ℕ) (r s : ByteRange) (rs ss : RangeSet)
    → IsNormalFrom lo (r ∷ rs)
    → IsNormalFrom lo' (s ∷ ss)
    → SameBytes (r ∷ rs) (s ∷ ss)
    → SameBytes rs ss
unfolding contains
rest_same lo lo' r s rs ss n m same x = ground (
  arith,
  same x,
  first-eq lo lo' r s rs ss n m same,
  contains_below (suc r.end) rs x n.2,
  contains_below (suc s.end) ss x m.2,
)

-- Two normal sets that contain the same bytes are equal, so that the analyzer may compare states
-- and summaries with `==`.
pub canonical :
    (lo lo' : ℕ) (rs ss : RangeSet)
    → IsNormalFrom lo rs
    → IsNormalFrom lo' ss
    → ((x : ℕ) → contains rs x ≡ contains ss x)
    → rs ≡ ss
unfolding contains
canonical lo lo' [] [] n m same = refl
canonical lo lo' [] (s ∷ ss) n m same = absurd (ground (arith, same s.first))
canonical lo lo' (r ∷ rs) [] n m same = absurd (ground (arith, same r.first))
canonical lo lo' (r ∷ rs) (s ∷ ss) n m same =
    let (firsts, ends) = first-eq lo lo' r s rs ss n m same in
    ap₂ ◌∷◌ (λ i. record { first = firsts i; end = ends i })
      (canonical (suc r.end) (suc s.end) rs ss n.2 m.2 (rest_same lo lo' r s rs ss n m same))
