-- ===== src/ByteRanges/Intersect.antt =====
-- `intersectRanges` computes the common bytes of two sets in one pass over both.
use coretrace_stack_analyzer.Prelude.{
  ℕ, suc, ◌≤◌, ◌<◌, ◌≡◌, refl, min, max, inl, inr, Bool, false, ◌&&◌, ◌||◌, [], ◌∷◌, arith, ltb,
  ltb→lt, Bool-cases, if◌then◌else◌,
}
use coretrace_stack_analyzer.ByteRanges.{ByteRange, RangeSet, range, intersect_ranges}
use coretrace_stack_analyzer.ByteRanges.Contains.{
  inside, contains, IsNormalFrom, IsNormal, contains_below,
}

-- The overlap of two ranges, in front of the rest, contributes its bytes.
contains-overlap :
    (b e : ℕ) (rest : RangeSet) (x : ℕ)
    → contains (if ltb b e then range b e ∷ rest else rest) x
      ≡ (inside (range b e) x || contains rest x)
unfolding contains
contains-overlap b e rest x = ground arith

-- Past the range that ends first there is nothing left to share with it.
module _ (l r : ByteRange) (x : ℕ) (in_ls in_rs : Bool) where
  skip_left :
      l.end < r.end
      → (x < suc l.end → in_ls ≡ false)
      → (x < suc r.end → in_rs ≡ false)
      → (inside (range (max l.first r.first) (min l.end r.end)) x
          || (in_ls && (inside r x || in_rs)))
        ≡ ((inside l x || in_ls) && (inside r x || in_rs))
  skip_left h below_l below_r = ground arith

  skip_right :
      r.end ≤ l.end
      → (x < suc l.end → in_ls ≡ false)
      → (x < suc r.end → in_rs ≡ false)
      → (inside (range (max l.first r.first) (min l.end r.end)) x
          || ((inside l x || in_ls) && in_rs))
        ≡ ((inside l x || in_ls) && (inside r x || in_rs))
  skip_right h below_l below_r = ground arith

contains-intersect :
    (lo lo' : ℕ) (ls rs : RangeSet) (x : ℕ)
    → IsNormalFrom lo ls
    → IsNormalFrom lo' rs
    → contains (intersect_ranges ls rs) x ≡ (contains ls x && contains rs x)
unfolding intersect_ranges contains
contains-intersect lo lo' [] rs x n m = refl
contains-intersect lo lo' (l ∷ ls) [] x n m = ground arith
contains-intersect lo lo' (l ∷ ls) (r ∷ rs) x n m =
    let left = contains-intersect (suc l.end) lo' ls (r ∷ rs) x n.2 m in
    let right = contains-intersect lo (suc r.end) (l ∷ ls) rs x n m.2 in
    let below_l = contains_below (suc l.end) ls x n.2 in
    let below_r = contains_below (suc r.end) rs x m.2 in
    elim (Bool-cases (ltb l.end r.end)) [
      | inl h ↦
          rw (h, contains-overlap, left)
            (skip_left l r x (contains ls x) (contains rs x) (ltb→lt _ _ h) below_l below_r)
      | inr h ↦
          rw (h, contains-overlap, right)
            (skip_right l r x (contains ls x) (contains rs x) (ground arith) below_l below_r)
    ]

intersect-IsNormal :
    (k lo lo' : ℕ) (ls rs : RangeSet)
    → k ≤ max lo lo'
    → IsNormalFrom lo ls
    → IsNormalFrom lo' rs
    → IsNormalFrom k (intersect_ranges ls rs)
unfolding intersect_ranges
intersect-IsNormal k lo lo' [] rs h n m = tt
intersect-IsNormal k lo lo' (l ∷ ls) [] h n m = tt
intersect-IsNormal k lo lo' (l ∷ ls) (r ∷ rs) h n m = ground (
  arith,
  intersect-IsNormal k (suc l.end) lo' ls (r ∷ rs),
  intersect-IsNormal k lo (suc r.end) (l ∷ ls) rs,
  intersect-IsNormal (suc (min l.end r.end)) (suc l.end) lo' ls (r ∷ rs),
  intersect-IsNormal (suc (min l.end r.end)) lo (suc r.end) (l ∷ ls) rs,
)

-- Of two normal sets `intersectRanges` returns a normal set that contains exactly the bytes which
-- both contain.
pub contains-intersect_ranges :
    (ls rs : RangeSet)
    → IsNormal ls
    → IsNormal rs
    → IsNormal (intersect_ranges ls rs)
      × ((x : ℕ) → contains (intersect_ranges ls rs) x ≡ (contains ls x && contains rs x))
contains-intersect_ranges ls rs n m =
    (intersect-IsNormal 0 0 0 ls rs (omega arith) n m, λ x. contains-intersect 0 0 ls rs x n m)
