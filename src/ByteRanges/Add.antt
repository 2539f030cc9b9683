-- ===== src/ByteRanges/Add.antt =====
-- `addRange` adds exactly the bytes of the new range, and keeps the set normal.
use coretrace_stack_analyzer.Prelude.{ℕ, suc, ◌≤◌, ◌<◌, ◌≡◌, refl, min, max, ◌||◌, [], ◌∷◌, arith}
use coretrace_stack_analyzer.ByteRanges.{RangeSet, range, absorb, insert_range, add_range}
use coretrace_stack_analyzer.ByteRanges.Contains.{
  inside, contains, IsNormalFrom, IsNormal, IsNormalFrom-le,
}

contains-absorb :
    (b e : ℕ) (rs : RangeSet) (x : ℕ)
    → b < e
    → IsNormalFrom b rs
    → contains (absorb b e rs) x ≡ (inside (range b e) x || contains rs x)
unfolding absorb contains
contains-absorb b e [] x h n = refl
contains-absorb b e (r ∷ rs) x h n =
    ground (arith, contains-absorb b (max e r.end) rs x, IsNormalFrom-le (suc r.end) b rs)

absorb-IsNormal :
    (lo b e : ℕ) (rs : RangeSet)
    → lo ≤ b
    → b < e
    → IsNormalFrom b rs
    → IsNormalFrom lo (absorb b e rs)
unfolding absorb
absorb-IsNormal lo b e [] l h n = omega arith
absorb-IsNormal lo b e (r ∷ rs) l h n =
    ground (arith, absorb-IsNormal lo b (max e r.end) rs, IsNormalFrom-le (suc r.end) b rs)

contains-insert_range :
    (lo : ℕ) (rs : RangeSet) (b e x : ℕ)
    → b < e
    → IsNormalFrom lo rs
    → contains (insert_range rs b e) x ≡ (inside (range b e) x || contains rs x)
unfolding insert_range contains
contains-insert_range lo [] b e x h n = refl
contains-insert_range lo (r ∷ rs) b e x h n = ground (
  arith,
  contains-insert_range (suc r.end) rs b e x,
  contains-absorb (min r.first b) (max r.end e) rs x,
  IsNormalFrom-le (suc r.end) (min r.first b) rs,
)

insert_range-IsNormal :
    (lo : ℕ) (rs : RangeSet) (b e : ℕ)
    → b < e
    → lo ≤ b
    → IsNormalFrom lo rs
    → IsNormalFrom lo (insert_range rs b e)
unfolding insert_range
insert_range-IsNormal lo [] b e h l n = omega arith
insert_range-IsNormal lo (r ∷ rs) b e h l n = ground (
  arith,
  insert_range-IsNormal (suc r.end) rs b e,
  absorb-IsNormal lo (min r.first b) (max r.end e) rs,
  IsNormalFrom-le (suc r.end) (min r.first b) rs,
)

-- After `addRange(ranges, b, e)` on a normal set, a byte is in the set exactly when it was in the
-- set before or lies in `[b, e)`, and the set is normal again.
pub contains-add_range :
    (rs : RangeSet) (b e : ℕ)
    → IsNormal rs
    → IsNormal (add_range rs b e)
      × ((x : ℕ) → contains (add_range rs b e) x ≡ (inside (range b e) x || contains rs x))
unfolding add_range
contains-add_range rs b e n = (
  ground (arith, insert_range-IsNormal 0 rs b e),
  λ x. ground (arith, contains-insert_range 0 rs b e x),
)
