-- ===== src/InitState/Classify.antt =====
-- The three lattice states and the bytes that they speak of; clipping; saturating sums.
use coretrace_stack_analyzer.Prelude.{
  ℕ, suc, ◌+◌, ◌≤◌, ◌<◌, ◌≡◌, refl, ◌↔◌, min, Bool, true, false, Option, none, some, [], ◌∷◌, arith,
  ltb, leb, ◌==◌, ◌&&◌, ◌||◌,
}
use coretrace_stack_analyzer.ByteRanges.{ByteRange, RangeSet}
use coretrace_stack_analyzer.ByteRanges.Contains.{inside, contains, IsNormal, contains_below}
use coretrace_stack_analyzer.ByteRanges.Covered.{AllIn}
use coretrace_stack_analyzer.InitState.{
  uninit, init, TrackedMemoryObject, classify_init_state, clip_range_to_object, saturating_add,
  u64_max,
}

-- Every byte of the set is below `size`.
abbrev pub IsWithin : ℕ → RangeSet → Type 0
IsWithin size rs = (x : ℕ) → contains rs x ≡ true → x < size

classify-init :
    (rs : RangeSet) (size : ℕ)
    → IsNormal rs
    → IsWithin size rs
    → 0 < size
    → (classify_init_state rs size ≡ init) ↔ AllIn rs 0 size
unfolding classify_init_state contains
classify-init [] size n w h = (λ e. cc, λ all. cc (all 0 (omega arith) h))
classify-init (r ∷ []) size n w h =
    (λ e x p q. ground arith, λ all. ground (arith, all 0 (omega arith) h, all r.end))
classify-init (r ∷ s ∷ rs) size n w h = (
  λ e x p q. ground arith,
  λ all.
      ground (arith, all r.end (omega arith), w s.first, contains_below (suc s.end) rs r.end n.2.2),
)

classify-uninit :
    (rs : RangeSet) (size : ℕ)
    → IsNormal rs
    → 0 < size
    → (classify_init_state rs size ≡ uninit) ↔ ((x : ℕ) → contains rs x ≡ false)
unfolding classify_init_state contains
classify-uninit [] size n h = (λ e x. refl, λ no_byte. refl)
classify-uninit (r ∷ []) size n h =
    (λ e x. ground arith, λ no_byte. ground (arith, no_byte r.first))
classify-uninit (r ∷ s ∷ rs) size n h =
    (λ e x. ground arith, λ no_byte. ground (arith, no_byte r.first))

-- For a normal set inside an object of `size` bytes, which is not empty, `classifyInitState`
-- returns Init exactly when every byte of the object is in the set, and Uninit exactly when the set
-- contains no byte.
pub classify_init_state_lem :
    (rs : RangeSet) (size : ℕ)
    → IsNormal rs
    → IsWithin size rs
    → 0 < size
    → ((classify_init_state rs size ≡ init) ↔ AllIn rs 0 size)
      × ((classify_init_state rs size ≡ uninit) ↔ ((x : ℕ) → contains rs x ≡ false))
classify_init_state_lem rs size n w h = (classify-init rs size n w h, classify-uninit rs size n h)

-- The bytes of an access that lie in the object; an object of size 0 has no known end.
abbrev pub in_object : TrackedMemoryObject → ℕ → Bool
in_object obj x = obj.size_bytes == 0 || ltb x obj.size_bytes

abbrev pub clipped_contains : Option ByteRange → ℕ → Bool
clipped_contains none x = false
clipped_contains (some r) x = inside r x

abbrev pub IsNotEmpty : Option ByteRange → Type 0
IsNotEmpty none = Unit
IsNotEmpty (some r) = r.first < r.end

-- `clipRangeToObject` keeps exactly the bytes of `[b, e)` that lie in the object, and a range that
-- it returns is not empty.
pub clip_range_to_object_lem :
    (obj : TrackedMemoryObject) (b e : ℕ)
    → ((x : ℕ)
        → clipped_contains (clip_range_to_object obj b e) x
          ≡ (leb b x && ltb x e && in_object obj x))
      × IsNotEmpty (clip_range_to_object obj b e)
unfolding clip_range_to_object
clip_range_to_object_lem obj b e = (λ x. ground arith, ground arith)

-- Of two 64-bit numbers `saturatingAdd` is the sum, cut off at the greatest 64-bit number.
pub saturating_add-eq-min :
    (lhs rhs : ℕ) → lhs ≤ u64_max → rhs ≤ u64_max → saturating_add lhs rhs ≡ min (lhs + rhs) u64_max
unfolding saturating_add
saturating_add-eq-min lhs rhs h k = ground arith
