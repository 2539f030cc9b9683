-- ===== src/InitState/Meet.antt =====
-- The meet of two states, object by object, and the shape that states keep.
use coretrace_stack_analyzer.Prelude.{
  ℕ, zero, suc, ◌<◌, ◌≡◌, refl, ap, ◌↔◌, Bool, true, false, ◌&&◌, List, [], ◌∷◌, arith, length,
  get_or, ==_iff,
}
use coretrace_stack_analyzer.ByteRanges.Contains.{contains, IsNormal}
use coretrace_stack_analyzer.ByteRanges.Add.{contains-add_range}
use coretrace_stack_analyzer.ByteRanges.Intersect.{contains-intersect_ranges}
use coretrace_stack_analyzer.InitState.{
  InitRangeState, TrackedMemoryObject, meet_zip, meet_must_state, make_bottom_state, make_top_state,
  get_object_full_range_end,
}

-- The initialised bytes of object `i`.
abbrev pub byte_in : InitRangeState → ℕ → ℕ → Bool
byte_in state i x = contains (get_or state i []) x

abbrev pub AllNormal : InitRangeState → Type 0
AllNormal [] = Unit
AllNormal (rs ∷ state) = IsNormal rs × AllNormal state

-- A state for `count` objects, each with a normal set.
abbrev pub IsState : ℕ → InitRangeState → Type 0
IsState count state = (length state ≡ count) × AllNormal state

length-meet_zip : (a b : InitRangeState) → length (meet_zip a b) ≡ length a
unfolding meet_zip
length-meet_zip [] b = refl
length-meet_zip (x ∷ a) [] = refl
length-meet_zip (x ∷ a) (y ∷ b) = ap suc (length-meet_zip a b)

meet_zip-AllNormal : (a b : InitRangeState) → AllNormal a → AllNormal b → AllNormal (meet_zip a b)
unfolding meet_zip
meet_zip-AllNormal [] b n m = tt
meet_zip-AllNormal (x ∷ a) [] n m = n
meet_zip-AllNormal (x ∷ a) (y ∷ b) n m =
    ((contains-intersect_ranges x y n.0 m.0).0, meet_zip-AllNormal a b n.1 m.1)

byte_in-meet_zip :
    (a b : InitRangeState) (i x : ℕ)
    → length a ≡ length b
    → AllNormal a
    → AllNormal b
    → byte_in (meet_zip a b) i x ≡ (byte_in a i x && byte_in b i x)
unfolding meet_zip contains
byte_in-meet_zip [] b i x h n m = refl
byte_in-meet_zip (p ∷ a) [] i x h n m = absurd (omega arith)
byte_in-meet_zip (p ∷ a) (q ∷ b) zero x h n m = (contains-intersect_ranges p q n.0 m.0).1 x
byte_in-meet_zip (p ∷ a) (q ∷ b) (suc i) x h n m = byte_in-meet_zip a b i x (omega arith) n.1 m.1

-- The meet of two states for the same objects is a state for them, in which a byte of an object is
-- initialised exactly when it is in both.
pub meet_must_state_lem :
    (count : ℕ) (a b : InitRangeState)
    → IsState count a
    → IsState count b
    → IsState count (meet_must_state a b)
      × ((i x : ℕ) → byte_in (meet_must_state a b) i x ≡ (byte_in a i x && byte_in b i x))
unfolding meet_must_state
meet_must_state_lem count a b s t =
    let same : length a ≡ length b = omega arith in
    rw ((==_iff _ _).1 same) (
      (omega (arith, length-meet_zip a b), meet_zip-AllNormal a b s.1 t.1),
      λ i x. byte_in-meet_zip a b i x same s.1 t.1,
    )

-- Byte `x` of object `i`, within the range that the analysis gives the object.
abbrev pub InObject : List TrackedMemoryObject → ℕ → ℕ → Type 0
InObject [] i x = ⊥
InObject (obj ∷ objs) zero x = x < get_object_full_range_end obj
InObject (obj ∷ objs) (suc i) x = InObject objs i x

pub make_top_state-IsState :
    (tracked : List TrackedMemoryObject) → IsState (length tracked) (make_top_state tracked)
unfolding make_top_state
make_top_state-IsState [] = (refl, tt)
make_top_state-IsState (obj ∷ objs) =
    let (same, normal) = make_top_state-IsState objs in
    (ap suc same, ((contains-add_range [] 0 (get_object_full_range_end obj) tt).0, normal))

pub make_bottom_state-IsState : (count : ℕ) → IsState count (make_bottom_state count)
unfolding make_bottom_state
make_bottom_state-IsState zero = (refl, tt)
make_bottom_state-IsState (suc count) =
    let (same, normal) = make_bottom_state-IsState count in (ap suc same, (tt, normal))

pub byte_in-make_bottom_state : (count i x : ℕ) → byte_in (make_bottom_state count) i x ≡ false
unfolding make_bottom_state contains
byte_in-make_bottom_state zero i x = refl
byte_in-make_bottom_state (suc count) zero x = refl
byte_in-make_bottom_state (suc count) (suc i) x = byte_in-make_bottom_state count i x

pub byte_in-make_top_state :
    (tracked : List TrackedMemoryObject) (i x : ℕ)
    → (byte_in (make_top_state tracked) i x ≡ true) ↔ InObject tracked i x
unfolding make_top_state contains
byte_in-make_top_state [] i x = (λ h. cc, λ h. absurd h)
byte_in-make_top_state (obj ∷ objs) zero x =
    ground (arith, (contains-add_range [] 0 (get_object_full_range_end obj) tt).1 x)
byte_in-make_top_state (obj ∷ objs) (suc i) x = byte_in-make_top_state objs i x
