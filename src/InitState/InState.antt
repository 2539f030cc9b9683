-- ===== src/InitState/InState.antt =====
-- `computeInState`: the state at the head of a block.
use coretrace_stack_analyzer.Prelude.{
  ℕ, ◌≡◌, ◌↔◌, Bool, true, false, ◌||◌, Option, none, some, List, [], ◌∷◌, arith, length,
}
use coretrace_stack_analyzer.InitState.{
  InitRangeState, TrackedMemoryObject, merge_preds, meet_must_state, make_top_state,
  compute_in_state,
}
use coretrace_stack_analyzer.InitState.Meet.{
  byte_in, IsState, meet_must_state_lem, InObject, make_top_state-IsState,
  make_bottom_state-IsState, byte_in-make_bottom_state, byte_in-make_top_state,
}

abbrev pub Preds : Type 0
Preds = List (Bool × Option InitRangeState)

-- The out states that have been computed are states for `count` objects.
abbrev pub AllStates : ℕ → Preds → Type 0
AllStates count [] = Unit
AllStates count ((reached, none) ∷ preds) = AllStates count preds
AllStates count ((reached, some out) ∷ preds) = IsState count out × AllStates count preds

-- Every reachable predecessor has an out state, and byte `x` of object `i` is initialised in it.
abbrev pub InAll : Preds → ℕ → ℕ → Type 0
InAll [] i x = Unit
InAll ((false, out) ∷ preds) i x = InAll preds i x
InAll ((true, none) ∷ preds) i x = ⊥
InAll ((true, some out) ∷ preds) i x = (byte_in out i x ≡ true) × InAll preds i x

abbrev pub any_reachable : Preds → Bool
any_reachable [] = false
any_reachable ((reached, out) ∷ preds) = reached || any_reachable preds

merge_preds-IsState :
    (count : ℕ) (preds : Preds) (have : Bool) (merged : InitRangeState)
    → AllStates count preds
    → IsState count merged
    → IsState count (merge_preds preds count have merged).1
unfolding merge_preds
merge_preds-IsState count [] have merged all s = s
merge_preds-IsState count ((false, none) ∷ preds) have merged all s =
    merge_preds-IsState count preds have merged all s
merge_preds-IsState count ((false, some out) ∷ preds) have merged all s =
    merge_preds-IsState count preds have merged all.1 s
merge_preds-IsState count ((true, none) ∷ preds) have merged all s = make_bottom_state-IsState count
merge_preds-IsState count ((true, some out) ∷ preds) have merged all s =
    merge_preds-IsState count preds true (meet_must_state merged out) all.1
      (meet_must_state_lem count merged out s all.0).0

have-merge_preds :
    (count : ℕ) (preds : Preds) (have : Bool) (merged : InitRangeState)
    → (merge_preds preds count have merged).0 ≡ (have || any_reachable preds)
unfolding merge_preds
have-merge_preds count [] have merged = ground arith
have-merge_preds count ((false, none) ∷ preds) have merged =
    have-merge_preds count preds have merged
have-merge_preds count ((false, some out) ∷ preds) have merged =
    have-merge_preds count preds have merged
have-merge_preds count ((true, none) ∷ preds) have merged = ground arith
have-merge_preds count ((true, some out) ∷ preds) have merged =
    ground (arith, have-merge_preds count preds true (meet_must_state merged out))

byte_in-merge_preds :
    (count : ℕ) (preds : Preds) (have : Bool) (merged : InitRangeState) (i x : ℕ)
    → AllStates count preds
    → IsState count merged
    → (byte_in (merge_preds preds count have merged).1 i x ≡ true)
      ↔ ((byte_in merged i x ≡ true) × InAll preds i x)
unfolding merge_preds
byte_in-merge_preds count [] have merged i x all s = (λ h. (h, tt), λ h. h.0)
byte_in-merge_preds count ((false, none) ∷ preds) have merged i x all s =
    byte_in-merge_preds count preds have merged i x all s
byte_in-merge_preds count ((false, some out) ∷ preds) have merged i x all s =
    byte_in-merge_preds count preds have merged i x all.1 s
byte_in-merge_preds count ((true, none) ∷ preds) have merged i x all s =
    (λ h. cc (byte_in-make_bottom_state count i x), λ h. absurd h.1)
byte_in-merge_preds count ((true, some out) ∷ preds) have merged i x all s =
    let (kept, met) = meet_must_state_lem count merged out s all.0 in
    ground (
      arith,
      met i x,
      byte_in-merge_preds count preds true (meet_must_state merged out) i x all.1 kept,
    )

-- Let the out states that have been computed be states for the tracked objects, and let the entry
-- reach a predecessor of a block other than the entry block. Then the in state of that block is a
-- state for the tracked objects, in which a byte is initialised exactly when it lies in its
-- object, every reachable predecessor has an out state, and the byte is initialised in each of
-- those.
pub compute_in_state_lem :
    (preds : Preds) (tracked : List TrackedMemoryObject)
    → AllStates (length tracked) preds
    → any_reachable preds ≡ true
    → IsState (length tracked) (compute_in_state false preds tracked)
      × ((i x : ℕ)
          → (byte_in (compute_in_state false preds tracked) i x ≡ true)
            ↔ (InObject tracked i x × InAll preds i x))
unfolding compute_in_state
compute_in_state_lem preds tracked all reached =
    let top = make_top_state tracked in
    let n = length tracked in
    rw (have-merge_preds n preds false top, reached)
      (
        merge_preds-IsState n preds false top all (make_top_state-IsState tracked),
        λ i x. ground (
          arith,
          byte_in-merge_preds n preds false top i x all (make_top_state-IsState tracked),
          byte_in-make_top_state tracked i x,
        ),
      )
