-- ===== src/InitState.antt =====
-- The must-analysis of src/analysis/UninitializedVarAnalysis.cpp on top of the byte-range sets:
-- tracked memory objects, the state that holds a range set for each of them, the meet over
-- predecessors, and the questions that the analysis asks of a state.
pub mod Layout
pub mod Classify
pub mod Meet
pub mod InState
use coretrace_stack_analyzer.Prelude.{
  ℕ, ◌+◌, ◌-◌, ◌/◌, ◌^◌, min, max, Bool, true, false, ◌&&◌, ◌||◌, Option, none, some, List, [], ◌∷◌,
  map, ltb, leb, ◌==◌, if◌then◌else◌, length, replicate,
}
use coretrace_stack_analyzer.ByteRanges.{
  ByteRange, RangeSet, add_range, intersect_ranges, is_range_covered,
  is_range_covered_allowing_small_interior_gaps, max_interior_gap_bytes,
}

pub data InitLatticeState : Type 0 where
  uninit partial init : InitLatticeState

pub data TrackedObjectKind : Type 0 where
  alloca pointer_param : TrackedObjectKind

-- `size_bytes` 0 means that no upper bound is known. The LLVM value behind the object is not read
-- by the operations below.
pub record TrackedMemoryObject : Type 0 where
  pub size_bytes : ℕ
  pub non_padding_ranges : RangeSet
  pub kind : TrackedObjectKind
  pub has_non_padding_layout : Bool

abbrev pub u64_max : ℕ
u64_max = 2 ^ 64 - 1

abbrev pub unknown_object_full_range : ℕ
unknown_object_full_range = u64_max / 4

pub saturating_add : ℕ → ℕ → ℕ
saturating_add lhs rhs = if ltb (u64_max - rhs) lhs then u64_max else lhs + rhs

unfoldable pub get_object_full_range_end : TrackedMemoryObject → ℕ
get_object_full_range_end obj =
    if obj.size_bytes == 0 then unknown_object_full_range else obj.size_bytes

-- `none` where the source returns false and leaves the out parameters alone or empty.
pub clip_range_to_object : TrackedMemoryObject → ℕ → ℕ → Option ByteRange
clip_range_to_object obj b e =
    if obj.size_bytes == 0
    then (if leb e b then none else some (record { first = b; end = e }))
    else if leb obj.size_bytes b
    then none
    else if ltb b (min e obj.size_bytes)
    then some (record { first = b; end = min e obj.size_bytes })
    else none

-- The loop over the ranges of the object that are not padding.
relevant_covered : RangeSet → RangeSet → ℕ → ℕ → Bool
relevant_covered [] initialized b e = true
relevant_covered (relevant ∷ rs) initialized b e =
    let clipped_begin = max b relevant.first in
    let clipped_end = min e relevant.end in
    let rest = relevant_covered rs initialized b e in
    if leb clipped_end clipped_begin
    then rest
    else if is_range_covered initialized clipped_begin clipped_end
    then rest
    else false

pub is_range_covered_respecting_non_padding_layout : TrackedMemoryObject → RangeSet → ℕ → ℕ → Bool
unfolding relevant_covered
is_range_covered_respecting_non_padding_layout obj initialized b e =
    if is_range_covered initialized b e
    then true
    else if obj.has_non_padding_layout
    then relevant_covered obj.non_padding_ranges initialized b e
    else is_range_covered_allowing_small_interior_gaps initialized b e max_interior_gap_bytes

pub classify_init_state : RangeSet → ℕ → InitLatticeState
classify_init_state [] total_size = uninit
classify_init_state (r ∷ []) total_size =
    if total_size == 0
    then uninit
    else if r.first == 0 && leb total_size r.end
    then init
    else partial
classify_init_state (r ∷ s ∷ rs) total_size = if total_size == 0 then uninit else partial

abbrev pub InitRangeState : Type 0
InitRangeState = List RangeSet

pub make_bottom_state : ℕ → InitRangeState
make_bottom_state tracked_count = replicate tracked_count []

unfoldable pub make_top_state : List TrackedMemoryObject → InitRangeState
make_top_state [] = []
make_top_state (obj ∷ objs) = add_range [] 0 (get_object_full_range_end obj) ∷ make_top_state objs

meet_zip : InitRangeState → InitRangeState → InitRangeState
meet_zip [] incoming = []
meet_zip (a ∷ accum) [] = a ∷ accum
meet_zip (a ∷ accum) (b ∷ incoming) = intersect_ranges a b ∷ meet_zip accum incoming

-- States of different sizes are left as they are.
unfoldable pub meet_must_state : InitRangeState → InitRangeState → InitRangeState
unfolding meet_zip
meet_must_state accum incoming =
    if length accum == length incoming then meet_zip accum incoming else accum

-- The loop of `computeInState` over the predecessors. Of each it is known whether the entry block
-- reaches it, and its out state if one has been computed. The flag is `havePred`.
merge_preds :
    List (Bool × Option InitRangeState) → ℕ → Bool → InitRangeState → Bool × InitRangeState
merge_preds [] count have merged = (have, merged)
merge_preds ((false, out) ∷ preds) count have merged = merge_preds preds count have merged
merge_preds ((true, none) ∷ preds) count have merged = (true, make_bottom_state count)
merge_preds ((true, some out) ∷ preds) count have merged =
    merge_preds preds count true (meet_must_state merged out)

unfoldable pub compute_in_state :
    Bool → List (Bool × Option InitRangeState) → List TrackedMemoryObject → InitRangeState
unfolding merge_preds make_bottom_state
compute_in_state is_entry preds tracked =
    if is_entry
    then make_bottom_state (length tracked)
    else (let (have, merged) = merge_preds preds (length tracked) false (make_top_state tracked) in
        if have then merged else make_bottom_state (length tracked))
