-- ===== src/Samples/States.antt =====
-- The initialisation state on a function with two objects.
use coretrace_stack_analyzer.Prelude.{
  ℕ, ◌<◌, ◌≡◌, refl, ◌↔◌, true, false, none, some, [], ◌∷◌, arith,
}
use coretrace_stack_analyzer.ByteRanges.{RangeSet, range, add_range, intersect_ranges}
use coretrace_stack_analyzer.ByteRanges.Contains.{contains}
use coretrace_stack_analyzer.InitState.{
  alloca, TrackedMemoryObject, InitRangeState, is_range_covered_respecting_non_padding_layout,
  meet_must_state, get_object_full_range_end, make_top_state, compute_in_state,
}
use coretrace_stack_analyzer.InitState.Layout.{RelevantIn, respecting_layout_iff}
use coretrace_stack_analyzer.InitState.Meet.{byte_in, IsState, InObject}
use coretrace_stack_analyzer.InitState.InState.{Preds, InAll, compute_in_state_lem}

-- A struct of 8 bytes with padding in bytes 1 to 3.
abbrev padded : TrackedMemoryObject
padded = record {
  size_bytes = 8;
  non_padding_ranges = range 0 1 ∷ range 4 8 ∷ [];
  kind = alloca;
  has_non_padding_layout = true;
}

abbrev flat : TrackedMemoryObject
flat = record {
  size_bytes = 4;
  non_padding_ranges = [];
  kind = alloca;
  has_non_padding_layout = false;
}

abbrev fields : RangeSet
fields = range 0 1 ∷ range 4 8 ∷ []

abbrev left_out : InitRangeState
left_out = fields ∷ (range 0 4 ∷ []) ∷ []

abbrev right_out : InitRangeState
right_out = (range 4 8 ∷ []) ∷ (range 0 2 ∷ []) ∷ []

abbrev two_preds : Preds
two_preds = (true, some left_out) ∷ (false, none) ∷ (true, some right_out) ∷ []

in_state_run :
    compute_in_state false two_preds (padded ∷ flat ∷ []) ≡ (range 4 8 ∷ []) ∷ (range 0 2 ∷ []) ∷ []
unfolding compute_in_state meet_must_state make_top_state get_object_full_range_end add_range
    intersect_ranges
in_state_run = refl

compute_in_state_lem_example :
    IsState 2 (compute_in_state false two_preds (padded ∷ flat ∷ []))
    × ((i x : ℕ)
        → (byte_in (compute_in_state false two_preds (padded ∷ flat ∷ [])) i x ≡ true)
          ↔ (InObject (padded ∷ flat ∷ []) i x × InAll two_preds i x))
compute_in_state_lem_example =
    compute_in_state_lem two_preds (padded ∷ flat ∷ [])
      ((refl, (omega arith, (omega arith, tt))), ((refl, (omega arith, (omega arith, tt))), tt))
      refl

respecting_layout_iff_example :
    (is_range_covered_respecting_non_padding_layout padded fields 0 8 ≡ true)
    ↔ RelevantIn padded.non_padding_ranges fields 0 8
respecting_layout_iff_example = respecting_layout_iff padded fields 0 8 refl (omega arith)

fields_within : (x : ℕ) → contains fields x ≡ true → x < 8
unfolding contains
fields_within x h = ground arith
