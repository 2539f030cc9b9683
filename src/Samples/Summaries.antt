-- ===== src/Samples/Summaries.antt =====
-- Summaries of a callee that are merged from two translation units.
use coretrace_stack_analyzer.Prelude.{ℕ, ◌≡◌, ◌↔◌, refl, true, false, List, [], ◌∷◌, arith}
use coretrace_stack_analyzer.ByteRanges.{RangeSet, range}
use coretrace_stack_analyzer.Summary.{
  trim_trailing_empty_public_param_effects, effective_public_param_effect_count, merge_params,
  add_public_ranges, add_slot_writes, has_slot_write, is_empty_public_param_effect, ParamEffect,
  no_effect, add_public_range, merge_public_param_effect, merge_public_function_summary,
}
use coretrace_stack_analyzer.Summary.Effect.{MergesTo}
use coretrace_stack_analyzer.Summary.Equal.{
  public_function_summary_equals, public_function_summary_equals_iff,
}
use coretrace_stack_analyzer.Summary.Trim.{effect_at}
use coretrace_stack_analyzer.Prelude.Text.{codes, text_eq}
use coretrace_stack_analyzer.Summary.Index.{
  SummaryIndex, summary_of, merge_uninitialized_summary_index,
  merge_uninitialized_summary_index-MergesTo,
}
use coretrace_stack_analyzer.Summary.Fixpoint.{
  merge_public_function_summary_exact, merge_public_function_summary_again,
}

abbrev writes_four : ParamEffect
writes_four = record no_effect { write_ranges = range 0 4 ∷ [] }

abbrev reads_eight : ParamEffect
reads_eight = record no_effect {
  read_before_write_ranges = range 4 8 ∷ [];
  pointer_slot_writes = record { slot_offset = 0; write_size_bytes = 8 } ∷ [];
}

abbrev one_unit : List ParamEffect
one_unit = writes_four ∷ []

abbrev other_unit : List ParamEffect
other_unit = no_effect ∷ reads_eight ∷ no_effect ∷ []

-- The trailing parameter without an effect is not kept.
merge_run :
    merge_public_function_summary one_unit other_unit ≡ (writes_four ∷ reads_eight ∷ [], true)
unfolding merge_public_function_summary trim_trailing_empty_public_param_effects
    effective_public_param_effect_count merge_params merge_public_param_effect add_public_ranges
    add_public_range add_slot_writes has_slot_write is_empty_public_param_effect
merge_run = refl

merge_public_function_summary_exact_example :
    ((merge_public_function_summary one_unit other_unit).1 ≡ false)
    ↔ ((merge_public_function_summary one_unit other_unit).0 ≡ one_unit)
merge_public_function_summary_exact_example =
    merge_public_function_summary_exact one_unit other_unit (omega arith) (omega arith)

merge_public_function_summary_again_example :
    merge_public_function_summary (merge_public_function_summary one_unit other_unit).0 other_unit
    ≡ ((merge_public_function_summary one_unit other_unit).0, false)
merge_public_function_summary_again_example =
    merge_public_function_summary_again one_unit other_unit (omega arith) (omega arith)

abbrev one_range : RangeSet
one_range = range 0 4 ∷ []

public_function_summary_equals_iff_example :
    (public_function_summary_equals one_unit other_unit ≡ true)
    ↔ ((i : ℕ) → effect_at one_unit i ≡ effect_at other_unit i)
public_function_summary_equals_iff_example = public_function_summary_equals_iff one_unit other_unit

abbrev first_unit_index : SummaryIndex
first_unit_index = (codes "fill", one_unit) ∷ []

abbrev second_unit_index : SummaryIndex
second_unit_index = (codes "fill", other_unit) ∷ (codes "none", no_effect ∷ []) ∷ []

merge_uninitialized_summary_index-MergesTo_example :
    MergesTo
      (effect_at (summary_of first_unit_index (codes "fill")) 1)
      (effect_at (summary_of second_unit_index (codes "fill")) 1)
      (effect_at
        (summary_of
          (merge_uninitialized_summary_index first_unit_index second_unit_index).0
          (codes "fill"))
        1)
unfolding text_eq
merge_uninitialized_summary_index-MergesTo_example =
    merge_uninitialized_summary_index-MergesTo first_unit_index second_unit_index (codes "fill") 1
      (omega arith, tt) (omega arith, (omega arith, tt)) (refl, (refl, tt))
