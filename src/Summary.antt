-- ===== src/Summary.antt =====
-- The cross-module summaries of src/analysis/UninitializedVarAnalysis.cpp and of
-- include/analysis/UninitializedVarAnalysis.hpp: what a function reads and writes through its
-- pointer parameters, how two summaries merge, and the flag by which the driver's fixpoint over
-- translation units decides whether it has to go on.
pub mod Ranges
pub mod Effect
pub mod Trim
pub mod Equal
pub mod Function
pub mod Fixpoint
pub mod Index
use coretrace_stack_analyzer.Prelude.{
  ℕ, zero, suc, ◌-◌, min, max, Bool, true, false, not, ◌&&◌, ◌||◌, List, [], ◌∷◌, ◌++◌, ltb, leb,
  ◌==◌, if◌then◌else◌, length, get_or, take, replicate,
}
use coretrace_stack_analyzer.ByteRanges.{ByteRange, RangeSet, range, absorb}

-- `UninitializedSummaryPointerSlotWrite`; a size of 0 is a write of the whole pointee.
pub record PointerSlotWrite : Type 0 where
  pub slot_offset : ℕ
  pub write_size_bytes : ℕ

-- `UninitializedSummaryParamEffect`.
pub record ParamEffect : Type 0 where
  pub read_before_write_ranges : RangeSet
  pub write_ranges : RangeSet
  pub pointer_slot_writes : List PointerSlotWrite
  pub has_unknown_read_before_write : Bool
  pub has_unknown_write : Bool

abbrev pub no_effect : ParamEffect
no_effect = record {
  read_before_write_ranges = [];
  write_ranges = [];
  pointer_slot_writes = [];
  has_unknown_read_before_write = false;
  has_unknown_write = false;
}

-- Whether the loop that absorbs the next ranges runs at all.
absorbs_next : ℕ → RangeSet → Bool
absorbs_next e [] = false
absorbs_next e (next ∷ rs) = leb next.first e

insert_public_range : RangeSet → ℕ → ℕ → RangeSet × Bool
unfolding absorbs_next absorb
insert_public_range [] b e = (range b e ∷ [], true)
insert_public_range (it ∷ rs) b e =
    let (inserted, changed) = insert_public_range rs b e in
    if ltb it.end b
    then (it ∷ inserted, changed)
    else if ltb e it.first
    then (range b e ∷ it ∷ rs, true)
    else (
      absorb (min it.first b) (max it.end e) rs,
      not (min it.first b == it.first)
          || not (max it.end e == it.end)
          || absorbs_next (max it.end e) rs,
    )

-- `addRange` once more, with a flag that tells whether the set has changed.
unfoldable pub add_public_range : RangeSet → ℕ → ℕ → RangeSet × Bool
unfolding insert_public_range
add_public_range rs b e = if leb e b then (rs, false) else insert_public_range rs b e

-- The loops of `mergePublicParamEffect`.
unfoldable pub add_public_ranges : RangeSet → List ByteRange → RangeSet × Bool
add_public_ranges dst [] = (dst, false)
add_public_ranges dst (r ∷ src) =
    let (added, changed) = add_public_range dst r.first r.end in
    let (rest, rest_changed) = add_public_ranges added src in (rest, changed || rest_changed)

unfoldable pub has_slot_write : List PointerSlotWrite → PointerSlotWrite → Bool
has_slot_write [] write = false
has_slot_write (existing ∷ writes) write =
    (existing.slot_offset == write.slot_offset
      && existing.write_size_bytes == write.write_size_bytes)
    || has_slot_write writes write

unfoldable pub add_slot_writes :
    List PointerSlotWrite → List PointerSlotWrite → List PointerSlotWrite × Bool
unfolding has_slot_write
add_slot_writes dst [] = (dst, false)
add_slot_writes dst (write ∷ src) =
    let known = has_slot_write dst write in
    let (rest, rest_changed) = add_slot_writes (if known then dst else dst ++ write ∷ []) src in
    (rest, not known || rest_changed)

unfoldable pub merge_public_param_effect : ParamEffect → ParamEffect → ParamEffect × Bool
merge_public_param_effect dst src =
    let (reads, reads_changed) =
      add_public_ranges dst.read_before_write_ranges src.read_before_write_ranges in
    let (writes, writes_changed) = add_public_ranges dst.write_ranges src.write_ranges in
    let (slots, slots_changed) = add_slot_writes dst.pointer_slot_writes src.pointer_slot_writes in
    (
      record {
        read_before_write_ranges = reads;
        write_ranges = writes;
        pointer_slot_writes = slots;
        has_unknown_read_before_write =
            dst.has_unknown_read_before_write || src.has_unknown_read_before_write;
        has_unknown_write = dst.has_unknown_write || src.has_unknown_write;
      },
      reads_changed
          || writes_changed
          || slots_changed
          || (src.has_unknown_read_before_write && not dst.has_unknown_read_before_write)
          || (src.has_unknown_write && not dst.has_unknown_write),
    )

abbrev pub is_nil {ℓ} : {A : Type ℓ} → List A → Bool
is_nil [] = true
is_nil (x ∷ xs) = false

unfoldable pub is_empty_public_param_effect : ParamEffect → Bool
is_empty_public_param_effect effect =
    not effect.has_unknown_read_before_write
    && not effect.has_unknown_write
    && is_nil effect.read_before_write_ranges
    && is_nil effect.write_ranges
    && is_nil effect.pointer_slot_writes

-- The loop of `effectivePublicParamEffectCount`, which goes down from `size`.
effective_count : List ParamEffect → ℕ → ℕ
unfolding is_empty_public_param_effect
effective_count effects zero = zero
effective_count effects (suc size) =
    let lower = effective_count effects size in
    if is_empty_public_param_effect (get_or effects size no_effect) then lower else suc size

unfoldable pub effective_public_param_effect_count : List ParamEffect → ℕ
unfolding effective_count
effective_public_param_effect_count effects = effective_count effects (length effects)

unfoldable pub trim_trailing_empty_public_param_effects : List ParamEffect → List ParamEffect
unfolding effective_public_param_effect_count
trim_trailing_empty_public_param_effects effects =
    take (effective_public_param_effect_count effects) effects

-- The loop of `mergePublicFunctionSummary` over the parameters that both sides have.
unfoldable pub merge_params : List ParamEffect → List ParamEffect → List ParamEffect × Bool
merge_params [] src = ([], false)
merge_params (d ∷ dst) [] = (d ∷ dst, false)
merge_params (d ∷ dst) (s ∷ src) =
    let (merged, changed) = merge_public_param_effect d s in
    let (rest, rest_changed) = merge_params dst src in (merged ∷ rest, changed || rest_changed)

unfoldable pub merge_public_function_summary :
    List ParamEffect → List ParamEffect → List ParamEffect × Bool
unfolding merge_params
merge_public_function_summary dst src =
    let src_size = effective_public_param_effect_count src in
    let grown = ltb (length dst) src_size in
    let resized = if grown then dst ++ replicate (src_size - length dst) no_effect else dst in
    let (merged, changed) = merge_params resized (take src_size src) in
    let trimmed = trim_trailing_empty_public_param_effects merged in
    (trimmed, grown || changed || not (length trimmed == length merged))
