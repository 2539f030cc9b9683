-- ===== src/Summary/Equal.antt =====
-- Comparing summaries: `rangesEqual`, `pointerSlotWritesEqual`, `publicParamEffectEquals` and
-- `publicFunctionSummaryEquals`, with which the analysis over translation units stops.
use coretrace_stack_analyzer.Prelude.{
  ◌≡◌, refl, ap, ap₂, ◌∙◌, sym, ◌↔◌, Bool, true, false, not, ◌&&◌, List, [], ◌∷◌, ◌==◌, ==_iff,
  arith, ℕ, take, if◌then◌else◌, length, Bool-cases, inl, inr,
}
use coretrace_stack_analyzer.ByteRanges.{RangeSet}
use coretrace_stack_analyzer.Summary.{
  PointerSlotWrite, ParamEffect, effective_public_param_effect_count,
  trim_trailing_empty_public_param_effects,
}
use coretrace_stack_analyzer.Summary.Trim.{
  effect_at, effect_at-trim, length-trim, trim-IsTrimmed, trimmed_ext,
}

ranges_equal : RangeSet → RangeSet → Bool
ranges_equal [] [] = true
ranges_equal (l ∷ lhs) (r ∷ rhs) = l.first == r.first && l.end == r.end && ranges_equal lhs rhs
ranges_equal _ _ = false

pointer_slot_writes_equal : List PointerSlotWrite → List PointerSlotWrite → Bool
pointer_slot_writes_equal [] [] = true
pointer_slot_writes_equal (l ∷ lhs) (r ∷ rhs) =
    l.slot_offset == r.slot_offset
    && l.write_size_bytes == r.write_size_bytes
    && pointer_slot_writes_equal lhs rhs
pointer_slot_writes_equal _ _ = false

flags_equal : Bool → Bool → Bool
flags_equal true b = b
flags_equal false b = not b

public_param_effect_equals : ParamEffect → ParamEffect → Bool
unfolding ranges_equal pointer_slot_writes_equal flags_equal
public_param_effect_equals lhs rhs =
    flags_equal lhs.has_unknown_read_before_write rhs.has_unknown_read_before_write
    && flags_equal lhs.has_unknown_write rhs.has_unknown_write
    && ranges_equal lhs.read_before_write_ranges rhs.read_before_write_ranges
    && ranges_equal lhs.write_ranges rhs.write_ranges
    && pointer_slot_writes_equal lhs.pointer_slot_writes rhs.pointer_slot_writes

-- The loop over the parameters that are compared, on both sides as many.
params_equal : List ParamEffect → List ParamEffect → Bool
unfolding public_param_effect_equals
params_equal [] [] = true
params_equal (l ∷ lhs) (r ∷ rhs) = public_param_effect_equals l r && params_equal lhs rhs
params_equal _ _ = false

pub public_function_summary_equals : List ParamEffect → List ParamEffect → Bool
unfolding params_equal
public_function_summary_equals lhs rhs =
    let lhs_size = effective_public_param_effect_count lhs in
    let rhs_size = effective_public_param_effect_count rhs in
    if not (lhs_size == rhs_size)
    then false
    else params_equal (take lhs_size lhs) (take lhs_size rhs)

and-true : (a b : Bool) → (a && b) ≡ true → (a ≡ true) × (b ≡ true)
and-true a b h = ground arith

all-true : (a b c : Bool) → (a && b && c) ≡ true → (a ≡ true) × (b ≡ true) × (c ≡ true)
all-true a b c h = ground arith

ranges_equal_iff : (lhs rhs : RangeSet) → (ranges_equal lhs rhs ≡ true) ↔ (lhs ≡ rhs)
unfolding ranges_equal
ranges_equal_iff lhs rhs = (to lhs rhs, λ e. rw e (same rhs))
  where
    same : (rs : RangeSet) → ranges_equal rs rs ≡ true
    same [] = refl
    same (r ∷ rs) = ground (arith, same rs)

    to : (lhs rhs : RangeSet) → ranges_equal lhs rhs ≡ true → lhs ≡ rhs
    to [] [] h = refl
    to [] (r ∷ rhs) h = absurd (cc)
    to (l ∷ lhs) [] h = absurd (cc)
    to (l ∷ lhs) (r ∷ rhs) h =
        let (p, s, t) = all-true (l.first == r.first) (l.end == r.end) (ranges_equal lhs rhs) h in
        ap₂ ◌∷◌
          (λ i. record { first = (==_iff l.first r.first).0 p i; end = (==_iff l.end r.end).0 s i })
          (to lhs rhs t)

slots_equal_iff :
    (lhs rhs : List PointerSlotWrite) → (pointer_slot_writes_equal lhs rhs ≡ true) ↔ (lhs ≡ rhs)
unfolding pointer_slot_writes_equal
slots_equal_iff lhs rhs = (to lhs rhs, λ e. rw e (same rhs))
  where
    same : (ws : List PointerSlotWrite) → pointer_slot_writes_equal ws ws ≡ true
    same [] = refl
    same (w ∷ ws) = ground (arith, same ws)

    to : (lhs rhs : List PointerSlotWrite) → pointer_slot_writes_equal lhs rhs ≡ true → lhs ≡ rhs
    to [] [] h = refl
    to [] (r ∷ rhs) h = absurd (cc)
    to (l ∷ lhs) [] h = absurd (cc)
    to (l ∷ lhs) (r ∷ rhs) h =
        let (p, s, t) =
          all-true (l.slot_offset == r.slot_offset) (l.write_size_bytes == r.write_size_bytes)
            (pointer_slot_writes_equal lhs rhs) h in
        ap₂ ◌∷◌
          (λ i. record {
            slot_offset = (==_iff l.slot_offset r.slot_offset).0 p i;
            write_size_bytes = (==_iff l.write_size_bytes r.write_size_bytes).0 s i;
          })
          (to lhs rhs t)

flags_equal_iff : (a b : Bool) → (flags_equal a b ≡ true) ↔ (a ≡ b)
unfolding flags_equal
flags_equal_iff true true = ground arith
flags_equal_iff true false = ground arith
flags_equal_iff false true = ground arith
flags_equal_iff false false = ground arith

public_param_effect_equals_iff :
    (lhs rhs : ParamEffect) → (public_param_effect_equals lhs rhs ≡ true) ↔ (lhs ≡ rhs)
unfolding public_param_effect_equals
public_param_effect_equals_iff lhs rhs = (
  λ h.
      let (flags, d, e) =
        all-true _ (ranges_equal lhs.write_ranges rhs.write_ranges)
          (pointer_slot_writes_equal lhs.pointer_slot_writes rhs.pointer_slot_writes) h in
      let (a, b, c) =
        all-true (flags_equal lhs.has_unknown_read_before_write rhs.has_unknown_read_before_write)
          (flags_equal lhs.has_unknown_write rhs.has_unknown_write)
          (ranges_equal lhs.read_before_write_ranges rhs.read_before_write_ranges) flags in
      λ i. record {
        read_before_write_ranges =
            (ranges_equal_iff lhs.read_before_write_ranges rhs.read_before_write_ranges).0 c i;
        write_ranges = (ranges_equal_iff lhs.write_ranges rhs.write_ranges).0 d i;
        pointer_slot_writes =
            (slots_equal_iff lhs.pointer_slot_writes rhs.pointer_slot_writes).0 e i;
        has_unknown_read_before_write =
            (flags_equal_iff lhs.has_unknown_read_before_write rhs.has_unknown_read_before_write).0
              a i;
        has_unknown_write = (flags_equal_iff lhs.has_unknown_write rhs.has_unknown_write).0 b i;
      },
  λ p. rw p (
      ground (
        arith,
        (flags_equal_iff rhs.has_unknown_read_before_write _).1 refl,
        (flags_equal_iff rhs.has_unknown_write _).1 refl,
        (ranges_equal_iff rhs.read_before_write_ranges _).1 refl,
        (ranges_equal_iff rhs.write_ranges _).1 refl,
        (slots_equal_iff rhs.pointer_slot_writes _).1 refl,
      )),
)

params_equal_iff : (lhs rhs : List ParamEffect) → (params_equal lhs rhs ≡ true) ↔ (lhs ≡ rhs)
unfolding params_equal
params_equal_iff lhs rhs = (to lhs rhs, λ e. rw e (same rhs))
  where
    same : (es : List ParamEffect) → params_equal es es ≡ true
    same [] = refl
    same (e ∷ es) = ground (arith, same es, (public_param_effect_equals_iff e e).1 refl)

    to : (lhs rhs : List ParamEffect) → params_equal lhs rhs ≡ true → lhs ≡ rhs
    to [] [] h = refl
    to [] (r ∷ rhs) h = absurd (cc)
    to (l ∷ lhs) [] h = absurd (cc)
    to (l ∷ lhs) (r ∷ rhs) h =
        let (p, q) = and-true (public_param_effect_equals l r) _ h in
        ap₂ ◌∷◌ ((public_param_effect_equals_iff l r).0 p) (to lhs rhs q)

-- Two summaries compare equal exactly when what is left of them without trailing parameters that
-- have no effect is the same.
equals_iff-trim :
    (lhs rhs : List ParamEffect)
    → (public_function_summary_equals lhs rhs ≡ true) ↔ (
        trim_trailing_empty_public_param_effects lhs ≡ trim_trailing_empty_public_param_effects rhs)
unfolding public_function_summary_equals trim_trailing_empty_public_param_effects
equals_iff-trim lhs rhs =
    elim (Bool-cases
      (effective_public_param_effect_count lhs == effective_public_param_effect_count rhs)) [
        | inl same ↦ let e = (==_iff _ _).0 same in rw (same, sym e) (params_equal_iff _ _)
        | inr apart ↦ rw apart (
          λ h. absurd (cc),
          λ e.
              absurd (
                cc ((==_iff _ _).1 (sym (length-trim lhs) ∙ ap length e ∙ length-trim rhs), apart)),
        )
      ]

-- `publicFunctionSummaryEquals` is true exactly when the two summaries have the same effect at every
-- parameter, where a summary has no effect at a parameter beyond its end.
pub public_function_summary_equals_iff :
    (lhs rhs : List ParamEffect)
    → (public_function_summary_equals lhs rhs ≡ true)
      ↔ ((i : ℕ) → effect_at lhs i ≡ effect_at rhs i)
public_function_summary_equals_iff lhs rhs =
    let (forth, back) = equals_iff-trim lhs rhs in
    (
      λ h i.
          sym (effect_at-trim lhs i) ∙ ap (λ es. effect_at es i) (forth h) ∙ effect_at-trim rhs i,
      λ same. back (
          trimmed_ext _ _ (trim-IsTrimmed lhs) (trim-IsTrimmed rhs)
            (λ i. effect_at-trim lhs i ∙ same i ∙ sym (effect_at-trim rhs i))),
    )
