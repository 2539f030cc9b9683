-- ===== src/Summary/Function.antt =====
-- Merging function summaries: the effect at each parameter, the flag, and the second merge.
use coretrace_stack_analyzer.Prelude.{
  ℕ, zero, suc, ◌-◌, ◌≤◌, ◌≡◌, refl, ap, ap₂, ◌∙◌, sym, ◌↔◌, true, false, List, [], ◌∷◌, ◌++◌,
  arith, ltb, length, length-append, length-replicate, take, replicate, length-take,
  get_or-append_replicate, or-false_iff, if◌then◌else◌,
}
use coretrace_stack_analyzer.ByteRanges.{RangeSet}
use coretrace_stack_analyzer.ByteRanges.Contains.{contains, IsNormal}
use coretrace_stack_analyzer.Summary.{
  ParamEffect, PointerSlotWrite, has_slot_write, is_nil, no_effect, is_empty_public_param_effect,
  add_public_ranges, add_slot_writes, merge_public_param_effect, merge_params,
  effective_public_param_effect_count, trim_trailing_empty_public_param_effects,
  merge_public_function_summary,
}
use coretrace_stack_analyzer.Summary.Effect.{
  IsNormalEffect, merge_public_param_effect_exact, merge_public_param_effect-MergesTo,
}
use coretrace_stack_analyzer.Summary.Trim.{effect_at, effect_at-trim, IsTrimmed, trim-IsTrimmed}

-- Merging with a parameter that has no effect changes nothing.
merge-no_effect : (d : ParamEffect) → merge_public_param_effect d no_effect ≡ (d, false)
unfolding merge_public_param_effect add_public_ranges add_slot_writes
merge-no_effect d = ground arith

pub length-merge_params :
    (dst src : List ParamEffect) → length (merge_params dst src).0 ≡ length dst
unfolding merge_params
length-merge_params [] src = refl
length-merge_params (d ∷ dst) [] = refl
length-merge_params (d ∷ dst) (s ∷ src) = ap suc (length-merge_params dst src)

effect_at-merge_params :
    (dst src : List ParamEffect) (i : ℕ)
    → length src ≤ length dst
    → effect_at (merge_params dst src).0 i
      ≡ (merge_public_param_effect (effect_at dst i) (effect_at src i)).0
unfolding merge_params
effect_at-merge_params [] [] i h = sym (rw (merge-no_effect no_effect))
effect_at-merge_params [] (s ∷ src) i h = absurd (omega arith)
effect_at-merge_params (d ∷ dst) [] i h = sym (rw (merge-no_effect (effect_at (d ∷ dst) i)))
effect_at-merge_params (d ∷ dst) (s ∷ src) zero h = refl
effect_at-merge_params (d ∷ dst) (s ∷ src) (suc i) h =
    effect_at-merge_params dst src i (omega arith)

abbrev pub AllNormalEffects : List ParamEffect → Type 0
AllNormalEffects [] = Unit
AllNormalEffects (e ∷ es) = IsNormalEffect e × AllNormalEffects es

pub effect_at-IsNormalEffect :
    (es : List ParamEffect) (i : ℕ) → AllNormalEffects es → IsNormalEffect (effect_at es i)
effect_at-IsNormalEffect [] i n = (tt, tt)
effect_at-IsNormalEffect (e ∷ es) zero n = n.0
effect_at-IsNormalEffect (e ∷ es) (suc i) n = effect_at-IsNormalEffect es i n.1

pub merge_params_exact :
    (dst src : List ParamEffect)
    → AllNormalEffects dst
    → ((merge_params dst src).1 ≡ false) ↔ ((merge_params dst src).0 ≡ dst)
unfolding merge_params
merge_params_exact [] src n = (λ h. refl, λ h. refl)
merge_params_exact (d ∷ dst) [] n = (λ h. refl, λ h. refl)
merge_params_exact (d ∷ dst) (s ∷ src) n =
    let here = merge_public_param_effect_exact d s n.0 in
    let rest = merge_params_exact dst src n.1 in
    (
      λ h. let (p, q) = (or-false_iff _ _).0 h in ap₂ ◌∷◌ (here.0 p) (rest.0 q),
      λ e. (or-false_iff _ _).1 (here.1 (ap (λ es. effect_at es 0) e), rest.1 (ap tail e)),
    )
  where
    tail : List ParamEffect → List ParamEffect
    tail [] = []
    tail (_ ∷ es) = es

-- `dst.paramEffects` after the `resize`.
abbrev pub resized : List ParamEffect → ℕ → List ParamEffect
resized dst n = if ltb (length dst) n then dst ++ replicate (n - length dst) no_effect else dst

length-resized :
    (dst : List ParamEffect) (n : ℕ)
    → (n ≤ length (resized dst n)) × (length dst ≤ length (resized dst n))
length-resized dst n = ground (
  arith,
  length-append dst (replicate (n - length dst) no_effect),
  length-replicate (n - length dst) no_effect,
)

effect_at-resized :
    (dst : List ParamEffect) (n i : ℕ) → effect_at (resized dst n) i ≡ effect_at dst i
effect_at-resized dst n i = ground (arith, get_or-append_replicate dst (n - length dst) i no_effect)

-- After the merge of two summaries each parameter has the merge of the effects that it has in the
-- two, where a summary has no effect at a parameter beyond its end.
pub effect_at-merge_public_function_summary :
    (dst src : List ParamEffect) (i : ℕ)
    → effect_at (merge_public_function_summary dst src).0 i
      ≡ (merge_public_param_effect (effect_at dst i) (effect_at src i)).0
unfolding merge_public_function_summary
effect_at-merge_public_function_summary dst src i =
    let n = effective_public_param_effect_count src in
    effect_at-trim (merge_params (resized dst n) (take n src)).0 i
    ∙ effect_at-merge_params (resized dst n) (take n src) i
        (omega (arith, length-resized dst n, length-take n src))
    ∙ ap₂ (λ d s. (merge_public_param_effect d s).0) (effect_at-resized dst n i) (kept src i)
  where
    kept :
        (src : List ParamEffect) (i : ℕ)
        → effect_at (take (effective_public_param_effect_count src) src) i ≡ effect_at src i
    kept src i = unfold trim_trailing_empty_public_param_effects in effect_at-trim src i

pub merge_public_function_summary-IsTrimmed :
    (dst src : List ParamEffect) → IsTrimmed (merge_public_function_summary dst src).0
unfolding merge_public_function_summary
merge_public_function_summary-IsTrimmed dst src = trim-IsTrimmed _

-- A parameter that has an effect still has one after a merge.
contains-not_empty : (rs : RangeSet) (x : ℕ) → contains rs x ≡ true → is_nil rs ≡ false
unfolding contains
contains-not_empty [] x h = cc
contains-not_empty (r ∷ rs) x h = refl

normal-nil :
    (rs merged : RangeSet)
    → IsNormal rs
    → ((x : ℕ) → contains rs x ≡ true → contains merged x ≡ true)
    → is_nil rs ≡ false
    → is_nil merged ≡ false
unfolding contains
normal-nil [] merged n h full = cc
normal-nil (r ∷ rs) merged n h full = contains-not_empty merged r.first (h r.first (ground arith))

has_slot_write-not_nil :
    (ws : List PointerSlotWrite) (w : PointerSlotWrite)
    → has_slot_write ws w ≡ true
    → is_nil ws ≡ false
unfolding has_slot_write
has_slot_write-not_nil [] w h = cc
has_slot_write-not_nil (v ∷ ws) w h = refl

slots-nil :
    (ws merged : List PointerSlotWrite)
    → ((w : PointerSlotWrite) → has_slot_write ws w ≡ true → has_slot_write merged w ≡ true)
    → is_nil ws ≡ false
    → is_nil merged ≡ false
unfolding has_slot_write
slots-nil [] merged h full = cc
slots-nil (w ∷ ws) merged h full = has_slot_write-not_nil merged w (h w (ground arith))

pub merge-not_empty :
    (d s : ParamEffect)
    → IsNormalEffect d
    → IsNormalEffect s
    → is_empty_public_param_effect s ≡ false
    → is_empty_public_param_effect (merge_public_param_effect d s).0 ≡ false
unfolding is_empty_public_param_effect
merge-not_empty d s n m full =
    let to = merge_public_param_effect-MergesTo d s n in
    let e = (merge_public_param_effect d s).0 in
    ground (
      arith,
      to.unknown_read,
      to.unknown_write,
      normal-nil s.read_before_write_ranges e.read_before_write_ranges m.0
          (λ x h. ground (arith, to.reads x)),
      normal-nil s.write_ranges e.write_ranges m.1 (λ x h. ground (arith, to.writes x)),
      slots-nil s.pointer_slot_writes e.pointer_slot_writes (λ w h. ground (arith, to.slots w)),
    )
