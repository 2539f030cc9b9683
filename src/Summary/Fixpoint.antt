-- ===== src/Summary/Fixpoint.antt =====
-- The flag of a merge of function summaries is exact, and merging the same summary once more
-- changes nothing: what the fixpoint over translation units needs.
use coretrace_stack_analyzer.Prelude.{
  ℕ, zero, suc, ◌≡◌, refl, ap, ◌∙◌, sym, ◌↔◌, inl, inr, false, List, [], ◌∷◌, arith, ltb, length,
  get_or_out, take, Bool-cases, or-false_iff, ◌==◌, Bool, not, ◌||◌,
}
use coretrace_stack_analyzer.Summary.{
  ParamEffect, no_effect, is_empty_public_param_effect, merge_params,
  effective_public_param_effect_count, merge_public_function_summary,
  trim_trailing_empty_public_param_effects,
}
use coretrace_stack_analyzer.Summary.Effect.{
  IsNormalEffect, merge_public_param_effect-IsNormalEffect, merge_public_param_effect_again,
}
use coretrace_stack_analyzer.Summary.Trim.{
  effect_at, count_last, length-trim, trim_full, trimmed_ext,
}
use coretrace_stack_analyzer.Summary.Function.{
  AllNormalEffects, merge_params_exact, length-merge_params, effect_at-IsNormalEffect,
  merge-not_empty, merge_public_function_summary-IsTrimmed, effect_at-merge_public_function_summary,
}

pub AllNormalEffects-intro :
    (es : List ParamEffect) → ((i : ℕ) → IsNormalEffect (effect_at es i)) → AllNormalEffects es
AllNormalEffects-intro [] h = tt
AllNormalEffects-intro (e ∷ es) h = (h 0, AllNormalEffects-intro es (λ i. h (suc i)))

module _ (dst src : List ParamEffect) (n : AllNormalEffects dst) (m : AllNormalEffects src) where
  -- Where the merge is `dst` itself, `dst` was long enough for all effects of `src`.
  grown-false :
      (merge_public_function_summary dst src).0 ≡ dst
      → ltb (length dst) (effective_public_param_effect_count src) ≡ false
  unfolding is_empty_public_param_effect
  grown-false same = go (effective_public_param_effect_count src) refl
    where
      go : (k : ℕ) → effective_public_param_effect_count src ≡ k → ltb (length dst) k ≡ false
      go zero h = ground arith
      go (suc k) h = elim (Bool-cases (ltb (length dst) (suc k))) [
        | inl short ↦
            let out = get_or_out dst k no_effect (ground arith) in
            let full =
              merge-not_empty (effect_at dst k) (effect_at src k) (effect_at-IsNormalEffect dst k n)
                (effect_at-IsNormalEffect src k m) (count_last src k h) in
            let at_k =
              sym (effect_at-merge_public_function_summary dst src k)
              ∙ ap (λ es. effect_at es k) same
              ∙ out in
            absurd (cc (rw at_k at full))
        | inr long ↦ long
      ]

  abbrev merged : List ParamEffect × Bool
  merged = merge_params dst (take (effective_public_param_effect_count src) src)

  -- The merge where `dst` need not grow.
  merge_in_place :
      ltb (length dst) (effective_public_param_effect_count src) ≡ false
      → merge_public_function_summary dst src ≡ (
        trim_trailing_empty_public_param_effects merged.0,
        merged.1
            || not (length (trim_trailing_empty_public_param_effects merged.0) == length merged.0),
      )
  unfolding merge_public_function_summary
  merge_in_place long = rw long

  flag_grown :
      (merge_public_function_summary dst src).1 ≡ false
      → ltb (length dst) (effective_public_param_effect_count src) ≡ false
  unfolding merge_public_function_summary
  flag_grown h = ground arith

  -- If the sets of both summaries are normal, the flag that the merge returns is false exactly when
  -- the merge leaves `dst` as it was.
  pub merge_public_function_summary_exact :
      ((merge_public_function_summary dst src).1 ≡ false)
      ↔ ((merge_public_function_summary dst src).0 ≡ dst)
  merge_public_function_summary_exact = (
    λ h.
        let long = flag_grown h in
        rw (merge_in_place long) (
          let (same, whole) = (or-false_iff _ _).0 (rw (merge_in_place long) at h) in
          trim_full merged.0 (ground (arith, length-trim merged.0)) ∙ exact.0 same),
    λ e.
        let long = grown-false e in
        rw (merge_in_place long) (
          let e' = rw (merge_in_place long) at e in
          let whole : length (trim_trailing_empty_public_param_effects merged.0) ≡ length merged.0 =
            ap length e'
            ∙ sym (length-merge_params dst (take (effective_public_param_effect_count src) src)) in
          let same = sym (trim_full merged.0 (sym (length-trim merged.0) ∙ whole)) ∙ e' in
          (or-false_iff _ _).1 (exact.1 same, ground arith)),
  )
    where
      exact : (merged.1 ≡ false) ↔ (merged.0 ≡ dst)
      exact = merge_params_exact dst (take (effective_public_param_effect_count src) src) n

  pub merge_public_function_summary-AllNormalEffects :
      AllNormalEffects (merge_public_function_summary dst src).0
  merge_public_function_summary-AllNormalEffects = AllNormalEffects-intro _ λ i.
      rw (effect_at-merge_public_function_summary dst src i) (
        merge_public_param_effect-IsNormalEffect (effect_at dst i) (effect_at src i)
          (effect_at-IsNormalEffect dst i n))

-- If the sets of both summaries are normal, a second merge of `src` leaves the result of the
-- first merge as it was and returns false.
pub merge_public_function_summary_again :
    (dst src : List ParamEffect)
    → AllNormalEffects dst
    → AllNormalEffects src
    → merge_public_function_summary (merge_public_function_summary dst src).0 src
      ≡ ((merge_public_function_summary dst src).0, false)
merge_public_function_summary_again dst src n m =
    λ i. (same i, (merge_public_function_summary_exact once src normal m).1 same i)
  where
    once : List ParamEffect
    once = (merge_public_function_summary dst src).0

    normal : AllNormalEffects once
    normal = merge_public_function_summary-AllNormalEffects dst src n m

    same : (merge_public_function_summary once src).0 ≡ once
    same =
        trimmed_ext _ once (merge_public_function_summary-IsTrimmed once src)
          (merge_public_function_summary-IsTrimmed dst src)
          λ i. rw (
            effect_at-merge_public_function_summary once src i,
            effect_at-merge_public_function_summary dst src i,
            merge_public_param_effect_again (effect_at dst i) (effect_at src i)
                (effect_at-IsNormalEffect dst i n),
          )
