-- ===== src/Summary/Index.antt =====
-- `mergeUninitializedSummaryIndex`: the summaries of a translation unit merged into an index by name.
-- The map is an association list; its order is not used.
use coretrace_stack_analyzer.Prelude.{
  ℕ, ◌≡◌, refl, ap, ◌∙◌, sym, Bool, true, false, ◌||◌, List, [], ◌∷◌, ◌==◌, ==_iff, arith, take,
  if◌then◌else◌, Bool-cases, inl, inr, or-false_iff,
}
use coretrace_stack_analyzer.Prelude.Text.{Text, text_eq, text_eq_iff, text_eq_refl}
use coretrace_stack_analyzer.ByteRanges.Contains.{contains}
use coretrace_stack_analyzer.Summary.{
  has_slot_write, ParamEffect, no_effect, effective_public_param_effect_count,
  merge_public_function_summary, trim_trailing_empty_public_param_effects,
}
use coretrace_stack_analyzer.Summary.Effect.{MergesTo, merge_public_param_effect-MergesTo}
use coretrace_stack_analyzer.Summary.Trim.{effect_at, effect_at-trim}
use coretrace_stack_analyzer.Summary.Function.{
  AllNormalEffects, effect_at-IsNormalEffect, effect_at-merge_public_function_summary,
}
use coretrace_stack_analyzer.Summary.Fixpoint.{
  AllNormalEffects-intro, merge_public_function_summary-AllNormalEffects,
}

abbrev pub SummaryIndex : Type 0
SummaryIndex = List (Text × List ParamEffect)

-- What the index has under a name; nothing is a summary without effects.
abbrev pub summary_of : SummaryIndex → Text → List ParamEffect
summary_of [] name = []
summary_of ((n, d) ∷ index) name = if text_eq n name then d else summary_of index name

-- `find`, then the insertion of a new entry or the merge into the old one.
merge_entry : SummaryIndex → Text → List ParamEffect → SummaryIndex × Bool
merge_entry [] name src = ((name, trim_trailing_empty_public_param_effects src) ∷ [], true)
merge_entry ((n, d) ∷ dst) name src =
    let merged = merge_public_function_summary d src in
    let rest = merge_entry dst name src in
    if text_eq n name then ((n, merged.0) ∷ dst, merged.1) else ((n, d) ∷ rest.0, rest.1)

unfoldable pub merge_uninitialized_summary_index : SummaryIndex → SummaryIndex → SummaryIndex × Bool
unfolding merge_entry
merge_uninitialized_summary_index dst [] = (dst, false)
merge_uninitialized_summary_index dst ((name, src) ∷ entries) =
    let skipped = merge_uninitialized_summary_index dst entries in
    let step = merge_entry dst name src in
    let rest = merge_uninitialized_summary_index step.0 entries in
    if effective_public_param_effect_count src == 0 then skipped else (rest.0, step.1 || rest.1)

abbrev pub has_key : SummaryIndex → Text → Bool
has_key [] name = false
has_key ((n, d) ∷ index) name = text_eq n name || has_key index name

abbrev pub DistinctKeys : SummaryIndex → Type 0
DistinctKeys [] = Unit
DistinctKeys ((n, d) ∷ index) = (has_key index n ≡ false) × DistinctKeys index

abbrev pub AllNormalIndex : SummaryIndex → Type 0
AllNormalIndex [] = Unit
AllNormalIndex ((n, d) ∷ index) = AllNormalEffects d × AllNormalIndex index

MergesTo-new : (s : ParamEffect) → MergesTo no_effect s s
unfolding contains has_slot_write
MergesTo-new s = record {
  reads = λ x. refl;
  writes = λ x. refl;
  slots = λ w. refl;
  unknown_read = refl;
  unknown_write = refl;
}

MergesTo-none : (d : ParamEffect) → MergesTo d no_effect d
unfolding contains has_slot_write
MergesTo-none d = record {
  reads = λ x. ground arith;
  writes = λ x. ground arith;
  slots = λ w. ground arith;
  unknown_read = ground arith;
  unknown_write = ground arith;
}

summary_of-IsNormal :
    (index : SummaryIndex) (name : Text)
    → AllNormalIndex index
    → AllNormalEffects (summary_of index name)
summary_of-IsNormal [] name n = tt
summary_of-IsNormal ((k, d) ∷ index) name n = elim (Bool-cases (text_eq k name)) [
  | inl here ↦ rw here (n.0)
  | inr there ↦ rw there (summary_of-IsNormal index name n.1)
]

module _ (name : Text) (src : List ParamEffect) where
  merge_entry_here :
      (dst : SummaryIndex) (i : ℕ)
      → AllNormalIndex dst
      → MergesTo
          (effect_at (summary_of dst name) i)
          (effect_at src i)
          (effect_at (summary_of (merge_entry dst name src).0 name) i)
  unfolding merge_entry
  merge_entry_here [] i n =
      rw (text_eq_refl name, effect_at-trim src i) (MergesTo-new (effect_at src i))
  merge_entry_here ((k, d) ∷ dst) i n = elim (Bool-cases (text_eq k name)) [
    | inl here ↦
        rw (here, here, effect_at-merge_public_function_summary d src i)
          (merge_public_param_effect-MergesTo (effect_at d i) (effect_at src i)
            (effect_at-IsNormalEffect d i n.0))
    | inr there ↦ rw (there, there) (merge_entry_here dst i n.1)
  ]

  merge_entry_there :
      (dst : SummaryIndex) (j : Text)
      → text_eq name j ≡ false
      → summary_of (merge_entry dst name src).0 j ≡ summary_of dst j
  unfolding merge_entry
  merge_entry_there [] j h = rw h
  merge_entry_there ((k, d) ∷ dst) j h = elim (Bool-cases (text_eq k name)) [
    | inl here ↦
        let other : text_eq k j ≡ false = ap (λ t. text_eq t j) ((text_eq_iff k name).0 here) ∙ h in
        rw (here, other)
    | inr there ↦
        rw there (ap (λ rest. if text_eq k j then d else rest) (merge_entry_there dst j h))
  ]

  merge_entry-AllNormalIndex :
      (dst : SummaryIndex)
      → AllNormalIndex dst
      → AllNormalEffects src
      → AllNormalIndex (merge_entry dst name src).0
  unfolding merge_entry
  merge_entry-AllNormalIndex [] n m = (
    AllNormalEffects-intro _ (λ i. rw (effect_at-trim src i) (effect_at-IsNormalEffect src i m)),
    tt,
  )
  merge_entry-AllNormalIndex ((k, d) ∷ dst) n m = elim (Bool-cases (text_eq k name)) [
    | inl here ↦ rw here (merge_public_function_summary-AllNormalEffects d src n.0 m, n.1)
    | inr there ↦ rw there (n.0, merge_entry-AllNormalIndex dst n.1 m)
  ]

-- A summary that the merge skips has no effect anywhere.
skipped_effect :
    (src : List ParamEffect) (i : ℕ)
    → (effective_public_param_effect_count src == 0) ≡ true
    → effect_at src i ≡ no_effect
unfolding trim_trailing_empty_public_param_effects
skipped_effect src i h =
    sym (effect_at-trim src i)
    ∙ ap (λ n. effect_at (take n src) i) ((==_iff (effective_public_param_effect_count src) 0).0 h)

summary_of-other :
    (dst entries : SummaryIndex) (j : Text)
    → has_key entries j ≡ false
    → summary_of (merge_uninitialized_summary_index dst entries).0 j ≡ summary_of dst j
unfolding merge_uninitialized_summary_index
summary_of-other dst [] j h = refl
summary_of-other dst ((name, src) ∷ entries) j h =
    let (there, rest) = (or-false_iff (text_eq name j) (has_key entries j)).0 h in
    elim (Bool-cases (effective_public_param_effect_count src == 0)) [
      | inl none ↦ rw none (summary_of-other dst entries j rest)
      | inr some ↦ rw some (
          summary_of-other (merge_entry dst name src).0 entries j rest
          ∙ merge_entry_there name src dst j there)
    ]

-- If the sets of all summaries are normal and no name occurs twice in `src`, the merge of `src` into
-- `dst` has at every name and parameter exactly what `dst` or `src` says there: the read bytes, the
-- written bytes, the slot writes and the unknown effects.
pub merge_uninitialized_summary_index-MergesTo :
    (dst src : SummaryIndex) (name : Text) (i : ℕ)
    → AllNormalIndex dst
    → AllNormalIndex src
    → DistinctKeys src
    → MergesTo
        (effect_at (summary_of dst name) i)
        (effect_at (summary_of src name) i)
        (effect_at (summary_of (merge_uninitialized_summary_index dst src).0 name) i)
unfolding merge_uninitialized_summary_index
merge_uninitialized_summary_index-MergesTo dst [] name i n m d =
    MergesTo-none (effect_at (summary_of dst name) i)
merge_uninitialized_summary_index-MergesTo dst ((key, s) ∷ entries) name i n m d =
    elim (Bool-cases (text_eq key name)) [
      | inl here ↦
          let same : key ≡ name = (text_eq_iff key name).0 here in
          let absent : has_key entries name ≡ false = ap (has_key entries) (sym same) ∙ d.0 in
          elim (Bool-cases (effective_public_param_effect_count s == 0)) [
            | inl none ↦
                rw (here, none, summary_of-other dst entries name absent, skipped_effect s i none)
                  (MergesTo-none (effect_at (summary_of dst name) i))
            | inr some ↦
                rw
                  (here, some, summary_of-other (merge_entry dst key s).0 entries name absent, same)
                  (merge_entry_here name s dst i n)
          ]
      | inr there ↦ elim (Bool-cases (effective_public_param_effect_count s == 0)) [
        | inl none ↦
            rw (there, none)
              (merge_uninitialized_summary_index-MergesTo dst entries name i n m.1 d.1)
        | inr some ↦
            rw (there, some, sym (merge_entry_there key s dst name there))
              (merge_uninitialized_summary_index-MergesTo (merge_entry dst key s).0 entries name i
                (merge_entry-AllNormalIndex key s dst n m.0) m.1 d.1)
      ]
    ]
