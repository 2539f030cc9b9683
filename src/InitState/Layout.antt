-- ===== src/InitState/Layout.antt =====
-- Coverage of an access to an object whose padding is known.
use coretrace_stack_analyzer.Prelude.{
  ℕ, ◌≤◌, ◌<◌, ◌≡◌, refl, ◌↔◌, min, max, inl, inr, true, [], ◌∷◌, arith, Bool-cases,
}
use coretrace_stack_analyzer.ByteRanges.{RangeSet, is_range_covered}
use coretrace_stack_analyzer.ByteRanges.Contains.{contains, IsNormal}
use coretrace_stack_analyzer.ByteRanges.Covered.{AllIn, is_range_covered_iff}
use coretrace_stack_analyzer.InitState.{
  TrackedMemoryObject, relevant_covered, is_range_covered_respecting_non_padding_layout,
}

-- Every byte of `[b, e)` that one of `relevant` holds is in `initialized`.
abbrev pub RelevantIn : RangeSet → RangeSet → ℕ → ℕ → Type 0
RelevantIn relevant initialized b e =
    (x : ℕ) → b ≤ x → x < e → contains relevant x ≡ true → contains initialized x ≡ true

relevant_covered_sound :
    (rs initialized : RangeSet) (b e x : ℕ)
    → IsNormal initialized
    → relevant_covered rs initialized b e ≡ true
    → b ≤ x
    → x < e
    → contains rs x ≡ true
    → contains initialized x ≡ true
unfolding relevant_covered contains
relevant_covered_sound [] initialized b e x n h p q c = cc
relevant_covered_sound (r ∷ rs) initialized b e x n h p q c = ground (
  arith,
  relevant_covered_sound rs initialized b e x n,
  λ (t : is_range_covered initialized (max b r.first) (min e r.end) ≡ true).
      (is_range_covered_iff initialized (max b r.first) (min e r.end) n).0 t x,
)

relevant_covered_complete :
    (rs initialized : RangeSet) (b e : ℕ)
    → IsNormal initialized
    → RelevantIn rs initialized b e
    → relevant_covered rs initialized b e ≡ true
unfolding relevant_covered contains
relevant_covered_complete [] initialized b e n all = refl
relevant_covered_complete (r ∷ rs) initialized b e n all =
    let rest : RelevantIn rs initialized b e = λ x p q c. ground (arith, all x p q) in
    let here : AllIn initialized (max b r.first) (min e r.end) = λ x p q. ground (arith, all x) in
    ground (
      arith,
      relevant_covered_complete rs initialized b e n rest,
      (is_range_covered_iff initialized (max b r.first) (min e r.end) n).1 here,
    )

-- Where the padding of the object is known, an access to `[b, e)` counts as initialised exactly
-- when each of its bytes that is not padding is in the (normal) set of initialised bytes.
pub respecting_layout_iff :
    (obj : TrackedMemoryObject) (initialized : RangeSet) (b e : ℕ)
    → obj.has_non_padding_layout ≡ true
    → IsNormal initialized
    → (is_range_covered_respecting_non_padding_layout obj initialized b e ≡ true)
      ↔ RelevantIn obj.non_padding_ranges initialized b e
unfolding is_range_covered_respecting_non_padding_layout
respecting_layout_iff obj initialized b e known n =
    elim (Bool-cases (is_range_covered initialized b e)) [
      | inl full ↦
          (λ h x p q c. (is_range_covered_iff initialized b e n).0 full x p q, λ all. rw full)
      | inr other ↦ (
        λ h x p q c.
            relevant_covered_sound obj.non_padding_ranges initialized b e x n (ground arith) p q c,
        λ all.
            rw (other, known)
              (relevant_covered_complete obj.non_padding_ranges initialized b e n all),
      )
    ]
