-- ===== src/Recursion/Detect/Component.antt =====
-- The two detectors, which the source writes out apart, and what they ask of every function.
use mathlib.Core.List.{Memᴰ}
use mathlib.Core.List.Memᴰ
use coretrace_stack_analyzer.Prelude.{
  ℕ, ◌≡◌, refl, sym, ap, subst, ◌∙◌, Bool, true, false, Option, some, List, [], ◌∷◌, Bool-cases,
  inl, inr, ◌↔◌, ◌⊎◌,
}
use coretrace_stack_analyzer.IntRanges.{Predicate, IrValue, Ranges}
use coretrace_stack_analyzer.Smt.Types.{ConstraintIr, SmtQuery, SmtAnswer}
use coretrace_stack_analyzer.Smt.Evaluator.{AnalysisConfig, is_satisfiable}
use coretrace_stack_analyzer.Ir.{Condition, Function}
use coretrace_stack_analyzer.Recursion.{
  NonRecursiveReturnFeasibility, exists, does_not_exist, inconclusive,
  has_feasible_non_recursive_return_path,
}
use coretrace_stack_analyzer.Recursion.Ends.{has_feasible_non_recursive_return_path_ends}
use coretrace_stack_analyzer.Recursion.Detect.{
  feasibility_eq, detect_infinite_recursion_by_dominance, has_address, has_no_base_case,
  members_have_no_base_case, detect_infinite_recursion_component,
}

feasibility_eq_sound :
    (r : NonRecursiveReturnFeasibility)
    → feasibility_eq r does_not_exist ≡ true
    → r ≡ does_not_exist
unfolding feasibility_eq
feasibility_eq_sound does_not_exist h = refl
feasibility_eq_sound exists h = absurd (cc)
feasibility_eq_sound inconclusive h = absurd (cc)

feasibility_eq_complete :
    (r : NonRecursiveReturnFeasibility)
    → r ≡ does_not_exist
    → feasibility_eq r does_not_exist ≡ true
unfolding feasibility_eq
feasibility_eq_complete r h = rw h refl

module _ (strip : IrValue → IrValue) (inverse : Predicate → Predicate)
    (dominates : Function → ℕ → ℕ → Bool)
    (encode : Function → Ranges → Condition → Bool → ℕ → Option ℕ → ConstraintIr)
    (z3 : Option (SmtQuery → SmtAnswer)) (config : AnalysisConfig) where
  -- The search for a feasible return, with the solver's tests.
  abbrev pub search : (ℕ → Bool) → Function → Option NonRecursiveReturnFeasibility
  search is_recursive f =
      has_feasible_non_recursive_return_path strip inverse
        (λ ranges condition takes_true_edge block incoming.
          is_satisfiable z3 config ranges
            (encode f ranges condition takes_true_edge block incoming))
        is_recursive f.blocks

  -- The function has a body and no contract against recursion, and its returns are all behind a
  -- recursive call, or the search finds that no return is reached without one.
  abbrev pub NoBaseCase : (ℕ → Bool) → Function → Type 0
  NoBaseCase is_recursive f =
      (f.is_declaration ≡ false)
      × (f.no_recurse ≡ false)
      × ((detect_infinite_recursion_by_dominance (dominates f) is_recursive f.blocks ≡ true)
          ⊎ (search is_recursive f ≡ some does_not_exist))

  -- The search answers, and the test of its answer says what it is.
  search_answers :
      (is_recursive : ℕ → Bool) (f : Function)
      → (r : NonRecursiveReturnFeasibility) × (search is_recursive f ≡ some r)
        × ((feasibility_eq r does_not_exist ≡ true) ↔ (search is_recursive f ≡ some does_not_exist))
  search_answers is_recursive f =
      let (r, e) =
        has_feasible_non_recursive_return_path_ends strip inverse
          (λ ranges condition takes_true_edge block incoming.
            is_satisfiable z3 config ranges
              (encode f ranges condition takes_true_edge block incoming))
          is_recursive f.blocks in
      (
        r,
        e,
        (λ h. e ∙ ap some (feasibility_eq_sound r h), λ h. feasibility_eq_complete r (cc (e, h))),
      )

  has_no_base_case_iff :
      (is_recursive : ℕ → Bool) (f : Function)
      → (answer : Bool) × (has_no_base_case strip inverse dominates encode z3 config is_recursive f
          ≡ some answer)
        × ((answer ≡ true) ↔ (
            (detect_infinite_recursion_by_dominance (dominates f) is_recursive f.blocks ≡ true)
            ⊎ (search is_recursive f ≡ some does_not_exist)))
  unfolding has_no_base_case
  has_no_base_case_iff is_recursive f =
      let (r, e, iff) = search_answers is_recursive f in
      elim (Bool-cases
        (detect_infinite_recursion_by_dominance (dominates f) is_recursive f.blocks)) [
          | inl dominated ↦
              (true, rw (has_no_base_case, dominated) refl, (λ h. inl dominated, λ h. refl))
          | inr undominated ↦ (
            feasibility_eq r does_not_exist,
            rw (has_no_base_case, undominated, e) refl,
            (λ h. inr (iff.0 h), λ h. elim h [ inl d ↦ absurd (cc) | inr s ↦ iff.1 s ]),
          )
        ]

  abbrev AllBase : (ℕ → Bool) → List Function → Type 0
  AllBase is_recursive fs = (f : Function) → Memᴰ f fs → NoBaseCase is_recursive f

  members_iff :
      (is_recursive : ℕ → Bool) (fs : List Function)
      → (answer : Bool) × (members_have_no_base_case strip inverse dominates encode z3 config
            is_recursive fs
          ≡ some answer)
        × ((answer ≡ true) ↔ AllBase is_recursive fs)
  unfolding members_have_no_base_case
  members_iff is_recursive [] = (true, refl, (λ h f m. absurd (Memᴰ.not-nil m), λ h. refl))
  members_iff is_recursive (f ∷ fs) =
      let (rest, eq, iff) = members_iff is_recursive fs in
      let (own, eq', iff') = has_no_base_case_iff is_recursive f in
      elim (Bool-cases f.is_declaration) [
        | inl d ↦ (
          false,
          simp (members_have_no_base_case, d),
          (λ h. absurd (cc), λ h. absurd (cc ((h f (Memᴰ.head refl)).0, d))),
        )
        | inr d ↦ elim (Bool-cases f.no_recurse) [
          | inl n ↦ (
            false,
            simp (members_have_no_base_case, d, n),
            (λ h. absurd (cc), λ h. absurd (cc ((h f (Memᴰ.head refl)).1, n))),
          )
          | inr n ↦ elim (Bool-cases own) [
            | inl o ↦ (
              rest,
              simp (members_have_no_base_case, d, n, eq', o, eq),
              (
                λ h g m. elim (Memᴰ.cases_cons m) [
                  | inl same ↦ subst (NoBaseCase is_recursive) (sym same) (d, n, iff'.0 o)
                  | inr later ↦ iff.0 h g later
                ],
                λ h. iff.1 (λ g m. h g (Memᴰ.tail m)),
              ),
            )
            | inr o ↦ (
              false,
              simp (members_have_no_base_case, d, n, eq', o),
              (λ h. absurd (cc), λ h. absurd (cc (iff'.1 (h f (Memᴰ.head refl)).2, o))),
            )
          ]
        ]
      ]

  pub detect_infinite_recursion_component_answers :
      (fs : List Function)
      → (answer : Bool) × (detect_infinite_recursion_component strip inverse dominates encode z3
            config fs
          ≡ some answer)
  unfolding detect_infinite_recursion_component
  detect_infinite_recursion_component_answers [] = (false, refl)
  detect_infinite_recursion_component_answers (f ∷ fs) =
      let (answer, e, iff) = members_iff (has_address (f ∷ fs)) (f ∷ fs) in (answer, e)
