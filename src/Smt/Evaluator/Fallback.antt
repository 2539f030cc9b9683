-- ===== src/Smt/Evaluator/Fallback.antt =====
-- When the recursion rule drops a path, and what the rule configuration decides.
use coretrace_stack_analyzer.Prelude.{◌≡◌, refl, ◌⊎◌, inl, inr, Option, Bool-cases}
use coretrace_stack_analyzer.Prelude.Text.{Text, codes}
use coretrace_stack_analyzer.IntRanges.{Ranges}
use coretrace_stack_analyzer.IntRanges.Edge.{ConstraintSat, evaluate_interval_satisfiability}
use coretrace_stack_analyzer.IntRanges.Edge.Feasible.{
  AllSatisfiable, evaluate_interval_satisfiability_iff,
}
use coretrace_stack_analyzer.Smt.Types.{ConstraintIr, SmtStatus, unsat, SmtQuery, SmtAnswer}
use coretrace_stack_analyzer.Smt.Orchestrator.{runtime_query}
use coretrace_stack_analyzer.Smt.Orchestrator.Solve.{Z3IsSound, RespectsIntervals, solve-IsSound}
use coretrace_stack_analyzer.Smt.Evaluator.{
  AnalysisConfig, smt_rule_enabled, SmtFeasibility, feasible, infeasible, inconclusive,
  feasibility_of, orchestrator_config, rule_query, evaluate_query, is_satisfiable,
}

feasibility_of_infeasible : (s : SmtStatus) → feasibility_of s ≡ infeasible → s ≡ unsat
unfolding feasibility_of
feasibility_of_infeasible SmtStatus.unsat h = refl
feasibility_of_infeasible s h = absurd (cc)

module _ (Feasible : SmtQuery → Type 0) (z3 : Option (SmtQuery → SmtAnswer))
    (respects : RespectsIntervals Feasible) (z3_sound : Z3IsSound Feasible z3) where
  -- A query for the rule that is not feasible, with the limits filled in.
  abbrev pub NotFeasible : AnalysisConfig → Text → ConstraintIr → Type 0
  NotFeasible config rule_id ir =
      ¬ Feasible (runtime_query (orchestrator_config config) (rule_query config rule_id ir))

  -- Let every feasible query have an integer in each of its intervals, and let the Z3 backend, if
  -- it is linked, answer Unsat only to queries that are not feasible. Then a rule is told
  -- Infeasible only of constraints whose query, with its limits filled in, is not feasible.
  pub evaluate_query_sound :
      (config : AnalysisConfig) (rule_id : Text) (ir : ConstraintIr)
      → evaluate_query z3 config rule_id ir ≡ infeasible
      → NotFeasible config rule_id ir
  unfolding evaluate_query
  evaluate_query_sound config rule_id ir h = elim (Bool-cases (smt_rule_enabled config rule_id)) [
    | inl on ↦
        solve-IsSound Feasible z3 respects z3_sound (orchestrator_config config)
          (rule_query config rule_id ir) (feasibility_of_infeasible _ (rw on at h))
    | inr off ↦ absurd (cc (rw off at h))
  ]

  unsat_needs :
      (f : SmtFeasibility) (fallback : ConstraintSat)
      → (elim f as (λ _. ConstraintSat) [
        | feasible ↦ ConstraintSat.sat
        | infeasible ↦ ConstraintSat.unsat
        | inconclusive ↦ fallback
      ])
        ≡ ConstraintSat.unsat
      → (f ≡ infeasible) ⊎ (fallback ≡ ConstraintSat.unsat)
  unsat_needs feasible fallback h = absurd (cc)
  unsat_needs infeasible fallback h = inl refl
  unsat_needs inconclusive fallback h = inr h

  -- Let every feasible query have an integer in each of its intervals, and let the Z3 backend, if
  -- it is linked, answer Unsat only to queries that are not feasible. Then the recursion rule
  -- answers Unsat only if the query of its encoded constraints, with its limits filled in, is not
  -- feasible or some range of the path is met by no integer.
  pub is_satisfiable_sound :
      (config : AnalysisConfig) (ranges : Ranges) (encoded : ConstraintIr)
      → is_satisfiable z3 config ranges encoded ≡ ConstraintSat.unsat
      → NotFeasible config (codes "recursion") encoded ⊎ (¬ AllSatisfiable ranges)
  unfolding is_satisfiable
  is_satisfiable_sound config ranges encoded h =
      elim (unsat_needs (evaluate_query z3 config (codes "recursion") encoded)
        (evaluate_interval_satisfiability ranges) h) [
          | inl hard ↦ inl (evaluate_query_sound config (codes "recursion") encoded hard)
          | inr empty ↦ inr (λ all. cc ((evaluate_interval_satisfiability_iff ranges).1 all, empty))
        ]
