-- ===== src/Smt/Evaluator.antt =====
-- include/analysis/smt/SmtRefinement.hpp: which rules ask the solver, and what a rule makes of the
-- status; and the evaluator of the recursion rule in src/analysis/StackComputation.cpp, which falls
-- back on intervals.
pub mod Fallback
use coretrace_stack_analyzer.Prelude.{
  ℕ, Bool, true, false, not, ◌||◌, Option, none, some, List, [], ◌∷◌, if◌then◌else◌,
}
use coretrace_stack_analyzer.Prelude.Text.{Text, codes, text_eq}
use coretrace_stack_analyzer.IntRanges.{Ranges}
use coretrace_stack_analyzer.IntRanges.Edge.{ConstraintSat, evaluate_interval_satisfiability}
use coretrace_stack_analyzer.Smt.Types.{
  ConstraintIr, SolverMode, SmtStatus, sat, unsat, unknown, timeout, error, SmtQuery, SmtAnswer,
  SmtDecision, to_lower_ascii,
}
use coretrace_stack_analyzer.Smt.Orchestrator.{SolverOrchestratorConfig, solve}

-- The fields of `AnalysisConfig` that the solver layer reads.
pub record AnalysisConfig : Type 0 where
  pub smt_enabled : Bool
  pub smt_rules : List Text
  pub smt_backend : Text
  pub smt_secondary_backend : Text
  pub smt_mode : SolverMode
  pub smt_budget_nodes : ℕ
  pub smt_timeout_ms : ℕ

names_rule : List Text → Text → Bool
unfolding text_eq to_lower_ascii
names_rule [] wanted = false
names_rule (rule ∷ rules) wanted = text_eq (to_lower_ascii rule) wanted || names_rule rules wanted

pub smt_rule_enabled : AnalysisConfig → Text → Bool
unfolding names_rule
smt_rule_enabled config rule_id = if not config.smt_enabled then false else elim config.smt_rules [
  | [] ↦ true
  | rule ∷ rules ↦ names_rule (rule ∷ rules) (to_lower_ascii rule_id)
]

pub data SmtFeasibility : Type 0 where
  feasible infeasible inconclusive : SmtFeasibility

pub feasibility_of : SmtStatus → SmtFeasibility
feasibility_of sat = feasible
feasibility_of unsat = infeasible
feasibility_of unknown = inconclusive
feasibility_of timeout = inconclusive
feasibility_of error = inconclusive

abbrev pub orchestrator_config : AnalysisConfig → SolverOrchestratorConfig
orchestrator_config config = record {
  primary_backend = config.smt_backend;
  secondary_backend = config.smt_secondary_backend;
  mode = config.smt_mode;
  budget_nodes = config.smt_budget_nodes;
  timeout_ms = config.smt_timeout_ms;
}

abbrev pub rule_query : AnalysisConfig → Text → ConstraintIr → SmtQuery
rule_query config rule_id ir = record {
  ir = ir;
  rule_id = rule_id;
  budget_nodes = config.smt_budget_nodes;
  timeout_ms = config.smt_timeout_ms;
}

module _ (z3 : Option (SmtQuery → SmtAnswer)) where
  unfoldable pub evaluate_query : AnalysisConfig → Text → ConstraintIr → SmtFeasibility
  unfolding smt_rule_enabled feasibility_of
  evaluate_query config rule_id ir =
      if smt_rule_enabled config rule_id
      then feasibility_of
          (solve z3 (orchestrator_config config) (rule_query config rule_id ir)).status
      else inconclusive

  -- `RecursionConstraintEvaluator::isSatisfiable` on the encoding of the ranges and of the edge.
  unfoldable pub is_satisfiable : AnalysisConfig → Ranges → ConstraintIr → ConstraintSat
  unfolding evaluate_query
  is_satisfiable config ranges encoded = elim (evaluate_query config (codes "recursion") encoded) [
    | feasible ↦ ConstraintSat.sat
    | infeasible ↦ ConstraintSat.unsat
    | inconclusive ↦ evaluate_interval_satisfiability ranges
  ]
