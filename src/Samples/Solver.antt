-- ===== src/Samples/Solver.antt =====
-- The solver layer in a build with a Z3 backend, on contradictory intervals.
use mathlib.Core.List.{Memᴰ}
use coretrace_stack_analyzer.Prelude.{◌≡◌, ◌↔◌, ◌⊎◌, refl, true, Option, none, some, [], ◌∷◌}
use coretrace_stack_analyzer.Prelude.Int.{pos}
use coretrace_stack_analyzer.Prelude.Text.{codes}
use coretrace_stack_analyzer.IntRanges.{Ranges, exactly}
use coretrace_stack_analyzer.IntRanges.Edge.{ConstraintSat}
use coretrace_stack_analyzer.IntRanges.Edge.Feasible as Paths
use coretrace_stack_analyzer.Smt.Types.{
  IntervalConstraint, ConstraintIr, portfolio, cross_check, dual_consensus, SmtStatus, sat, unsat,
  unknown, SmtQuery, SmtAnswer,
}
use coretrace_stack_analyzer.Smt.Backends.Interval.{AllSatisfiable}
use coretrace_stack_analyzer.Smt.Orchestrator.{
  SolverOrchestratorConfig, aggregate_statuses, runtime_query, resolve_backends, solve,
}
use coretrace_stack_analyzer.Smt.Orchestrator.Aggregate.{Given, aggregate_consensus_iff}
use coretrace_stack_analyzer.Smt.Orchestrator.Solve.{Z3IsSound, RespectsIntervals, solve-IsSound}
use coretrace_stack_analyzer.Smt.Evaluator.{
  AnalysisConfig, infeasible, evaluate_query, is_satisfiable,
}
use coretrace_stack_analyzer.Smt.Evaluator.Fallback.{NotFeasible, is_satisfiable_sound}

-- `5 <= x <= 3`.
abbrev crossed : IntervalConstraint
crossed = record { symbol_id = 1; lower = pos 5; upper = pos 3; has_lower = true; has_upper = true }

abbrev crossed_ir : ConstraintIr
crossed_ir = record {
  symbols = [];
  nodes = [];
  assertions = [];
  entry_condition = none;
  intervals = crossed ∷ [];
}

abbrev query : SmtQuery
query = record { ir = crossed_ir; rule_id = codes "recursion"; budget_nodes = 0; timeout_ms = 50 }

-- The meaning of a query that the intervals alone give, and a solver that always gives up.
abbrev Feasible : SmtQuery → Type 0
Feasible q = AllSatisfiable q.ir.intervals

abbrev gives_up : SmtQuery → SmtAnswer
gives_up q = record { backend_name = codes "z3"; reason = none; status = unknown }

abbrev z3 : Option (SmtQuery → SmtAnswer)
z3 = some gives_up

respects : RespectsIntervals Feasible
respects q f = f

z3_sound : Z3IsSound Feasible z3
z3_sound q h = absurd (cc)

abbrev config : SolverOrchestratorConfig
config = record {
  primary_backend = codes "Z3";
  secondary_backend = [];
  mode = cross_check;
  budget_nodes = 10000;
  timeout_ms = 50;
}

-- Z3 gives up, and the interval backend is asked.
solve_run : (solve z3 config query).status ≡ unsat
unfolding solve resolve_backends
solve_run = refl

solve-IsSound_example : ¬ Feasible (runtime_query config query)
solve-IsSound_example = solve-IsSound Feasible z3 respects z3_sound config query solve_run

abbrev says : SmtStatus → SmtAnswer
says s = record { backend_name = codes "z3"; reason = none; status = s }

aggregate_consensus_iff_example :
    ((aggregate_statuses (says unsat ∷ says sat ∷ []) dual_consensus ≡ sat)
      ↔ Given sat (says unsat ∷ says sat ∷ []))
    × ((aggregate_statuses (says unsat ∷ says sat ∷ []) dual_consensus ≡ unsat)
        ↔ ((b : SmtAnswer) → Memᴰ b (says unsat ∷ says sat ∷ []) → b.status ≡ unsat))
aggregate_consensus_iff_example = aggregate_consensus_iff (says unsat) (says sat ∷ [])

abbrev analysis : AnalysisConfig
analysis = record {
  smt_enabled = true;
  smt_rules = codes "Recursion" ∷ [];
  smt_backend = codes "interval";
  smt_secondary_backend = [];
  smt_mode = portfolio;
  smt_budget_nodes = 10000;
  smt_timeout_ms = 50;
}

evaluate_query_run : evaluate_query z3 analysis (codes "recursion") crossed_ir ≡ infeasible
unfolding evaluate_query solve resolve_backends
evaluate_query_run = refl

abbrev path : Ranges
path = (1, exactly (pos 4)) ∷ []

is_satisfiable_run : is_satisfiable z3 analysis path crossed_ir ≡ ConstraintSat.unsat
unfolding is_satisfiable evaluate_query solve resolve_backends
is_satisfiable_run = refl

is_satisfiable_sound_example :
    NotFeasible Feasible z3 respects z3_sound analysis (codes "recursion") crossed_ir
    ⊎ (¬ Paths.AllSatisfiable path)
is_satisfiable_sound_example =
    is_satisfiable_sound Feasible z3 respects z3_sound analysis path crossed_ir is_satisfiable_run
