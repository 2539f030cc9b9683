-- ===== src/Smt/Orchestrator.antt =====
-- Strategies, the aggregation of answers, and `SolverOrchestrator::solve`.
pub mod Aggregate
pub mod Resolve
pub mod Solve
use coretrace_stack_analyzer.Prelude.{
  ℕ, Bool, true, false, not, ◌&&◌, ◌||◌, Option, none, some, List, [], ◌∷◌, map, ◌==◌,
  if◌then◌else◌,
}
use coretrace_stack_analyzer.Prelude.Text.{Text, codes, text_eq}
use coretrace_stack_analyzer.Smt.Types.{
  SolverMode, single, portfolio, cross_check, dual_consensus, SmtStatus, sat, unsat, unknown,
  timeout, error, SmtQuery, SmtAnswer, SmtDecision, to_lower_ascii,
}
use coretrace_stack_analyzer.Smt.Backends.{SmtBackend, append_backend_if_missing}

pub run_single : SmtQuery → List SmtBackend → List SmtAnswer
run_single query [] = []
run_single query (b ∷ backends) = b.solve query ∷ []

pub run_portfolio : SmtQuery → List SmtBackend → List SmtAnswer
run_portfolio query = map λ b. b.solve query

abbrev pub is_inconclusive : SmtStatus → Bool
is_inconclusive sat = false
is_inconclusive unsat = false
is_inconclusive status = true

pub run_cross_check : SmtQuery → List SmtBackend → List SmtAnswer
run_cross_check query [] = []
run_cross_check query (b ∷ []) = b.solve query ∷ []
run_cross_check query (b ∷ second ∷ backends) =
    let primary = b.solve query in
    if is_inconclusive primary.status then primary ∷ second.solve query ∷ [] else primary ∷ []

pub status_eq : SmtStatus → SmtStatus → Bool
status_eq sat sat = true
status_eq unsat unsat = true
status_eq unknown unknown = true
status_eq timeout timeout = true
status_eq error error = true
status_eq _ _ = false

-- The flags that the loops of `aggregateStatuses` gather.
pub saw : SmtStatus → List SmtAnswer → Bool
unfolding status_eq
saw status [] = false
saw status (a ∷ answers) = status_eq a.status status || saw status answers

pub all_unsat : List SmtAnswer → Bool
unfolding status_eq
all_unsat [] = true
all_unsat (a ∷ answers) = status_eq a.status unsat && all_unsat answers

aggregate_consensus : List SmtAnswer → SmtStatus
unfolding saw all_unsat
aggregate_consensus answers =
    if saw sat answers then sat else if all_unsat answers then unsat else unknown

aggregate_any : List SmtAnswer → SmtStatus
unfolding saw
aggregate_any answers =
    if saw sat answers && saw unsat answers
    then unknown
    else if saw sat answers
    then sat
    else if saw unsat answers
    then unsat
    else if saw timeout answers
    then timeout
    else if saw error answers
    then error
    else unknown

pub aggregate_statuses : List SmtAnswer → SolverMode → SmtStatus
unfolding aggregate_consensus aggregate_any
aggregate_statuses [] mode = error
aggregate_statuses (a ∷ answers) dual_consensus = aggregate_consensus (a ∷ answers)
aggregate_statuses (a ∷ answers) mode = aggregate_any (a ∷ answers)

pub record SolverOrchestratorConfig : Type 0 where
  pub primary_backend : Text
  pub secondary_backend : Text
  pub mode : SolverMode
  pub budget_nodes : ℕ
  pub timeout_ms : ℕ

-- The strategy that the mode chooses.
pub run_strategy : SolverMode → SmtQuery → List SmtBackend → List SmtAnswer
unfolding run_single run_portfolio run_cross_check
run_strategy single = run_single
run_strategy portfolio = run_portfolio
run_strategy cross_check = run_cross_check
run_strategy dual_consensus = run_portfolio

-- Zero limits of the query are replaced by those of the configuration.
pub runtime_query : SolverOrchestratorConfig → SmtQuery → SmtQuery
runtime_query config query = record query {
  timeout_ms = if query.timeout_ms == 0 then config.timeout_ms else query.timeout_ms;
  budget_nodes = if query.budget_nodes == 0 then config.budget_nodes else query.budget_nodes;
}

abbrev no_backend : SmtDecision
no_backend = record {
  answers =
      record {
        backend_name = codes "orchestrator";
        reason = some (codes "no backend available");
        status = error;
      }
      ∷ [];
  status = error;
}

pub solve_with : SolverOrchestratorConfig → SmtQuery → List SmtBackend → SmtDecision
unfolding runtime_query run_strategy aggregate_statuses
solve_with config query [] = no_backend
solve_with config query (b ∷ backends) =
    let answers = run_strategy config.mode (runtime_query config query) (b ∷ backends) in
    record { answers = answers; status = aggregate_statuses answers config.mode }

-- Everything from here on depends on whether the build links Z3.
module _ (z3 : Option (SmtQuery → SmtAnswer)) where
  append_secondary : SolverOrchestratorConfig → List SmtBackend → List SmtBackend
  unfolding append_backend_if_missing
  append_secondary config out =
      if text_eq config.secondary_backend []
      then out
      else append_backend_if_missing z3 out config.secondary_backend

  append_interval : SolverOrchestratorConfig → List SmtBackend → List SmtBackend
  unfolding append_backend_if_missing to_lower_ascii
  append_interval config out =
      if text_eq (to_lower_ascii config.primary_backend) (codes "interval")
      then out
      else append_backend_if_missing z3 out (codes "interval")

  add_by_mode : SolverMode → SolverOrchestratorConfig → List SmtBackend → List SmtBackend
  unfolding append_secondary append_interval
  add_by_mode single config out = out
  add_by_mode cross_check config out =
      if text_eq config.secondary_backend []
      then append_interval config out
      else append_secondary config out
  add_by_mode _ config out = append_interval config (append_secondary config out)

  unfoldable pub resolve_backends : SolverOrchestratorConfig → List SmtBackend
  unfolding add_by_mode append_backend_if_missing
  resolve_backends config =
      add_by_mode config.mode config (append_backend_if_missing z3 [] config.primary_backend)

  unfoldable pub solve : SolverOrchestratorConfig → SmtQuery → SmtDecision
  unfolding solve_with resolve_backends
  solve config query = solve_with config query (resolve_backends config)
