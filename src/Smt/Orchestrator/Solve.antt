-- ===== src/Smt/Orchestrator/Solve.antt =====
-- What an Unsat of the orchestrator rests on.
use coretrace_stack_analyzer.Prelude.{
  ◌≡◌, inl, inr, Bool, true, false, ◌||◌, Option, none, some, List, [], ◌∷◌, ◌++◌, if◌then◌else◌,
  Bool-cases,
}
use coretrace_stack_analyzer.Prelude.Text.{Text, codes, text_eq}
use coretrace_stack_analyzer.Smt.Types.{
  SolverMode, single, portfolio, cross_check, dual_consensus, unsat, SmtQuery, SmtAnswer,
  to_lower_ascii,
}
use coretrace_stack_analyzer.Smt.Backends.{
  SmtBackend, interval_backend, unavailable_backend, create_backend, append_backend_if_missing,
}
use coretrace_stack_analyzer.Smt.Backends.Interval.{AllSatisfiable, interval_status_iff}
use coretrace_stack_analyzer.Smt.Orchestrator.{
  SolverOrchestratorConfig, run_single, run_portfolio, run_cross_check, run_strategy, runtime_query,
  append_secondary, append_interval, add_by_mode, resolve_backends, solve_with, solve,
  is_inconclusive,
}
use coretrace_stack_analyzer.Smt.Orchestrator.Aggregate.{All, aggregate_statuses_entails}

-- A solver that answers Unsat only to queries that are not feasible.
abbrev pub IsSound : (SmtQuery → Type 0) → (SmtQuery → SmtAnswer) → Type 0
IsSound Feasible solver = (q : SmtQuery) → (solver q).status ≡ unsat → ¬ Feasible q

-- The Z3 backend, where the build links it, is sound.
abbrev pub Z3IsSound : (SmtQuery → Type 0) → Option (SmtQuery → SmtAnswer) → Type 0
Z3IsSound Feasible none = Unit
Z3IsSound Feasible (some solver) = IsSound Feasible solver

-- A feasible query has an integer in each of its intervals.
abbrev pub RespectsIntervals : (SmtQuery → Type 0) → Type 0
RespectsIntervals Feasible = (q : SmtQuery) → Feasible q → AllSatisfiable q.ir.intervals

module _ (Feasible : SmtQuery → Type 0) (z3 : Option (SmtQuery → SmtAnswer))
    (respects : RespectsIntervals Feasible) (z3_sound : Z3IsSound Feasible z3) where
  abbrev AllSound : List SmtBackend → Type 0
  AllSound = All λ b. IsSound Feasible b.solve

  interval-IsSound : IsSound Feasible (interval_backend.solve)
  unfolding interval_backend
  interval-IsSound q h f = (interval_status_iff q.ir.intervals).1.0 h (respects q f)

  unavailable-IsSound : (name : Text) → IsSound Feasible ((unavailable_backend name).solve)
  unfolding unavailable_backend
  unavailable-IsSound name q h = absurd (cc)

  z3_backend-IsSound :
      (o : Option (SmtQuery → SmtAnswer))
      → Z3IsSound Feasible o
      → IsSound Feasible (
          (elim o as (λ _. SmtBackend) [
            | none ↦ unavailable_backend (codes "z3")
            | some solver ↦ record { name = codes "z3"; solve = solver }
          ]).solve)
  z3_backend-IsSound none h = unavailable-IsSound (codes "z3")
  z3_backend-IsSound (some solver) h = h

  if_IsSound :
      (t : Bool) (b c : SmtBackend)
      → IsSound Feasible b.solve
      → IsSound Feasible c.solve
      → IsSound Feasible ((if t then b else c).solve)
  if_IsSound true b c h k = h
  if_IsSound false b c h k = k

  if_AllSound :
      (t : Bool) (bs cs : List SmtBackend)
      → AllSound bs
      → AllSound cs
      → AllSound (if t then bs else cs)
  if_AllSound true bs cs h k = h
  if_AllSound false bs cs h k = k

  create_backend-IsSound : (name : Text) → IsSound Feasible ((create_backend z3 name).solve)
  unfolding create_backend
  create_backend-IsSound name =
      let lowered = to_lower_ascii name in
      if_IsSound (text_eq lowered [] || text_eq lowered (codes "interval")) _ _ interval-IsSound (
        if_IsSound (text_eq lowered (codes "z3")) _ _ (z3_backend-IsSound z3 z3_sound) (
          if_IsSound (text_eq lowered (codes "cvc5")) _ _ (unavailable-IsSound (codes "cvc5"))
            (unavailable-IsSound name)))

  All-append : (xs ys : List SmtBackend) → AllSound xs → AllSound ys → AllSound (xs ++ ys)
  All-append [] ys h k = k
  All-append (x ∷ xs) ys h k = (h.0, All-append xs ys h.1 k)

  append_backend_if_missing-AllSound :
      (out : List SmtBackend) (name : Text)
      → AllSound out
      → AllSound (append_backend_if_missing z3 out name)
  unfolding append_backend_if_missing
  append_backend_if_missing-AllSound out name h =
      if_AllSound _ _ _ h
        (All-append out (create_backend z3 name ∷ []) h (create_backend-IsSound name, tt))

  append_secondary-AllSound :
      (config : SolverOrchestratorConfig) (out : List SmtBackend)
      → AllSound out
      → AllSound (append_secondary z3 config out)
  unfolding append_secondary
  append_secondary-AllSound config out h =
      if_AllSound _ _ _ h (append_backend_if_missing-AllSound out config.secondary_backend h)

  append_interval-AllSound :
      (config : SolverOrchestratorConfig) (out : List SmtBackend)
      → AllSound out
      → AllSound (append_interval z3 config out)
  unfolding append_interval
  append_interval-AllSound config out h =
      if_AllSound _ _ _ h (append_backend_if_missing-AllSound out (codes "interval") h)

  add_by_mode-AllSound :
      (mode : SolverMode) (config : SolverOrchestratorConfig) (out : List SmtBackend)
      → AllSound out
      → AllSound (add_by_mode z3 mode config out)
  unfolding add_by_mode
  add_by_mode-AllSound single config out h = h
  add_by_mode-AllSound cross_check config out h =
      if_AllSound _ _ _ (append_interval-AllSound config out h)
        (append_secondary-AllSound config out h)
  add_by_mode-AllSound mode config out h =
      append_interval-AllSound config _ (append_secondary-AllSound config out h)

  -- The answers to one query, each of which is Unsat only if the query is not feasible.
  abbrev AllAnswer : SmtQuery → List SmtAnswer → Type 0
  AllAnswer q = All λ a. a.status ≡ unsat → ¬ Feasible q

  run_portfolio-AllAnswer :
      (q : SmtQuery) (bs : List SmtBackend) → AllSound bs → AllAnswer q (run_portfolio q bs)
  unfolding run_portfolio
  run_portfolio-AllAnswer q [] h = tt
  run_portfolio-AllAnswer q (b ∷ bs) h = (h.0 q, run_portfolio-AllAnswer q bs h.1)

  run_cross_check-AllAnswer :
      (q : SmtQuery) (bs : List SmtBackend) → AllSound bs → AllAnswer q (run_cross_check q bs)
  unfolding run_cross_check
  run_cross_check-AllAnswer q [] h = tt
  run_cross_check-AllAnswer q (b ∷ []) h = (h.0 q, tt)
  run_cross_check-AllAnswer q (b ∷ b' ∷ bs) h =
      elim (Bool-cases (is_inconclusive (b.solve q).status)) [
        | inl unsure ↦ rw unsure (h.0 q, (h.1.0 q, tt))
        | inr sure ↦ rw sure (h.0 q, tt)
      ]

  run_strategy-AllAnswer :
      (mode : SolverMode) (q : SmtQuery) (bs : List SmtBackend)
      → AllSound bs
      → AllAnswer q (run_strategy mode q bs)
  unfolding run_strategy run_single
  run_strategy-AllAnswer single q [] h = tt
  run_strategy-AllAnswer single q (b ∷ bs) h = (h.0 q, tt)
  run_strategy-AllAnswer portfolio q bs h = run_portfolio-AllAnswer q bs h
  run_strategy-AllAnswer cross_check q bs h = run_cross_check-AllAnswer q bs h
  run_strategy-AllAnswer dual_consensus q bs h = run_portfolio-AllAnswer q bs h

  solve_with-IsSound :
      (config : SolverOrchestratorConfig) (q : SmtQuery) (bs : List SmtBackend)
      → AllSound bs
      → (solve_with config q bs).status ≡ unsat
      → ¬ Feasible (runtime_query config q)
  unfolding solve_with
  solve_with-IsSound config q [] h e = absurd (cc)
  solve_with-IsSound config q (b ∷ bs) h e =
      let rq = runtime_query config q in
      aggregate_statuses_entails (¬ Feasible rq) (run_strategy config.mode rq (b ∷ bs)) config.mode
        (run_strategy-AllAnswer config.mode rq (b ∷ bs) h) e

  -- Let every feasible query have an integer in each of its intervals, and let the Z3 backend, if it
  -- is linked, answer Unsat only to queries that are not feasible. Then in every mode, whatever
  -- backends the configuration names, an Unsat of the orchestrator means that the query with its
  -- limits filled in is not feasible.
  pub solve-IsSound :
      (config : SolverOrchestratorConfig) (q : SmtQuery)
      → (solve z3 config q).status ≡ unsat
      → ¬ Feasible (runtime_query config q)
  unfolding solve resolve_backends
  solve-IsSound config q = solve_with-IsSound config q _ (
      add_by_mode-AllSound config.mode config _
        (append_backend_if_missing-AllSound [] config.primary_backend tt))
