-- ===== src/Recursion/Ends.antt =====
-- The search ends: each round counts one more explored state, and the count has a limit.
use coretrace_stack_analyzer.Prelude.{
  ℕ, zero, suc, ◌+◌, ◌≤◌, ◌<◌, ◌≡◌, refl, Bool, Option, some, List, [], ◌∷◌, arith, ◌∙◌,
  if◌then◌else◌,
}
use coretrace_stack_analyzer.IntRanges.{Predicate, IrValue, Ranges}
use coretrace_stack_analyzer.IntRanges.Edge.{ConstraintSat}
use coretrace_stack_analyzer.Ir.{Condition, Block}
use coretrace_stack_analyzer.Recursion.{
  NonRecursiveReturnFeasibility, exists, does_not_exist, inconclusive, PathState, Search, Round,
  goes_on, stops, begin_search, max_states, round, run_search, search_paths,
  has_feasible_non_recursive_return_path,
}
use coretrace_stack_analyzer.Recursion.Rounds.{
  found, returned, undecided, extended, RoundCase, at_limit, skipped, visited, round-RoundCase,
  run_search_empty, run_search-round,
}

module _ (strip : IrValue → IrValue) (inverse : Predicate → Predicate)
    (evaluate : Ranges → Condition → Bool → ℕ → Option ℕ → ConstraintSat) (is_recursive : ℕ → Bool)
    (blocks : List Block) where
  -- A round that goes on has counted one state, below the limit.
  abbrev CountsOne : Search → Round → Type 0
  CountsOne s (goes_on after) =
      (after.explored_states ≡ s.explored_states + 1) × (s.explored_states < max_states)
  CountsOne s (stops result) = Unit

  RoundCase-CountsOne :
      (current : PathState) (rest : List PathState) (s : Search) (r : Round)
      → RoundCase strip inverse evaluate is_recursive blocks current rest s r
      → CountsOne s r
  RoundCase-CountsOne current rest s r at_limit = tt
  RoundCase-CountsOne current rest s r (skipped few often) = (refl, few)
  RoundCase-CountsOne current rest s _ (visited r few seldom (found a)) = tt
  RoundCase-CountsOne current rest s _ (visited r few seldom (returned a)) = (refl, few)
  RoundCase-CountsOne current rest s _ (visited r few seldom (undecided saw a b)) = tt
  RoundCase-CountsOne current rest s _ (visited r few seldom (extended saw states a b)) =
      (refl, few)

  run_search_ends :
      (fuel : ℕ) (s : Search)
      → max_states < fuel + s.explored_states
      → s.explored_states ≤ max_states
      → (result : NonRecursiveReturnFeasibility) × (last : Search) × (run_search strip inverse
            evaluate is_recursive blocks fuel s
          ≡ some (result, last))
  unfolding run_search
  run_search_ends zero s h le = absurd (omega arith)
  run_search_ends (suc fuel) s h le = go s.worklist refl (run_search_ends fuel)
    where
      go :
          (todo : List PathState)
          → s.worklist ≡ todo
          → ((t : Search)
              → max_states < fuel + t.explored_states
              → t.explored_states ≤ max_states
              → (result : NonRecursiveReturnFeasibility) × (last : Search) × (run_search strip
                    inverse evaluate is_recursive blocks fuel t
                  ≡ some (result, last)))
          → (result : NonRecursiveReturnFeasibility) × (last : Search) × (run_search strip inverse
                evaluate is_recursive blocks
                (suc fuel)
                s
              ≡ some (result, last))
      go [] e ih = (
        if s.saw_any_recursive_path then does_not_exist else exists,
        s,
        run_search_empty strip inverse evaluate is_recursive blocks fuel s e,
      )
      go (current ∷ rest) e ih =
          more (round strip inverse evaluate is_recursive blocks current rest s) refl (
            RoundCase-CountsOne current rest s
              (round strip inverse evaluate is_recursive blocks current rest s)
              (round-RoundCase strip inverse evaluate is_recursive blocks current rest s))
        where
          more :
              (r : Round)
              → round strip inverse evaluate is_recursive blocks current rest s ≡ r
              → CountsOne s r
              → (result : NonRecursiveReturnFeasibility) × (last : Search) × (run_search strip
                    inverse evaluate is_recursive blocks
                    (suc fuel)
                    s
                  ≡ some (result, last))
          more (stops result) eq c = (
            result,
            s,
            run_search-round strip inverse evaluate is_recursive blocks fuel s current rest
                (stops result) e eq,
          )
          more (goes_on after) eq c =
              let (result, last, done) = ih after (omega arith) (omega arith) in
              (
                result,
                last,
                run_search-round strip inverse evaluate is_recursive blocks fuel s current rest
                      (goes_on after) e eq
                    ∙ done,
              )

  pub search_paths_ends :
      (result : NonRecursiveReturnFeasibility) × (last : Search) × (search_paths strip inverse
          evaluate is_recursive blocks
        ≡ some (result, last))
  unfolding search_paths
  search_paths_ends = run_search_ends (max_states + 1) begin_search (omega arith) (omega arith)

-- The search `hasFeasibleNonRecursiveReturnPath` answers within 4097 rounds, for every function, every set of
-- recursive callees and every answer of the evaluator.
pub has_feasible_non_recursive_return_path_ends :
    (strip : IrValue → IrValue) (inverse : Predicate → Predicate)
    (evaluate : Ranges → Condition → Bool → ℕ → Option ℕ → ConstraintSat) (is_recursive : ℕ → Bool)
    (blocks : List Block)
    → (result : NonRecursiveReturnFeasibility) × (has_feasible_non_recursive_return_path strip
          inverse evaluate is_recursive blocks
        ≡ some result)
unfolding has_feasible_non_recursive_return_path
has_feasible_non_recursive_return_path_ends strip inverse evaluate is_recursive [] =
    (inconclusive, refl)
has_feasible_non_recursive_return_path_ends strip inverse evaluate is_recursive (b ∷ bs) =
    let (result, last, eq) = search_paths_ends strip inverse evaluate is_recursive (b ∷ bs) in
    (result, rw (has_feasible_non_recursive_return_path, eq) refl)
