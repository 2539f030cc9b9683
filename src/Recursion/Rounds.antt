-- ===== src/Recursion/Rounds.antt =====
-- The cases of a round of the search, with the equations that hold in each.
use coretrace_stack_analyzer.Prelude.{
  ℕ, ◌+◌, ◌≤◌, ◌<◌, ◌≡◌, refl, suc, [], ◌∷◌, if◌then◌else◌, Bool, true, false, Option, none, some,
  List, ◌++◌, arith, ltb, Bool-cases, inl, inr, insert,
}
use coretrace_stack_analyzer.IntRanges.{Predicate, IrValue, Ranges}
use coretrace_stack_analyzer.IntRanges.Edge.{ConstraintSat}
use coretrace_stack_analyzer.Ir.{Condition, Block}
use coretrace_stack_analyzer.Recursion.{
  NonRecursiveReturnFeasibility, exists, does_not_exist, inconclusive, run_search, PathState,
  Search, Round, goes_on, stops, max_states, max_depth, max_visits_per_node, visit_key, visit_count,
  visit_block, round, scan_block, BlockScan, returns, falls_through, block_at, successor_states,
}

-- The search after the counts of the front state have been raised.
abbrev pub counted : PathState → List PathState → Search → Search
counted current rest s = record {
  worklist = rest;
  visits = insert s.visits (visit_key current) (visit_count s.visits (visit_key current) + 1);
  explored_states = s.explored_states + 1;
  saw_any_recursive_path = s.saw_any_recursive_path;
}

module _ (strip : IrValue → IrValue) (inverse : Predicate → Predicate)
    (evaluate : Ranges → Condition → Bool → ℕ → Option ℕ → ConstraintSat) (is_recursive : ℕ → Bool)
    (blocks : List Block) where
  abbrev pub scan : PathState → BlockScan
  scan current =
      scan_block is_recursive (block_at blocks current.block).instructions
        current.saw_recursive_call

  abbrev pub successors : PathState → Bool → Option (List PathState)
  successors current saw =
      successor_states strip inverse evaluate current saw (block_at blocks current.block).terminator

  pub data BlockCase (current : PathState) (s : Search) : Round → Type 0 where
    found : scan current ≡ returns false → BlockCase current s (stops exists)
    returned :
        scan current ≡ returns true
        → BlockCase current s (goes_on (record s { saw_any_recursive_path = true }))
    undecided :
        (saw : Bool)
        → scan current ≡ falls_through saw
        → successors current saw ≡ none
        → BlockCase current s (stops inconclusive)
    extended :
        (saw : Bool) (states : List PathState)
        → scan current ≡ falls_through saw
        → successors current saw ≡ some states
        → BlockCase current s (goes_on (record s { worklist = s.worklist ++ states }))

  pub visit_block-BlockCase :
      (current : PathState) (s : Search)
      → BlockCase current s (visit_block strip inverse evaluate is_recursive blocks current s)
  unfolding visit_block
  visit_block-BlockCase current s = go (scan current) refl
    where
      go :
          (b : BlockScan)
          → scan current ≡ b
          → BlockCase current s (visit_block strip inverse evaluate is_recursive blocks current s)
      go (returns false) eq = rw (visit_block, eq) (found eq)
      go (returns true) eq = rw (visit_block, eq) (returned eq)
      go (falls_through saw) eq = after (successors current saw) refl
        where
          after :
              (o : Option (List PathState))
              → successors current saw ≡ o
              → BlockCase current s
                  (visit_block strip inverse evaluate is_recursive blocks current s)
          after none e = rw (visit_block, eq, e) (undecided saw eq e)
          after (some states) e = rw (visit_block, eq, e) (extended saw states eq e)

  -- A round ends at a limit, drops the state, or visits its block.
  pub data RoundCase (current : PathState) (rest : List PathState) (s : Search)
      : Round → Type 0 where
    at_limit : RoundCase current rest s (stops inconclusive)
    skipped :
        s.explored_states < max_states
        → max_visits_per_node < visit_count s.visits (visit_key current)
        → RoundCase current rest s (goes_on (counted current rest s))
    visited :
        (r : Round)
        → s.explored_states < max_states
        → visit_count s.visits (visit_key current) ≤ max_visits_per_node
        → BlockCase current (counted current rest s) r
        → RoundCase current rest s r

  pub round-RoundCase :
      (current : PathState) (rest : List PathState) (s : Search)
      → RoundCase current rest s (round strip inverse evaluate is_recursive blocks current rest s)
  unfolding round
  round-RoundCase current rest s = elim (Bool-cases (ltb max_states (s.explored_states + 1))) [
    | inl over ↦ rw (round, over) at_limit
    | inr within ↦ elim (Bool-cases (ltb max_depth current.depth)) [
      | inl deep ↦ rw (round, within, deep) at_limit
      | inr shallow ↦
          elim (Bool-cases (ltb max_visits_per_node (visit_count s.visits (visit_key current)))) [
            | inl often ↦ rw (round, within, shallow, often) (skipped (ground arith) (ground arith))
            | inr seldom ↦
                rw (round, within, shallow, seldom)
                  (visited
                    (visit_block strip inverse evaluate is_recursive blocks current
                      (counted current rest s))
                    (ground arith) (ground arith)
                    (visit_block-BlockCase current (counted current rest s)))
          ]
    ]
  ]

  -- What the loop makes of the round.
  abbrev pub after_round : ℕ → Search → Round → Option (NonRecursiveReturnFeasibility × Search)
  after_round fuel s (stops result) = some (result, s)
  after_round fuel s (goes_on after) =
      run_search strip inverse evaluate is_recursive blocks fuel after

  pub run_search_empty :
      (fuel : ℕ) (s : Search)
      → s.worklist ≡ []
      → run_search strip inverse evaluate is_recursive blocks (suc fuel) s
        ≡ some (if s.saw_any_recursive_path then does_not_exist else exists, s)
  unfolding run_search
  run_search_empty fuel s e = simp (run_search, e)

  pub run_search-round :
      (fuel : ℕ) (s : Search) (current : PathState) (rest : List PathState) (r : Round)
      → s.worklist ≡ current ∷ rest
      → round strip inverse evaluate is_recursive blocks current rest s ≡ r
      → run_search strip inverse evaluate is_recursive blocks (suc fuel) s ≡ after_round fuel s r
  unfolding run_search
  run_search-round fuel s current rest (stops result) e eq = simp (run_search, e, eq)
  run_search-round fuel s current rest (goes_on after) e eq = simp (run_search, e, eq)
