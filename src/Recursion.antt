-- ===== src/Recursion.antt =====
-- `hasFeasibleNonRecursiveReturnPath` of src/analysis/StackComputation.cpp: a search, breadth first,
-- for a path through a function that returns before it calls a recursive callee. A block stands for
-- its place in the function. `strip` is LLVM's `stripPointerCasts`, `inverse` its
-- `getInversePredicate`; `evaluate` is `evaluator.isSatisfiable`.
pub mod Rounds
pub mod Ends
pub mod Reach
pub mod Explored
pub mod Complete
pub mod Detect
use coretrace_stack_analyzer.Prelude.{
  ℕ, zero, suc, ◌+◌, ◌*◌, Bool, true, false, not, ◌&&◌, ◌||◌, Option, none, some, List, [], ◌∷◌,
  ◌++◌, ltb, get_or, if◌then◌else◌, Assoc, lookup, insert,
}
use coretrace_stack_analyzer.IntRanges.{Predicate, IrValue, address, IntRange, Ranges}
use coretrace_stack_analyzer.IntRanges.Edge.{
  ConstraintSat, derive_edge_constraint, apply_constraint_to_state,
}
use coretrace_stack_analyzer.Ir.{
  BlockInstruction, call, return, Condition, compares, opaque, Terminator, branch, jumps, Block,
}

pub data NonRecursiveReturnFeasibility : Type 0 where
  exists does_not_exist inconclusive : NonRecursiveReturnFeasibility

pub record PathState : Type 0 where
  pub block : ℕ
  pub predecessor : Option ℕ
  pub ranges : Ranges
  pub depth : ℕ
  pub saw_recursive_call : Bool

abbrev pub entry_state : PathState
entry_state = record {
  block = 0;
  predecessor = none;
  ranges = [];
  depth = 0;
  saw_recursive_call = false;
}

-- The local variables of the loop.
pub record Search : Type 0 where
  pub worklist : List PathState
  pub visits : Assoc ℕ
  pub explored_states : ℕ
  pub saw_any_recursive_path : Bool

abbrev pub begin_search : Search
begin_search = record {
  worklist = entry_state ∷ [];
  visits = [];
  explored_states = 0;
  saw_any_recursive_path = false;
}

abbrev pub max_states : ℕ
max_states = 4096

abbrev pub max_depth : ℕ
max_depth = 1024

abbrev pub max_visits_per_node : ℕ
max_visits_per_node = 128

-- The pair of block and flag that `visits` has for a key, as one number.
abbrev pub visit_key : PathState → ℕ
visit_key s = 2 * s.block + (if s.saw_recursive_call then 1 else 0)

unfoldable pub visit_count : Assoc ℕ → ℕ → ℕ
visit_count visits key = elim (lookup visits key) [ none ↦ 0 | some n ↦ n ]

abbrev pub block_at : List Block → ℕ → Block
block_at blocks b = get_or blocks b (record { instructions = []; terminator = jumps [] })

-- What the loop over the instructions finds, with the flag `sawRecursiveCall`.
pub data BlockScan : Type 0 where
  returns falls_through : Bool → BlockScan

unfoldable pub scan_block : (ℕ → Bool) → List BlockInstruction → Bool → BlockScan
scan_block is_recursive [] saw = falls_through saw
scan_block is_recursive (return ∷ is) saw = returns saw
scan_block is_recursive (call (some callee) ∷ is) saw =
    scan_block is_recursive is (is_recursive callee.target || saw)
scan_block is_recursive (_ ∷ is) saw = scan_block is_recursive is saw

-- `next` without the constraint of the edge.
abbrev pub next_state : PathState → Bool → ℕ → PathState
next_state current saw succ = record {
  block = succ;
  predecessor = some current.block;
  ranges = current.ranges;
  depth = current.depth + 1;
  saw_recursive_call = saw;
}

unfoldable pub jump_states : PathState → Bool → List ℕ → List PathState
jump_states current saw [] = []
jump_states current saw (succ ∷ succs) = next_state current saw succ ∷ jump_states current saw succs

pub data EdgeOutcome : Type 0 where
  dropped undecided : EdgeOutcome
  pushed : PathState → EdgeOutcome

pub data Round : Type 0 where
  goes_on : Search → Round
  stops : NonRecursiveReturnFeasibility → Round

module _ (strip : IrValue → IrValue) (inverse : Predicate → Predicate)
    (evaluate : Ranges → Condition → Bool → ℕ → Option ℕ → ConstraintSat) where
  -- The ranges with the constraint of the edge, or nothing if a range becomes empty.
  unfoldable pub edge_ranges : Ranges → Condition → Bool → Option Ranges
  unfolding derive_edge_constraint apply_constraint_to_state
  edge_ranges ranges opaque takes_true_edge = some ranges
  edge_ranges ranges (compares pred op0 op1) takes_true_edge =
      elim (derive_edge_constraint strip inverse pred op0 op1 takes_true_edge) [
        | none ↦ some ranges
        | some (key, constraint) ↦
            let (narrowed, feasible) = apply_constraint_to_state ranges (address key) constraint in
            if feasible then some narrowed else none
      ]

  unfoldable pub follow_edge : PathState → Bool → Condition → Bool → ℕ → EdgeOutcome
  unfolding edge_ranges
  follow_edge current saw condition takes_true_edge succ =
      elim (edge_ranges current.ranges condition takes_true_edge) [
        | none ↦ dropped
        | some ranges ↦
            elim (evaluate ranges condition takes_true_edge current.block current.predecessor) [
              | ConstraintSat.unsat ↦ dropped
              | ConstraintSat.unknown ↦ undecided
              | ConstraintSat.sat ↦
                  pushed (record (next_state current saw succ) { ranges = ranges })
            ]
      ]

  -- The states that the terminator adds, or nothing where an edge is undecided.
  unfoldable pub successor_states : PathState → Bool → Terminator → Option (List PathState)
  unfolding follow_edge jump_states
  successor_states current saw (jumps succs) = some (jump_states current saw succs)
  successor_states current saw (branch condition on_true on_false) =
      let second : Option (List PathState) =
        elim (follow_edge current saw condition false on_false) [
          | dropped ↦ some []
          | undecided ↦ none
          | pushed next ↦ some (next ∷ [])
        ] in
      elim (follow_edge current saw condition true on_true) [
        | dropped ↦ second
        | undecided ↦ none
        | pushed next ↦ elim second [ none ↦ none | some states ↦ some (next ∷ states) ]
      ]

  module _ (is_recursive : ℕ → Bool) (blocks : List Block) where
    -- The rest of a round, once the limits are passed.
    unfoldable pub visit_block : PathState → Search → Round
    unfolding scan_block successor_states
    visit_block current s =
        elim (scan_block is_recursive (block_at blocks current.block).instructions
          current.saw_recursive_call) [
            | returns false ↦ stops exists
            | returns true ↦ goes_on (record s { saw_any_recursive_path = true })
            | falls_through saw ↦
                elim (successor_states current saw (block_at blocks current.block).terminator) [
                  | none ↦ stops inconclusive
                  | some states ↦ goes_on (record s { worklist = s.worklist ++ states })
                ]
          ]

    -- A round of the loop, for the state in front of the worklist.
    unfoldable pub round : PathState → List PathState → Search → Round
    unfolding visit_block visit_count
    round current rest s =
        let explored = s.explored_states + 1 in
        let key = visit_key current in
        let count = visit_count s.visits key in
        let after : Search = record {
          worklist = rest;
          visits = insert s.visits key (count + 1);
          explored_states = explored;
          saw_any_recursive_path = s.saw_any_recursive_path;
        } in
        if ltb max_states explored
        then stops inconclusive
        else if ltb max_depth current.depth
        then stops inconclusive
        else if ltb max_visits_per_node count
        then goes_on after
        else visit_block current after

    -- The loop, with the last state of its variables.
    unfoldable pub run_search : ℕ → Search → Option (NonRecursiveReturnFeasibility × Search)
    unfolding round
    run_search zero s = none
    run_search (suc fuel) s = elim s.worklist [
      | [] ↦ some (if s.saw_any_recursive_path then does_not_exist else exists, s)
      | current ∷ rest ↦ elim (round current rest s) [
        | stops result ↦ some (result, s)
        | goes_on after ↦ run_search fuel after
      ]
    ]

    unfoldable pub search_paths : Option (NonRecursiveReturnFeasibility × Search)
    unfolding run_search
    search_paths = run_search (max_states + 1) begin_search

    -- A function without blocks is a declaration.
    unfoldable pub has_feasible_non_recursive_return_path : Option NonRecursiveReturnFeasibility
    unfolding search_paths
    has_feasible_non_recursive_return_path = elim blocks [
      | [] ↦ some inconclusive
      | b ∷ bs ↦ elim search_paths [ none ↦ none | some (result, s) ↦ some result ]
    ]
