-- ===== src/Samples/Recursive.antt =====
-- The search for a return before a recursive call, on small functions.
use coretrace_stack_analyzer.Prelude.{
  none, ◌⊎◌, ℕ, zero, suc, ◌+◌, ◌≡◌, ◌≢◌, refl, Bool, true, false, Option, some, List, [], ◌∷◌,
  ◌++◌, ◌==◌, arith, has, lookup, insert,
}
use coretrace_stack_analyzer.Prelude.Int.{pos}
use coretrace_stack_analyzer.IntRanges.{
  find_range, split_operands, derive_range, apply_constraint, Predicate, icmp_eq, icmp_ne, icmp_ugt,
  icmp_uge, icmp_ult, icmp_ule, icmp_sgt, icmp_sge, icmp_slt, icmp_sle, constant_int, load, other,
  Ranges,
}
use coretrace_stack_analyzer.IntRanges.Edge.{ConstraintSat, evaluate_interval_satisfiability}
use coretrace_stack_analyzer.Ir.{
  BlockInstruction, call, return, Condition, compares, opaque, Terminator, branch, jumps, Block,
}
use coretrace_stack_analyzer.Recursion.{
  NonRecursiveReturnFeasibility, exists, does_not_exist, has_feasible_non_recursive_return_path,
  begin_search, search_paths, block_at, Search, PathState, entry_state, returns,
}
use coretrace_stack_analyzer.Prelude.Text.{codes}
use coretrace_stack_analyzer.Ir.{Function}
use coretrace_stack_analyzer.Smt.Types.{ConstraintIr, portfolio}
use coretrace_stack_analyzer.Smt.Evaluator.{AnalysisConfig}
use coretrace_stack_analyzer.Recursion.Ends.{has_feasible_non_recursive_return_path_ends}
use coretrace_stack_analyzer.Recursion.Reach.{AllSeldom, Reach, at_entry, scan_of}
use coretrace_stack_analyzer.Recursion.Complete.{does_not_exist_lem, exists_lem}
use coretrace_stack_analyzer.Recursion.Detect.{detect_infinite_recursion_by_dominance, has_return}
use coretrace_stack_analyzer.Recursion.Detect.Dominance.{
  from_entry, IsDominance, CallsAt, detect_infinite_recursion_by_dominance_sound,
}
use coretrace_stack_analyzer.Recursion.Detect.Agree.{
  detect_infinite_recursion_by_dominance_agrees, ReturnsLast,
}

abbrev inverse : Predicate → Predicate
inverse icmp_eq = icmp_ne
inverse icmp_ne = icmp_eq
inverse icmp_ugt = icmp_ule
inverse icmp_uge = icmp_ult
inverse icmp_ult = icmp_uge
inverse icmp_ule = icmp_ugt
inverse icmp_sgt = icmp_sle
inverse icmp_sge = icmp_slt
inverse icmp_slt = icmp_sge
inverse icmp_sle = icmp_sgt

-- The evaluator of a build without a solver.
abbrev by_intervals : Ranges → Condition → Bool → ℕ → Option ℕ → ConstraintSat
by_intervals ranges condition takes_true_edge block incoming =
    evaluate_interval_satisfiability ranges

abbrev block : List BlockInstruction → Terminator → Block
block is t = record { instructions = is; terminator = t }

-- `x > 0`, where `x` is loaded from a stack slot.
abbrev x_positive : Condition
x_positive = compares icmp_sgt (load 2 (other 1)) (constant_int 3 (pos 0) 0)

abbrev call_self : BlockInstruction
call_self = call (some (record { target = 7; is_declaration = false }))

-- One branch on `x > 0`, tests of other values, whose arms meet again, and the same branch: it
-- calls itself if `x > 0` and returns otherwise.
abbrev tests_between : ℕ → ℕ → List Block
tests_between zero b = []
tests_between (suc n) b = block [] (branch opaque (suc b) (suc b)) ∷ tests_between n (suc b)

abbrev returns_unless_positive : ℕ → List Block
returns_unless_positive n =
    block [] (branch x_positive 1 1) ∷ tests_between n 1
    ++ block [] (branch x_positive (n + 3) (n + 2))
      ∷ block (return ∷ []) (jumps [])
      ∷ block (call_self ∷ return ∷ []) (jumps [])
      ∷ []

abbrev is_self : ℕ → Bool
is_self a = a == 7

few_tests_run :
    has_feasible_non_recursive_return_path
      (λ v. v)
      inverse
      by_intervals
      is_self
      (returns_unless_positive 2)
    ≡ some exists
unfolding has_feasible_non_recursive_return_path evaluate_interval_satisfiability find_range lookup
    split_operands derive_range apply_constraint insert
few_tests_run = refl

-- With eight tests the paths with `x > 0` use up the visits of a block, the others are left out, and
-- the answer is the one that stands for recursion without end.
many_tests_run :
    has_feasible_non_recursive_return_path
      (λ v. v)
      inverse
      by_intervals
      is_self
      (returns_unless_positive 8)
    ≡ some does_not_exist
unfolding has_feasible_non_recursive_return_path evaluate_interval_satisfiability find_range lookup
    split_operands derive_range apply_constraint insert
many_tests_run = refl

-- One block that calls itself and returns.
abbrev always_calls : List Block
always_calls = block (call_self ∷ return ∷ []) (jumps []) ∷ []

abbrev after_one_block : Search
after_one_block = record {
  worklist = [];
  visits = (0, 1) ∷ [];
  explored_states = 1;
  saw_any_recursive_path = true;
}

always_calls_search :
    search_paths (λ v. v) inverse by_intervals is_self always_calls
    ≡ some (does_not_exist, after_one_block)
unfolding search_paths lookup insert
always_calls_search = refl

has_feasible_non_recursive_return_path_ends_example :
    (result : NonRecursiveReturnFeasibility) × (has_feasible_non_recursive_return_path
        (λ v. v)
        inverse
        by_intervals
        is_self
        (returns_unless_positive 2)
      ≡ some result)
has_feasible_non_recursive_return_path_ends_example =
    has_feasible_non_recursive_return_path_ends (λ v. v) inverse by_intervals is_self
      (returns_unless_positive 2)

does_not_exist_lem_example :
    ((t : PathState) × Reach (λ v. v) inverse by_intervals is_self always_calls t
      × (scan_of (λ v. v) inverse by_intervals is_self always_calls t ≡ returns true))
    × (AllSeldom after_one_block
        → (t : PathState) → Reach (λ v. v) inverse by_intervals is_self always_calls t
        → scan_of (λ v. v) inverse by_intervals is_self always_calls t ≢ returns false)
does_not_exist_lem_example =
    does_not_exist_lem (λ v. v) inverse by_intervals is_self always_calls after_one_block
      always_calls_search

-- The dominator tree of a single block.
abbrev same_block : ℕ → ℕ → Bool
same_block a b = a == b

same_block-IsDominance : IsDominance same_block always_calls
same_block-IsDominance a b before h p = ground arith

always_calls_dominated :
    detect_infinite_recursion_by_dominance same_block is_self always_calls ≡ true
unfolding detect_infinite_recursion_by_dominance
always_calls_dominated = refl

always_calls_returns : has_return (call_self ∷ return ∷ []) ≡ true
unfolding has_return
always_calls_returns = refl

detect_infinite_recursion_by_dominance_sound_example :
    (a : ℕ) × (has (0 ∷ []) a ≡ true) × CallsAt is_self always_calls a
detect_infinite_recursion_by_dominance_sound_example =
    detect_infinite_recursion_by_dominance_sound same_block is_self always_calls 0 []
      same_block-IsDominance always_calls_dominated from_entry always_calls_returns

always_calls-ReturnsLast : (b : ℕ) → ReturnsLast (block_at always_calls b).instructions
always_calls-ReturnsLast zero = refl
always_calls-ReturnsLast (suc b) = tt

detect_infinite_recursion_by_dominance_agrees_example :
    scan_of (λ v. v) inverse by_intervals is_self always_calls entry_state ≢ returns false
detect_infinite_recursion_by_dominance_agrees_example =
    detect_infinite_recursion_by_dominance_agrees (λ v. v) inverse by_intervals same_block is_self
      always_calls entry_state same_block-IsDominance always_calls-ReturnsLast
      always_calls_dominated at_entry

-- A build without a backend, and rules for which no query is asked.
abbrev no_solver : AnalysisConfig
no_solver = record {
  smt_enabled = false;
  smt_rules = [];
  smt_backend = codes "interval";
  smt_secondary_backend = [];
  smt_mode = portfolio;
  smt_budget_nodes = 0;
  smt_timeout_ms = 0;
}

abbrev self_caller : Function
self_caller = record {
  address = 7;
  name = codes "f";
  is_declaration = false;
  no_recurse = false;
  blocks = always_calls;
}

abbrev no_ir : ConstraintIr
no_ir = record { symbols = []; nodes = []; assertions = []; entry_condition = none; intervals = [] }

abbrev only_returns : List Block
only_returns = block (return ∷ []) (jumps []) ∷ []

only_returns_search :
    search_paths (λ v. v) inverse by_intervals is_self only_returns ≡ some (exists, begin_search)
unfolding search_paths lookup insert
only_returns_search = refl

exists_lem_example :
    ((t : PathState) × Reach (λ v. v) inverse by_intervals is_self only_returns t
      × (scan_of (λ v. v) inverse by_intervals is_self only_returns t ≡ returns false))
    ⊎ (AllSeldom begin_search
        → (t : PathState) (flag : Bool) → Reach (λ v. v) inverse by_intervals is_self only_returns t
        → scan_of (λ v. v) inverse by_intervals is_self only_returns t ≢ returns flag)
exists_lem_example =
    exists_lem (λ v. v) inverse by_intervals is_self only_returns begin_search only_returns_search
