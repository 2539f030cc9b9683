-- ===== src/StackUsage/Totals.antt =====
-- `dfsComputeStack` and `computeGlobalStackUsage`: the stack of a function with the deepest calls
-- below it. The recursion runs on fuel, one unit for a nested call.
pub mod Ends
pub mod Reference
pub mod Most
pub mod Correct
pub mod Paths
use coretrace_stack_analyzer.Prelude.{
  ℕ, zero, suc, ◌+◌, Bool, false, ◌||◌, Option, none, some, List, [], ◌∷◌, ◌++◌, ltb, length, has,
  if◌then◌else◌, Assoc, lookup, insert,
}
use coretrace_stack_analyzer.StackUsage.{LocalStackInfo, CallGraph, wrap}

pub record StackEstimate : Type 0 where
  pub bytes : ℕ
  pub unknown : Bool

abbrev pub no_estimate : StackEstimate
no_estimate = record { bytes = 0; unknown = false }

pub data VisitState : Type 0 where
  not_visited visiting visited : VisitState

-- `State` and `Res.TotalStack`.
pub record Walk : Type 0 where
  pub state : Assoc VisitState
  pub total_stack : Assoc StackEstimate

unfoldable pub state_of : Assoc VisitState → ℕ → VisitState
state_of m f = elim (lookup m f) [ none ↦ not_visited | some v ↦ v ]

unfoldable pub estimate_of : Assoc StackEstimate → ℕ → StackEstimate
estimate_of m f = elim (lookup m f) [ none ↦ no_estimate | some e ↦ e ]

unfoldable pub callees : CallGraph → ℕ → List ℕ
callees cg f = elim (lookup cg f) [ none ↦ [] | some cs ↦ cs ]

-- `maxCallee` with one more callee.
unfoldable pub join : StackEstimate → StackEstimate → StackEstimate
join most callee = record {
  bytes = if ltb most.bytes callee.bytes then callee.bytes else most.bytes;
  unknown = callee.unknown || most.unknown;
}

unfoldable pub add_local : StackEstimate → StackEstimate → StackEstimate
add_local own most = record {
  bytes = wrap (own.bytes + most.bytes);
  unknown = own.unknown || most.unknown;
}

module _ (cg : CallGraph) (locals : Assoc LocalStackInfo) where
  unfoldable pub local_estimate : ℕ → StackEstimate
  local_estimate f = elim (lookup locals f) [
    | none ↦ no_estimate
    | some info ↦ record { bytes = info.bytes; unknown = info.unknown }
  ]

  -- The loop over the callees.
  pub visit_callees :
      (ℕ → Walk → Option (StackEstimate × Walk))
      → List ℕ
      → StackEstimate
      → Walk
      → Option (StackEstimate × Walk)
  unfolding join
  visit_callees visit [] most w = some (most, w)
  visit_callees visit (c ∷ cs) most w = elim (visit c w) [
    | none ↦ none
    | some (callee, after) ↦ visit_callees visit cs (join most callee) after
  ]

  abbrev pub enter : Walk → ℕ → Walk
  enter w f = record w { state = insert w.state f visiting }

  abbrev pub leave : Walk → ℕ → StackEstimate → Walk
  leave w f total = record {
    state = insert w.state f visited;
    total_stack = insert w.total_stack f total;
  }

  unfoldable pub dfs_compute_stack : ℕ → ℕ → Walk → Option (StackEstimate × Walk)
  unfolding state_of estimate_of callees add_local local_estimate visit_callees
  dfs_compute_stack zero f w = none
  dfs_compute_stack (suc fuel) f w = elim (state_of w.state f) [
    | visiting ↦ some (local_estimate f, w)
    | visited ↦ some (estimate_of w.total_stack f, w)
    | not_visited ↦
        elim (visit_callees (dfs_compute_stack fuel) (callees cg f) no_estimate (enter w f)) [
          | none ↦ none
          | some (most, after) ↦
              let total = add_local (local_estimate f) most in some (total, leave after f total)
        ]
  ]

  -- The loop over the functions with a local stack.
  unfoldable pub visit_functions : ℕ → Assoc LocalStackInfo → Walk → Option Walk
  unfolding dfs_compute_stack
  visit_functions fuel [] w = some w
  visit_functions fuel ((f, info) ∷ rest) w = elim (state_of w.state f) [
    | not_visited ↦ elim (dfs_compute_stack fuel f w) [
      | none ↦ none
      | some (total, after) ↦ visit_functions fuel rest after
    ]
    | visiting ↦ visit_functions fuel rest w
    | visited ↦ visit_functions fuel rest w
  ]

-- Every function that the graph or the local stacks name.
unfoldable pub graph_nodes : CallGraph → List ℕ
graph_nodes [] = []
graph_nodes ((f, cs) ∷ cg) = f ∷ cs ++ graph_nodes cg

unfoldable pub local_keys : Assoc LocalStackInfo → List ℕ
local_keys [] = []
local_keys ((f, info) ∷ locals) = f ∷ local_keys locals

abbrev pub nodes : CallGraph → Assoc LocalStackInfo → List ℕ
nodes cg locals = local_keys locals ++ graph_nodes cg

-- Each function once.
unfoldable pub distinct : List ℕ → List ℕ
distinct [] = []
distinct (f ∷ fs) = let rest = distinct fs in if has rest f then rest else f ∷ rest

abbrev pub start : Walk
start = record { state = []; total_stack = [] }

-- `Res.TotalStack`; a state that is not in the map counts as not visited. Each nested call has
-- marked one more function.
unfoldable pub compute_global_stack_usage :
    CallGraph → Assoc LocalStackInfo → Option (Assoc StackEstimate)
unfolding visit_functions distinct
compute_global_stack_usage cg locals =
    elim (visit_functions cg locals (suc (length (distinct (nodes cg locals)))) locals start) [
      | none ↦ none
      | some w ↦ some w.total_stack
    ]
