-- ===== src/StackUsage/Totals/Paths.antt =====
-- `buildMaxStackCallPath` of src/analysis/AnalyzerUtils.cpp: from a function on, always to the callee
-- with the most stack. A unit of fuel stands for a round of the loop.
pub mod Trail
use coretrace_stack_analyzer.Prelude.{
  ℕ, zero, suc, Bool, Option, none, some, List, [], ◌∷◌, ◌++◌, ◌==◌, ltb, length, has,
  if◌then◌else◌, Assoc, lookup,
}
use coretrace_stack_analyzer.Prelude.Text.{Text, codes}
use coretrace_stack_analyzer.StackUsage.{CallGraph}
use coretrace_stack_analyzer.StackUsage.Totals.{StackEstimate, estimate_of, graph_nodes}

-- `bestCallee` and `bestStack` after the callees of the list.
unfoldable pub best_callee :
    Assoc StackEstimate → List ℕ → Option (ℕ × StackEstimate) → Option (ℕ × StackEstimate)
best_callee totals [] best = best
best_callee totals (c ∷ cs) none = best_callee totals cs (some (c, estimate_of totals c))
best_callee totals (c ∷ cs) (some (b, most)) = best_callee totals cs (
    if ltb most.bytes (estimate_of totals c).bytes
    then some (c, estimate_of totals c)
    else some (b, most))

module _ (cg : CallGraph) (totals : Assoc StackEstimate) where
  -- The function behind `current`, if the loop goes on.
  unfoldable pub next_function : ℕ → Option ℕ
  unfolding best_callee
  next_function current = elim (lookup cg current) [
    | none ↦ none
    | some cs ↦ elim (best_callee totals cs none) [
      | none ↦ none
      | some (best, stack) ↦ if stack.bytes == 0 then none else some best
    ]
  ]

  unfoldable pub call_path : ℕ → List ℕ → ℕ → Option (List ℕ)
  unfolding next_function
  call_path zero visited current = none
  call_path (suc fuel) visited current =
      if has visited current then some [] else elim (next_function current) [
        | none ↦ some (current ∷ [])
        | some next ↦ elim (call_path fuel (current ∷ visited) next) [
          | none ↦ none
          | some path ↦ some (current ∷ path)
        ]
      ]

-- Each function is visited once.
unfoldable pub max_stack_path : CallGraph → Assoc StackEstimate → ℕ → Option (List ℕ)
unfolding call_path
max_stack_path cg totals f = call_path cg totals (suc (suc (length (graph_nodes cg)))) [] f

-- The names, joined by arrows.
unfoldable pub path_text : (ℕ → Text) → List ℕ → Text → Text
path_text name [] path = path
path_text name (f ∷ fs) [] = path_text name fs (name f)
path_text name (f ∷ fs) (c ∷ path) = path_text name fs ((c ∷ path) ++ codes " -> " ++ name f)

unfoldable pub build_max_stack_call_path :
    (ℕ → Text) → CallGraph → Assoc StackEstimate → ℕ → Option Text
unfolding max_stack_path path_text
build_max_stack_call_path name cg totals f = elim (max_stack_path cg totals f) [
  | none ↦ none
  | some path ↦ some (path_text name path [])
]
