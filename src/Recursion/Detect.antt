-- ===== src/Recursion/Detect.antt =====
-- `detectInfiniteRecursionByDominance`, `detectInfiniteSelfRecursion` and
-- `detectInfiniteRecursionComponent`. `dominates` is the dominator tree that LLVM builds for a
-- function, `encode` what `LlvmConstraintEncoder::encode` gives for a function's edge, any function.
pub mod Dominance
pub mod Agree
pub mod Component
use coretrace_stack_analyzer.Prelude.{
  ℕ, suc, Bool, true, false, not, ◌&&◌, ◌||◌, Option, none, some, List, [], ◌∷◌, ◌==◌,
  if◌then◌else◌,
}
use coretrace_stack_analyzer.IntRanges.{Predicate, IrValue, Ranges}
use coretrace_stack_analyzer.Smt.Types.{ConstraintIr, SmtQuery, SmtAnswer}
use coretrace_stack_analyzer.Smt.Evaluator.{AnalysisConfig, is_satisfiable}
use coretrace_stack_analyzer.Ir.{BlockInstruction, call, return, Condition, Block, Function}
use coretrace_stack_analyzer.Recursion.{
  NonRecursiveReturnFeasibility, exists, does_not_exist, inconclusive,
  has_feasible_non_recursive_return_path,
}

unfoldable pub has_recursive_call : (ℕ → Bool) → List BlockInstruction → Bool
has_recursive_call is_recursive [] = false
has_recursive_call is_recursive (call (some callee) ∷ is) =
    is_recursive callee.target || has_recursive_call is_recursive is
has_recursive_call is_recursive (_ ∷ is) = has_recursive_call is_recursive is

unfoldable pub has_return : List BlockInstruction → Bool
has_return [] = false
has_return (return ∷ is) = true
has_return (_ ∷ is) = has_return is

-- The blocks from place `b` on that call a recursive callee.
unfoldable pub recursive_call_blocks : (ℕ → Bool) → ℕ → List Block → List ℕ
unfolding has_recursive_call
recursive_call_blocks is_recursive b [] = []
recursive_call_blocks is_recursive b (bb ∷ blocks) =
    let rest = recursive_call_blocks is_recursive (suc b) blocks in
    if has_recursive_call is_recursive bb.instructions then b ∷ rest else rest

unfoldable pub is_dominated : (ℕ → ℕ → Bool) → List ℕ → ℕ → Bool
is_dominated dominates [] b = false
is_dominated dominates (rcb ∷ rcbs) b = dominates rcb b || is_dominated dominates rcbs b

-- The loop over the return instructions.
unfoldable pub returns_are_dominated : (ℕ → ℕ → Bool) → List ℕ → ℕ → List Block → Bool
unfolding has_return is_dominated
returns_are_dominated dominates rcbs b [] = true
returns_are_dominated dominates rcbs b (bb ∷ blocks) =
    let rest = returns_are_dominated dominates rcbs (suc b) blocks in
    if has_return bb.instructions && not (is_dominated dominates rcbs b) then false else rest

unfoldable pub detect_infinite_recursion_by_dominance :
    (ℕ → ℕ → Bool) → (ℕ → Bool) → List Block → Bool
unfolding recursive_call_blocks returns_are_dominated
detect_infinite_recursion_by_dominance dominates is_recursive blocks =
    elim (recursive_call_blocks is_recursive 0 blocks) [
      | [] ↦ false
      | rcb ∷ rcbs ↦ returns_are_dominated dominates (rcb ∷ rcbs) 0 blocks
    ]

-- `==` on the outcomes of the search.
pub feasibility_eq : NonRecursiveReturnFeasibility → NonRecursiveReturnFeasibility → Bool
feasibility_eq exists exists = true
feasibility_eq does_not_exist does_not_exist = true
feasibility_eq inconclusive inconclusive = true
feasibility_eq _ _ = false

unfoldable pub has_address : List Function → ℕ → Bool
has_address [] a = false
has_address (f ∷ fs) a = f.address == a || has_address fs a

module _ (strip : IrValue → IrValue) (inverse : Predicate → Predicate)
    (dominates : Function → ℕ → ℕ → Bool)
    (encode : Function → Ranges → Condition → Bool → ℕ → Option ℕ → ConstraintIr)
    (z3 : Option (SmtQuery → SmtAnswer)) (config : AnalysisConfig) where
  unfoldable pub detect_infinite_self_recursion : Function → Option Bool
  unfolding detect_infinite_recursion_by_dominance has_feasible_non_recursive_return_path
      is_satisfiable feasibility_eq
  detect_infinite_self_recursion f =
      if f.is_declaration
      then some false
      else if f.no_recurse
      then some false
      else if detect_infinite_recursion_by_dominance (dominates f) (λ callee. callee == f.address)
          f.blocks
      then some true
      else elim (has_feasible_non_recursive_return_path strip inverse
          (λ ranges condition takes_true_edge block incoming.
            is_satisfiable z3 config ranges
              (encode f ranges condition takes_true_edge block incoming))
          (λ callee. callee == f.address) f.blocks) [
            | none ↦ none
            | some feasibility ↦ some (feasibility_eq feasibility does_not_exist)
          ]

  -- `hasNoBaseCase` of a member of the component.
  unfoldable pub has_no_base_case : (ℕ → Bool) → Function → Option Bool
  unfolding detect_infinite_recursion_by_dominance has_feasible_non_recursive_return_path
      is_satisfiable feasibility_eq
  has_no_base_case is_recursive f =
      let by_dom = detect_infinite_recursion_by_dominance (dominates f) is_recursive f.blocks in
      if not by_dom
      then elim (has_feasible_non_recursive_return_path strip inverse
          (λ ranges condition takes_true_edge block incoming.
            is_satisfiable z3 config ranges
              (encode f ranges condition takes_true_edge block incoming))
          is_recursive f.blocks) [
            | none ↦ none
            | some feasibility ↦ some (feasibility_eq feasibility does_not_exist)
          ]
      else some by_dom

  -- The loop over the members of the component.
  unfoldable pub members_have_no_base_case : (ℕ → Bool) → List Function → Option Bool
  unfolding has_no_base_case
  members_have_no_base_case is_recursive [] = some true
  members_have_no_base_case is_recursive (f ∷ fs) =
      let rest = members_have_no_base_case is_recursive fs in
      if f.is_declaration
      then some false
      else if f.no_recurse
      then some false
      else elim (has_no_base_case is_recursive f) [
        | none ↦ none
        | some false ↦ some false
        | some true ↦ rest
      ]

  unfoldable pub detect_infinite_recursion_component : List Function → Option Bool
  unfolding members_have_no_base_case has_address
  detect_infinite_recursion_component [] = some false
  detect_infinite_recursion_component (f ∷ fs) =
      members_have_no_base_case (has_address (f ∷ fs)) (f ∷ fs)
