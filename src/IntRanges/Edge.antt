-- ===== src/IntRanges/Edge.antt =====
-- The path constraints of src/analysis/StackComputation.cpp: the range that an edge of a
-- conditional branch adds, and the test that drops a path whose ranges have become empty.
pub mod Feasible
pub mod Branch
use coretrace_stack_analyzer.Prelude.{
  ℕ, ◌≡◌, refl, ◌↔◌, Bool, true, false, not, ◌&&◌, Option, none, some, List, [], ◌∷◌, arith,
  if◌then◌else◌, ◌==◌, ==_iff, Bool-cases, inl, inr,
}
use coretrace_stack_analyzer.Prelude.Int.{ℤ, ltb_ℤ, ◌≤ℤ◌}
use coretrace_stack_analyzer.IntRanges.{
  Predicate, IntRange, IrValue, constant_int, cast, load, other, address, Comparison,
  split_operands, derive_range, has_bound, Ranges, find_range, apply_constraint,
}
use coretrace_stack_analyzer.IntRanges.Sound.{InRange}

-- `!(hasLower && hasUpper && lower > upper)`.
pub is_not_empty : IntRange → Bool
is_not_empty r = elim r.lower [
  | none ↦ true
  | some l ↦ elim r.upper [ none ↦ true | some u ↦ not (ltb_ℤ u l) ]
]

pub data ConstraintSat : Type 0 where
  sat unsat unknown : ConstraintSat

unfoldable pub evaluate_interval_satisfiability : Ranges → ConstraintSat
unfolding is_not_empty
evaluate_interval_satisfiability [] = sat
evaluate_interval_satisfiability ((k, r) ∷ ranges) =
    if is_not_empty r then evaluate_interval_satisfiability ranges else unsat

-- The flag is false if the range of the key has become empty.
unfoldable pub apply_constraint_to_state : Ranges → ℕ → IntRange → Ranges × Bool
unfolding is_not_empty
apply_constraint_to_state ranges key c =
    let next = apply_constraint ranges key c in (next, is_not_empty (find_range next key))

-- Nothing where the source returns false: the predicate gives no bound.
pub derive_range_constraint_from_predicate : Predicate → Bool → ℤ → ℕ → Option IntRange
derive_range_constraint_from_predicate pred value_is_op0 sext zext =
    let r = derive_range pred value_is_op0 sext zext in if has_bound r then some r else none

-- `strip` is LLVM's `stripPointerCasts`, `inverse` its `getInversePredicate`.
module _ (strip : IrValue → IrValue) (inverse : Predicate → Predicate) where
  stripped_key : IrValue → IrValue
  stripped_key (load a pointer) = strip pointer
  stripped_key value = value

  pub canonical_constraint_value : IrValue → IrValue
  unfolding stripped_key
  canonical_constraint_value (cast a operand) = canonical_constraint_value operand
  canonical_constraint_value value = stripped_key (strip value)

  unfoldable pub derive_edge_constraint :
      Predicate → IrValue → IrValue → Bool → Option (IrValue × IntRange)
  unfolding canonical_constraint_value derive_range_constraint_from_predicate
  derive_edge_constraint pred op0 op1 takes_true_edge = elim (split_operands op0 op1) [
    | none ↦ none
    | some c ↦
        elim (derive_range_constraint_from_predicate
          (if takes_true_edge then pred else inverse pred) c.value_is_op0 c.sext c.zext) [
            | none ↦ none
            | some r ↦ some (canonical_constraint_value c.value, r)
          ]
  ]
