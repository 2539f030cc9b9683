-- ===== src/Samples/Bounds.antt =====
-- Ranges of integers on small functions.
use coretrace_stack_analyzer.Prelude.{
  ℕ, if◌then◌else◌, ◌+◌, ◌^◌, ◌≡◌, ◌↔◌, refl, ◌==◌, true, false, some, List, [], ◌∷◌, arith,
}
use coretrace_stack_analyzer.Prelude.Int.{ℤ, pos}
use coretrace_stack_analyzer.IntRanges.{
  Predicate, icmp_eq, icmp_ne, icmp_ugt, icmp_uge, icmp_ult, icmp_ule, icmp_sgt, icmp_sge, icmp_slt,
  icmp_sle, at_most, at_least, Ranges, update_for_signed, is_signed_group, is_unsigned_group,
  split_operands, derive_range, update_for_unsigned, IrValue, constant_int, load, other,
  Instruction, icmp, no_icmp, find_range, compute_int_ranges_from_icmps,
}
use coretrace_stack_analyzer.IntRanges.Sound.{
  InRange, SignedHoldsOf, update_for_signed_exact, update_for_unsigned_wraps,
}
use coretrace_stack_analyzer.IntRanges.Function.{Meets, compute_int_ranges_from_icmps-Meets}
use coretrace_stack_analyzer.IntRanges.Edge.{apply_constraint_to_state, derive_edge_constraint}
use coretrace_stack_analyzer.IntRanges.Edge.Feasible.{apply_constraint_to_state_lem}
use coretrace_stack_analyzer.IntRanges.Edge.Branch.{IsInverse, derive_edge_constraint_sound}

seven-InRange : InRange (update_for_signed icmp_slt true (pos 10)) (pos 7)
unfolding update_for_signed
seven-InRange = ground arith

update_for_signed_exact_example : SignedHoldsOf icmp_slt true (pos 7) (pos 10)
unfolding is_signed_group
update_for_signed_exact_example =
    update_for_signed_exact icmp_slt true (pos 7) (pos 10) refl (omega arith) (λ h. cc)
      seven-InRange

update_for_unsigned_wraps_example :
    (¬ InRange (update_for_unsigned icmp_ule true (2 ^ 63 + 1)) (pos 7))
    × (¬ InRange (update_for_unsigned icmp_ult true (2 ^ 63 + 1)) (pos 7))
update_for_unsigned_wraps_example =
    update_for_unsigned_wraps 7 (2 ^ 63 + 1) (omega arith) (omega arith)

abbrev ten : IrValue
ten = constant_int 100 (pos 10) 10

-- `x < 10` on a value loaded from `p`, then `10 <= y`.
abbrev body : List Instruction
body = icmp icmp_slt (load 1 (other 2)) ten ∷ no_icmp ∷ icmp icmp_sle ten (other 3) ∷ []

abbrev values : ℕ → ℤ
values key = if key == 3 then pos 12 else pos 7

compute_int_ranges_from_icmps-Meets_example : Meets values (compute_int_ranges_from_icmps body)
unfolding split_operands is_signed_group is_unsigned_group
compute_int_ranges_from_icmps-Meets_example = compute_int_ranges_from_icmps-Meets values body (
  ((λ s. (omega arith, omega arith, omega arith), λ u. absurd (cc)), refl),
  (((λ s. (omega arith, omega arith, omega arith), λ u. absurd (cc)), tt), tt),
)

abbrev inverse : Predicate → Predicate
inverse icmp_eq = icmp_ne
inverse icmp_ne = icmp_eq
inverse icmp_ugt = icmp_ule
inverse icmp_uge = icmp_ult
inverse icmp_ult = icmp_uge
inverse icmp_ule = icmp_ugt
inverse icmp_sgt = icmp_sle
inverse icmp_sge = icmp_slt
inverse icmp_slt = icmp_sge
inverse icmp_sle = icmp_sgt

inverse-IsInverse : IsInverse inverse
inverse-IsInverse = record {
  of_eq = refl;
  of_ne = refl;
  of_slt = refl;
  of_sle = refl;
  of_sgt = refl;
  of_sge = refl;
}

abbrev strip : IrValue → IrValue
strip value = value

-- The edge on which `x < 10` is false.
edge_run :
    derive_edge_constraint strip inverse icmp_slt (load 1 (other 2)) ten false
    ≡ some (other 2, at_least (pos 10))
unfolding derive_edge_constraint split_operands derive_range
edge_run = refl

-- The value at the load is 12 and at every other address 7.
abbrev at_load : ℕ → ℤ
at_load key = if key == 1 then pos 12 else pos 7

derive_edge_constraint_sound_example : InRange (at_least (pos 10)) (pos 12)
unfolding is_signed_group
derive_edge_constraint_sound_example =
    derive_edge_constraint_sound strip inverse at_load icmp_slt (load 1 (other 2)) ten false
      inverse-IsInverse refl (omega arith) (omega arith) (omega arith) edge_run

abbrev ranges : Ranges
ranges = (2, at_most (pos 9)) ∷ (3, at_least (pos 0)) ∷ []

apply_constraint_to_state_lem_example :
    (((apply_constraint_to_state ranges 2 (at_least (pos 10))).1 ≡ true)
      ↔ ((z : ℤ) × (InRange (find_range ranges 2) z × InRange (at_least (pos 10)) z)))
    × ((j : ℕ)
        → (2 == j) ≡ false
        → find_range (apply_constraint_to_state ranges 2 (at_least (pos 10))).0 j
          ≡ find_range ranges j)
apply_constraint_to_state_lem_example = apply_constraint_to_state_lem ranges 2 (at_least (pos 10))
