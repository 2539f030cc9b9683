-- ===== src/IntRanges/Edge/Branch.antt =====
-- The range that an edge of a conditional branch adds is sound.
use coretrace_stack_analyzer.Prelude.{
  ℕ, Option, none, ◌+◌, ℕ_discrete, ◌≡◌, ◌≢◌, Bool, true, false, some, arith, if◌then◌else◌,
  Option-cases, inl, inr,
}
use coretrace_stack_analyzer.Prelude.Int.{ℤ, eq_of_parts, pos_part, neg_part}
use coretrace_stack_analyzer.IntRanges.{
  constant_int, cast, load, other, address, Predicate, icmp_eq, icmp_ne, icmp_sgt, icmp_sge,
  icmp_slt, icmp_sle, IntRange, IrValue, Comparison, split_operands, derive_range, is_signed_group,
  is_unsigned_group,
}
use coretrace_stack_analyzer.IntRanges.Sound.{
  InRange, IsI64, SignedHolds, SignedHoldsOf, update_for_signed_sound,
}
use coretrace_stack_analyzer.IntRanges.Edge.{
  derive_range_constraint_from_predicate, derive_edge_constraint,
}

-- What LLVM documents of `CmpInst::getInversePredicate`: the predicate that holds exactly where
-- the given one does not.
pub record IsInverse (inverse : Predicate → Predicate) : Type 0 where
  pub of_eq : inverse icmp_eq ≡ icmp_ne
  pub of_ne : inverse icmp_ne ≡ icmp_eq
  pub of_slt : inverse icmp_slt ≡ icmp_sge
  pub of_sle : inverse icmp_sle ≡ icmp_sgt
  pub of_sgt : inverse icmp_sgt ≡ icmp_sle
  pub of_sge : inverse icmp_sge ≡ icmp_slt

-- The predicates that compare signed readings, with both equalities.
abbrev pub is_signed_predicate : Predicate → Bool
is_signed_predicate icmp_ne = true
is_signed_predicate pred = is_signed_group pred

-- The branch on `pred` takes this edge for the value `z`.
abbrev pub TakesEdge : Predicate → Bool → ℤ → ℤ → Bool → Type 0
TakesEdge pred value_is_op0 z c true = SignedHoldsOf pred value_is_op0 z c
TakesEdge pred value_is_op0 z c false = ¬ SignedHoldsOf pred value_is_op0 z c

eq_of_not_ne : (a b : ℤ) → ¬ (a ≢ b) → a ≡ b
eq_of_not_ne a b h = elim (ℕ_discrete (pos_part a + neg_part b) (pos_part b + neg_part a)) [
  | yes p ↦ eq_of_parts a b p
  | no q ↦ absurd (h (λ e. q (rw e)))
]

SignedHolds-inverse :
    (inverse : Predicate → Predicate) (pred : Predicate) (a b : ℤ)
    → IsInverse inverse
    → is_signed_predicate pred ≡ true
    → ¬ SignedHolds pred a b
    → SignedHolds (inverse pred) a b
unfolding is_signed_group
SignedHolds-inverse inverse icmp_slt a b v s h = rw (v.of_slt) (omega arith)
SignedHolds-inverse inverse icmp_sle a b v s h = rw (v.of_sle) (omega arith)
SignedHolds-inverse inverse icmp_sgt a b v s h = rw (v.of_sgt) (omega arith)
SignedHolds-inverse inverse icmp_sge a b v s h = rw (v.of_sge) (omega arith)
SignedHolds-inverse inverse icmp_eq a b v s h = rw (v.of_eq) h
SignedHolds-inverse inverse icmp_ne a b v s h = rw (v.of_ne) (eq_of_not_ne a b h)
SignedHolds-inverse inverse pred a b v s h = absurd (cc)

is_signed_predicate-inverse :
    (inverse : Predicate → Predicate) (pred : Predicate)
    → IsInverse inverse
    → is_signed_predicate pred ≡ true
    → is_signed_predicate (inverse pred) ≡ true
unfolding is_signed_group
is_signed_predicate-inverse inverse icmp_slt v s = rw (v.of_slt)
is_signed_predicate-inverse inverse icmp_sle v s = rw (v.of_sle)
is_signed_predicate-inverse inverse icmp_sgt v s = rw (v.of_sgt)
is_signed_predicate-inverse inverse icmp_sge v s = rw (v.of_sge)
is_signed_predicate-inverse inverse icmp_eq v s = rw (v.of_eq)
is_signed_predicate-inverse inverse icmp_ne v s = rw (v.of_ne)
is_signed_predicate-inverse inverse pred v s = absurd (cc)

-- The predicate that holds on the edge.
edge_predicate :
    (inverse : Predicate → Predicate) (pred : Predicate) (side : Bool) (z c : ℤ) (taken : Bool)
    → IsInverse inverse
    → is_signed_predicate pred ≡ true
    → TakesEdge pred side z c taken
    → SignedHoldsOf (if taken then pred else inverse pred) side z c
edge_predicate inverse pred side z c true v s h = h
edge_predicate inverse pred true z c false v s h = SignedHolds-inverse inverse pred z c v s h
edge_predicate inverse pred false z c false v s h = SignedHolds-inverse inverse pred c z v s h

derive_range_of_signed :
    (pred : Predicate) (c : Comparison) (z : ℤ) {r : IntRange}
    → is_signed_predicate pred ≡ true
    → IsI64 z
    → IsI64 c.sext
    → SignedHoldsOf pred c.value_is_op0 z c.sext
    → derive_range_constraint_from_predicate pred c.value_is_op0 c.sext c.zext ≡ some r
    → InRange r z
unfolding derive_range_constraint_from_predicate derive_range is_signed_group is_unsigned_group
derive_range_of_signed icmp_ne c z s n m h e = cc
derive_range_of_signed pred c z s n m h e =
    ground (arith, update_for_signed_sound pred c.value_is_op0 z c.sext n m)

edge_predicate_signed :
    (inverse : Predicate → Predicate) (pred : Predicate) (taken : Bool)
    → IsInverse inverse
    → is_signed_predicate pred ≡ true
    → is_signed_predicate (if taken then pred else inverse pred) ≡ true
edge_predicate_signed inverse pred true v s = s
edge_predicate_signed inverse pred false v s = is_signed_predicate-inverse inverse pred v s

derive_edge_of_comparison :
    (strip : IrValue → IrValue) (inverse : Predicate → Predicate) (pred : Predicate)
    (op0 op1 : IrValue) (taken : Bool) (c : Comparison) (z : ℤ) {key : IrValue} {r : IntRange}
    → IsInverse inverse
    → is_signed_predicate pred ≡ true
    → split_operands op0 op1 ≡ some c
    → IsI64 z
    → IsI64 c.sext
    → TakesEdge pred c.value_is_op0 z c.sext taken
    → derive_edge_constraint strip inverse pred op0 op1 taken ≡ some (key, r)
    → InRange r z
unfolding derive_edge_constraint
derive_edge_of_comparison strip inverse pred op0 op1 taken c z {key} {r} v s split n m h e =
    let p = if taken then pred else inverse pred in
    let e' = rw (split, derive_edge_constraint) at e in
    elim (Option-cases (derive_range_constraint_from_predicate p c.value_is_op0 c.sext c.zext)) [
      | inl nothing ↦ absurd (cc (rw nothing at e'))
      | inr (r', some_r) ↦
          let same : r' ≡ r = cc (rw some_r at e') in
          rw same at (
            derive_range_of_signed p c z (edge_predicate_signed inverse pred taken v s) n m
              (edge_predicate inverse pred c.value_is_op0 z c.sext taken v s h) some_r)
    ]

-- What an operand stands for under an assignment of integers to addresses.
abbrev pub reading : (ℕ → ℤ) → IrValue → ℤ
reading env (constant_int _ s _) = s
reading env value = env (address value)

-- The operand that is compared with a constant: the right one if the left one is a constant.
abbrev pub compared : (ℕ → ℤ) → IrValue → IrValue → ℤ
compared env (constant_int _ _ _) op1 = reading env op1
compared env op0 op1 = reading env op0

-- The branch on the comparison of the two operands, in their order, takes this edge.
abbrev pub BranchTakes : Predicate → ℤ → ℤ → Bool → Type 0
BranchTakes pred a b true = SignedHolds pred a b
BranchTakes pred a b false = ¬ SignedHolds pred a b

module _ (env : ℕ → ℤ) (pred : Predicate) (taken : Bool) where
  abbrev IsReadBy : IrValue → IrValue → Option Comparison → Type 0
  IsReadBy op0 op1 none = Unit
  IsReadBy op0 op1 (some c) =
      (BranchTakes pred (reading env op0) (reading env op1) taken
        → TakesEdge pred c.value_is_op0 (compared env op0 op1) c.sext taken)
      × (IsI64 (reading env op0)
          → IsI64 (reading env op1)
          → IsI64 (compared env op0 op1) × IsI64 c.sext)

  left_of : (z s : ℤ) → BranchTakes pred z s taken → TakesEdge pred true z s taken
  left_of z s = elim taken as (λ t. BranchTakes pred z s t → TakesEdge pred true z s t) [
    | true ↦ λ h. h
    | false ↦ λ h. h
  ]

  right_of : (z s : ℤ) → BranchTakes pred s z taken → TakesEdge pred false z s taken
  right_of z s = elim taken as (λ t. BranchTakes pred s z t → TakesEdge pred false z s t) [
    | true ↦ λ h. h
    | false ↦ λ h. h
  ]

  split_operands-IsReadBy : (op0 op1 : IrValue) → IsReadBy op0 op1 (split_operands op0 op1)
  unfolding split_operands
  split_operands-IsReadBy (constant_int _ _ _) (constant_int _ _ _) = tt
  split_operands-IsReadBy (constant_int _ s _) (cast a _) = (right_of (env a) s, λ p q. (q, p))
  split_operands-IsReadBy (constant_int _ s _) (load a _) = (right_of (env a) s, λ p q. (q, p))
  split_operands-IsReadBy (constant_int _ s _) (other a) = (right_of (env a) s, λ p q. (q, p))
  split_operands-IsReadBy (cast a _) (constant_int _ s _) = (left_of (env a) s, λ p q. (p, q))
  split_operands-IsReadBy (load a _) (constant_int _ s _) = (left_of (env a) s, λ p q. (p, q))
  split_operands-IsReadBy (other a) (constant_int _ s _) = (left_of (env a) s, λ p q. (p, q))
  split_operands-IsReadBy (cast _ _) (cast _ _) = tt
  split_operands-IsReadBy (cast _ _) (load _ _) = tt
  split_operands-IsReadBy (cast _ _) (other _) = tt
  split_operands-IsReadBy (load _ _) (cast _ _) = tt
  split_operands-IsReadBy (load _ _) (load _ _) = tt
  split_operands-IsReadBy (load _ _) (other _) = tt
  split_operands-IsReadBy (other _) (cast _ _) = tt
  split_operands-IsReadBy (other _) (load _ _) = tt
  split_operands-IsReadBy (other _) (other _) = tt

-- Where `inverse` gives the inverse predicates as LLVM documents them: if a branch on a signed
-- comparison or an equality of two 64-bit operands takes an edge, the operand that is compared with
-- a constant meets the range that `deriveEdgeConstraint` returns for this edge.
pub derive_edge_constraint_sound :
    (strip : IrValue → IrValue) (inverse : Predicate → Predicate) (env : ℕ → ℤ) (pred : Predicate)
    (op0 op1 : IrValue) (taken : Bool) {key : IrValue} {r : IntRange}
    → IsInverse inverse
    → is_signed_predicate pred ≡ true
    → IsI64 (reading env op0)
    → IsI64 (reading env op1)
    → BranchTakes pred (reading env op0) (reading env op1) taken
    → derive_edge_constraint strip inverse pred op0 op1 taken ≡ some (key, r)
    → InRange r (compared env op0 op1)
unfolding derive_edge_constraint
derive_edge_constraint_sound strip inverse env pred op0 op1 taken v s n m h e =
    elim (Option-cases (split_operands op0 op1)) [
      | inl nothing ↦ absurd (cc (rw (nothing, derive_edge_constraint) at e))
      | inr (c, some_c) ↦
          let (takes, small) = rw some_c at (split_operands-IsReadBy env pred taken op0 op1) in
          derive_edge_of_comparison strip inverse pred op0 op1 taken c (compared env op0 op1) v s
            some_c (small n m).0 (small n m).1 (takes h) e
    ]
