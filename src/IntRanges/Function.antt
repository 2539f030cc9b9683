-- ===== src/IntRanges/Function.antt =====
-- The map that `computeIntRangesFromICmps` returns, against an assignment of integers to values.
use coretrace_stack_analyzer.Prelude.{
  ℕ, ◌^◌, ◌<◌, ◌≡◌, Bool, true, Option, none, some, List, [], ◌∷◌, ◌==◌, ==_iff, Bool-cases, inl,
  inr, if◌then◌else◌,
}
use coretrace_stack_analyzer.Prelude.Int.{ℤ, pos}
use coretrace_stack_analyzer.IntRanges.{
  Predicate, IntRange, is_signed_group, is_unsigned_group, derive_range, has_bound, IrValue,
  constant_int, cast, other, load, address, Ranges, find_range, apply_constraint, Comparison,
  split_operands, Instruction, icmp, no_icmp, apply_to_value, visit, visit_all,
  compute_int_ranges_from_icmps,
}
use coretrace_stack_analyzer.IntRanges.Sound.{
  SignedHolds, UnsignedHolds, InRange, IsI64, SignedHoldsOf, UnsignedHoldsOf,
  update_for_signed_sound, update_for_unsigned_sound,
}
use coretrace_stack_analyzer.IntRanges.Tighten.{tighten_iff, find_range-apply_constraint}

-- `z` as an unsigned number that `long long` can hold, and the comparison of that number.
abbrev pub UnsignedComparison : Predicate → Bool → ℕ → ℤ → Type 0
UnsignedComparison pred side zext z =
    (v : ℕ) × (z ≡ pos v) × (v < 2 ^ 63) × (zext < 2 ^ 63) × UnsignedHoldsOf pred side v zext

-- The comparison holds of the value `z`. A predicate of the unsigned group is read only where both
-- sides are below 2^63.
abbrev pub HoldsOf : Predicate → Comparison → ℤ → Type 0
HoldsOf pred c z =
    (is_signed_group pred ≡ true
      → IsI64 z × IsI64 c.sext × SignedHoldsOf pred c.value_is_op0 z c.sext)
    × (is_unsigned_group pred ≡ true → UnsignedComparison pred c.value_is_op0 c.zext z)

derive_range_sound :
    (pred : Predicate) (c : Comparison) (z : ℤ)
    → HoldsOf pred c z
    → InRange (derive_range pred c.value_is_op0 c.sext c.zext) z
unfolding derive_range
derive_range_sound pred c z (signed, unsigned) = elim (Bool-cases (is_signed_group pred)) [
  | inl s ↦
      let (zi, ci, h) = signed s in
      rw s (update_for_signed_sound pred c.value_is_op0 z c.sext zi ci h)
  | inr ns ↦ elim (Bool-cases (is_unsigned_group pred)) [
    | inl u ↦
        let (v, e, vi, ci, h) = unsigned u in
        rw (ns, u, e) (update_for_unsigned_sound pred c.value_is_op0 v c.zext vi ci h)
    | inr nu ↦ rw (ns, nu) (tt, tt)
  ]
]

-- A loaded value is what its pointer's address holds.
abbrev pub LoadsAgree : (ℕ → ℤ) → IrValue → Type 0
LoadsAgree env (load a pointer) = env (address pointer) ≡ env a
LoadsAgree env value = Unit

abbrev pub ComparisonHolds : (ℕ → ℤ) → Predicate → Option Comparison → Type 0
ComparisonHolds env pred none = Unit
ComparisonHolds env pred (some c) = HoldsOf pred c (env (address c.value)) × LoadsAgree env c.value

-- The comparison of two operands in their order, where one of them is a constant.
abbrev pub OperandsHold : (ℕ → ℤ) → Predicate → IrValue → IrValue → Type 0
OperandsHold env pred (constant_int _ _ _) (constant_int _ _ _) = Unit
OperandsHold env pred op0 (constant_int _ s z) =
    ((is_signed_group pred ≡ true
        → IsI64 (env (address op0)) × IsI64 s × SignedHolds pred (env (address op0)) s)
      × (is_unsigned_group pred ≡ true
          → (v : ℕ) × (env (address op0) ≡ pos v)
            × (v < 2 ^ 63)
            × (z < 2 ^ 63)
            × UnsignedHolds pred v z))
    × LoadsAgree env op0
OperandsHold env pred (constant_int _ s z) op1 =
    ((is_signed_group pred ≡ true
        → IsI64 (env (address op1)) × IsI64 s × SignedHolds pred s (env (address op1)))
      × (is_unsigned_group pred ≡ true
          → (v : ℕ) × (env (address op1) ≡ pos v)
            × (v < 2 ^ 63)
            × (z < 2 ^ 63)
            × UnsignedHolds pred z v))
    × LoadsAgree env op1
OperandsHold env pred _ _ = Unit

-- Under the assignment of integers to addresses every comparison with a constant holds.
abbrev pub AllHold : (ℕ → ℤ) → List Instruction → Type 0
AllHold env [] = Unit
AllHold env (no_icmp ∷ is) = AllHold env is
AllHold env (icmp pred op0 op1 ∷ is) = OperandsHold env pred op0 op1 × AllHold env is

split_operands-ComparisonHolds :
    (env : ℕ → ℤ) (pred : Predicate) (op0 op1 : IrValue)
    → OperandsHold env pred op0 op1
    → ComparisonHolds env pred (split_operands op0 op1)
unfolding split_operands
split_operands-ComparisonHolds env pred (constant_int _ _ _) (constant_int _ _ _) h = tt
split_operands-ComparisonHolds env pred (constant_int _ _ _) (cast _ _) h = h
split_operands-ComparisonHolds env pred (constant_int _ _ _) (load _ _) h = h
split_operands-ComparisonHolds env pred (constant_int _ _ _) (other _) h = h
split_operands-ComparisonHolds env pred (cast _ _) (constant_int _ _ _) h = h
split_operands-ComparisonHolds env pred (load _ _) (constant_int _ _ _) h = h
split_operands-ComparisonHolds env pred (other _) (constant_int _ _ _) h = h
split_operands-ComparisonHolds env pred (cast _ _) (cast _ _) h = tt
split_operands-ComparisonHolds env pred (cast _ _) (load _ _) h = tt
split_operands-ComparisonHolds env pred (cast _ _) (other _) h = tt
split_operands-ComparisonHolds env pred (load _ _) (cast _ _) h = tt
split_operands-ComparisonHolds env pred (load _ _) (load _ _) h = tt
split_operands-ComparisonHolds env pred (load _ _) (other _) h = tt
split_operands-ComparisonHolds env pred (other _) (cast _ _) h = tt
split_operands-ComparisonHolds env pred (other _) (load _ _) h = tt
split_operands-ComparisonHolds env pred (other _) (other _) h = tt

-- Every range of the map holds the integer that is assigned to its address.
abbrev pub Meets : (ℕ → ℤ) → Ranges → Type 0
Meets env ranges = (key : ℕ) → InRange (find_range ranges key) (env key)

apply_constraint-Meets :
    (env : ℕ → ℤ) (ranges : Ranges) (key : ℕ) (c : IntRange)
    → Meets env ranges
    → InRange c (env key)
    → Meets env (apply_constraint ranges key c)
apply_constraint-Meets env ranges key c m h j = elim (Bool-cases (key == j)) [
  | inl here ↦
      let e : key ≡ j = (==_iff key j).0 here in
      rw (find_range-apply_constraint ranges key c j, here)
        ((tighten_iff (find_range ranges j) c (env j)).1 (m j, rw e at h))
  | inr there ↦ rw (find_range-apply_constraint ranges key c j, there) (m j)
]

apply_to_value-Meets :
    (env : ℕ → ℤ) (ranges : Ranges) (value : IrValue) (c : IntRange)
    → Meets env ranges
    → LoadsAgree env value
    → InRange c (env (address value))
    → Meets env (apply_to_value ranges value c)
unfolding apply_to_value
apply_to_value-Meets env ranges (load a p) c m e h =
    apply_constraint-Meets env _ (address p) c (apply_constraint-Meets env ranges a c m h) (rw e h)
apply_to_value-Meets env ranges value c m e h =
    apply_constraint-Meets env ranges (address value) c m h

visit-Meets :
    (env : ℕ → ℤ) (ranges : Ranges) (i : Instruction) (is : List Instruction)
    → AllHold env (i ∷ is)
    → Meets env ranges
    → Meets env (visit ranges i)
unfolding visit
visit-Meets env ranges no_icmp is h m = m
visit-Meets env ranges (icmp pred op0 op1) is h m =
    go (split_operands op0 op1) (split_operands-ComparisonHolds env pred op0 op1 h.0)
  where
    go :
        (o : Option Comparison)
        → ComparisonHolds env pred o
        → Meets env (elim o [
          | none ↦ ranges
          | some c ↦
              let r = derive_range pred c.value_is_op0 c.sext c.zext in
              if has_bound r then apply_to_value ranges c.value r else ranges
        ])
    go none _ = m
    go (some c) (holds, agree) =
        let r = derive_range pred c.value_is_op0 c.sext c.zext in
        elim (Bool-cases (has_bound r)) [
          | inl bound ↦ rw bound (
              apply_to_value-Meets env ranges c.value r m agree (derive_range_sound pred c _ holds))
          | inr unbound ↦ rw unbound m
        ]

visit_all-Meets :
    (env : ℕ → ℤ) (ranges : Ranges) (is : List Instruction)
    → AllHold env is
    → Meets env ranges
    → Meets env (visit_all ranges is)
unfolding visit_all
visit_all-Meets env ranges [] h m = m
visit_all-Meets env ranges (no_icmp ∷ is) h m =
    visit_all-Meets env (visit ranges no_icmp) is h (visit-Meets env ranges no_icmp is h m)
visit_all-Meets env ranges (icmp p a b ∷ is) h m =
    visit_all-Meets env (visit ranges (icmp p a b)) is h.1
      (visit-Meets env ranges (icmp p a b) is h m)

-- If each comparison of a value with a constant in the function holds under an assignment of
-- integers to addresses, signed predicates and equalities on 64-bit integers and unsigned
-- predicates on numbers below 2^63, and a load has what its pointer holds, then every range of the
-- map contains the integer assigned to its address.
pub compute_int_ranges_from_icmps-Meets :
    (env : ℕ → ℤ) (is : List Instruction)
    → AllHold env is
    → Meets env (compute_int_ranges_from_icmps is)
unfolding compute_int_ranges_from_icmps find_range
compute_int_ranges_from_icmps-Meets env is h = visit_all-Meets env [] is h (λ key. (tt, tt))
