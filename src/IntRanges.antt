-- ===== src/IntRanges.antt =====
-- src/analysis/IntRanges.cpp, and the copy of its case analysis in src/analysis/StackComputation.cpp
-- (`deriveRangeConstraintFromPredicate`): integer ranges read off comparisons with constants.
-- An LLVM constant is given by its two readings, `getSExtValue` and `getZExtValue`; a `long long`
-- is an integer, and `c - 1` and `c + 1` wrap at 64 bits.
pub mod Sound
pub mod Tighten
pub mod Function
pub mod Edge
use coretrace_stack_analyzer.Prelude.{
  ℕ, ◌+◌, ◌-◌, ◌%◌, ◌^◌, Bool, true, false, not, ◌&&◌, ◌||◌, Option, none, some, List, [], ◌∷◌, ltb,
  ◌==◌, if◌then◌else◌,
}
use coretrace_stack_analyzer.Prelude.Int.{ℤ, pos, negsuc, ltb_ℤ}

-- The predicates of `llvm::CmpInst` that a comparison of integers can have.
pub data Predicate : Type 0 where
  icmp_eq icmp_ne icmp_ugt icmp_uge icmp_ult icmp_ule icmp_sgt icmp_sge icmp_slt icmp_sle :
      Predicate

-- A bound of `none` stands for a flag that is false.
pub record IntRange : Type 0 where
  pub lower : Option ℤ
  pub upper : Option ℤ

abbrev pub no_bounds : IntRange
no_bounds = record { lower = none; upper = none }

abbrev pub at_most : ℤ → IntRange
at_most c = record { lower = none; upper = some c }

abbrev pub at_least : ℤ → IntRange
at_least c = record { lower = some c; upper = none }

abbrev pub exactly : ℤ → IntRange
exactly c = record { lower = some c; upper = some c }

-- `static_cast<long long>` of a 64-bit pattern.
pub to_i64 : ℕ → ℤ
to_i64 w = if ltb w (2 ^ 63) then pos w else negsuc (2 ^ 64 - w - 1)

-- `c - 1` and `c + 1` on `long long`.
pub pred_i64 : ℤ → ℤ
pred_i64 (pos n) = if n == 0 then negsuc 0 else pos (n - 1)
pred_i64 (negsuc n) = if n == 2 ^ 63 - 1 then pos (2 ^ 63 - 1) else negsuc (n + 1)

pub suc_i64 : ℤ → ℤ
suc_i64 (pos n) = if n == 2 ^ 63 - 1 then negsuc (2 ^ 63 - 1) else pos (n + 1)
suc_i64 (negsuc n) = if n == 0 then pos 0 else negsuc (n - 1)

unfoldable pub update_for_signed : Predicate → Bool → ℤ → IntRange
unfolding pred_i64 suc_i64
update_for_signed icmp_slt true c = at_most (pred_i64 c)
update_for_signed icmp_sle true c = at_most c
update_for_signed icmp_sgt true c = at_least (suc_i64 c)
update_for_signed icmp_sge true c = at_least c
update_for_signed icmp_eq true c = exactly c
update_for_signed icmp_sgt false c = at_most (pred_i64 c)
update_for_signed icmp_sge false c = at_most c
update_for_signed icmp_slt false c = at_least (suc_i64 c)
update_for_signed icmp_sle false c = at_least c
update_for_signed icmp_eq false c = exactly c
update_for_signed _ _ c = no_bounds

pub update_for_unsigned : Predicate → Bool → ℕ → IntRange
unfolding pred_i64 suc_i64 to_i64
update_for_unsigned icmp_ult true cu = at_most (pred_i64 (to_i64 cu))
update_for_unsigned icmp_ule true cu = at_most (to_i64 cu)
update_for_unsigned icmp_ugt true cu = at_least (suc_i64 (to_i64 cu))
update_for_unsigned icmp_uge true cu = at_least (to_i64 cu)
update_for_unsigned icmp_eq true cu = exactly (to_i64 cu)
update_for_unsigned icmp_ugt false cu = at_most (pred_i64 (to_i64 cu))
update_for_unsigned icmp_uge false cu = at_most (to_i64 cu)
update_for_unsigned icmp_ult false cu = at_least (suc_i64 (to_i64 cu))
update_for_unsigned icmp_ule false cu = at_least (to_i64 cu)
update_for_unsigned icmp_eq false cu = exactly (to_i64 cu)
update_for_unsigned _ _ cu = no_bounds

-- The predicates that are read with `getSExtValue`, and those read with `getZExtValue`.
unfoldable pub is_signed_group : Predicate → Bool
is_signed_group icmp_slt = true
is_signed_group icmp_sle = true
is_signed_group icmp_sgt = true
is_signed_group icmp_sge = true
is_signed_group icmp_eq = true
is_signed_group _ = false

unfoldable pub is_unsigned_group : Predicate → Bool
is_unsigned_group icmp_ult = true
is_unsigned_group icmp_ule = true
is_unsigned_group icmp_ugt = true
is_unsigned_group icmp_uge = true
is_unsigned_group _ = false

-- The bounds of one comparison; `value_is_op0` tells on which side the constant stands.
unfoldable pub derive_range : Predicate → Bool → ℤ → ℕ → IntRange
unfolding update_for_signed update_for_unsigned is_signed_group is_unsigned_group
derive_range pred value_is_op0 sext zext =
    if is_signed_group pred
    then update_for_signed pred value_is_op0 sext
    else if is_unsigned_group pred
    then update_for_unsigned pred value_is_op0 zext
    else no_bounds

abbrev pub has_bound : IntRange → Bool
has_bound r = elim r.lower [ some _ ↦ true | none ↦ elim r.upper [ some _ ↦ true | none ↦ false ] ]

-- A new lower bound replaces the old one if there is none or if it is greater.
tighten_lower : Option ℤ → Option ℤ → Option ℤ
tighten_lower cur none = cur
tighten_lower none (some c) = some c
tighten_lower (some cur) (some c) = if ltb_ℤ cur c then some c else some cur

tighten_upper : Option ℤ → Option ℤ → Option ℤ
tighten_upper cur none = cur
tighten_upper none (some c) = some c
tighten_upper (some cur) (some c) = if ltb_ℤ c cur then some c else some cur

unfoldable pub tighten : IntRange → IntRange → IntRange
unfolding tighten_lower tighten_upper
tighten cur c = record {
  lower = tighten_lower cur.lower c.lower;
  upper = tighten_upper cur.upper c.upper;
}

-- LLVM values, each with its address: integer constants with their signed and unsigned readings,
-- casts, loads, and the rest.
pub data IrValue : Type 0 where
  constant_int : ℕ → ℤ → ℕ → IrValue
  cast : ℕ → IrValue → IrValue
  load : ℕ → IrValue → IrValue
  other : ℕ → IrValue

abbrev pub address : IrValue → ℕ
address (constant_int a _ _) = a
address (cast a _) = a
address (load a _) = a
address (other a) = a

-- `std::map<const Value*, IntRange>`; its order is not used.
abbrev pub Ranges : Type 0
Ranges = List (ℕ × IntRange)

unfoldable pub find_range : Ranges → ℕ → IntRange
find_range [] key = no_bounds
find_range ((k, r) ∷ ranges) key = if k == key then r else find_range ranges key

-- `ranges[V]`, which comes into being without bounds, tightened.
unfoldable pub apply_constraint : Ranges → ℕ → IntRange → Ranges
unfolding tighten
apply_constraint [] key c = (key, tighten no_bounds c) ∷ []
apply_constraint ((k, r) ∷ ranges) key c =
    if k == key then (k, tighten r c) ∷ ranges else (k, r) ∷ apply_constraint ranges key c

-- The value that is compared with a constant, the side on which it stands, and the readings of the
-- constant; nothing if both operands are constants or neither is.
pub record Comparison : Type 0 where
  pub value : IrValue
  pub value_is_op0 : Bool
  pub sext : ℤ
  pub zext : ℕ

unfoldable pub split_operands : IrValue → IrValue → Option Comparison
split_operands (constant_int _ _ _) (constant_int _ _ _) = none
split_operands op0 (constant_int _ s z) =
    some (record { value = op0; value_is_op0 = true; sext = s; zext = z })
split_operands (constant_int _ s z) op1 =
    some (record { value = op1; value_is_op0 = false; sext = s; zext = z })
split_operands _ _ = none

pub data Instruction : Type 0 where
  icmp : Predicate → IrValue → IrValue → Instruction
  no_icmp : Instruction

-- The constraint goes to the value and, if that is a load, to the pointer that is loaded from.
apply_to_value : Ranges → IrValue → IntRange → Ranges
unfolding apply_constraint
apply_to_value ranges (load a pointer) c =
    apply_constraint (apply_constraint ranges a c) (address pointer) c
apply_to_value ranges value c = apply_constraint ranges (address value) c

-- One round of the loop over the instructions of a function.
visit : Ranges → Instruction → Ranges
unfolding apply_to_value split_operands derive_range
visit ranges no_icmp = ranges
visit ranges (icmp pred op0 op1) = elim (split_operands op0 op1) [
  | none ↦ ranges
  | some c ↦
      let r = derive_range pred c.value_is_op0 c.sext c.zext in
      if has_bound r then apply_to_value ranges c.value r else ranges
]

visit_all : Ranges → List Instruction → Ranges
unfolding visit
visit_all ranges [] = ranges
visit_all ranges (i ∷ instructions) = visit_all (visit ranges i) instructions

pub compute_int_ranges_from_icmps : List Instruction → Ranges
unfolding visit_all
compute_int_ranges_from_icmps instructions = visit_all [] instructions
