-- ===== src/IntRanges/Sound.antt =====
-- The bounds that a comparison yields against the meaning of the comparison.
use coretrace_stack_analyzer.Prelude.{
  ℕ, ◌+◌, ◌-◌, ◌^◌, ◌≤◌, ◌<◌, ◌≡◌, Bool, true, false, Option, none, some, arith, ◌≢◌,
}
use coretrace_stack_analyzer.Prelude.Int.{ℤ, pos, negsuc, pos_part, neg_part, ◌≤ℤ◌, eq_of_parts}
use coretrace_stack_analyzer.IntRanges.{
  Predicate, icmp_eq, icmp_ne, icmp_ugt, icmp_uge, icmp_ult, icmp_ule, icmp_sgt, icmp_sge, icmp_slt,
  icmp_sle, IntRange, pred_i64, suc_i64, update_for_signed, update_for_unsigned, is_signed_group,
}

abbrev pub AboveLower : Option ℤ → ℤ → Type 0
AboveLower none z = Unit
AboveLower (some c) z = c ≤ℤ z

abbrev pub BelowUpper : Option ℤ → ℤ → Type 0
BelowUpper none z = Unit
BelowUpper (some c) z = z ≤ℤ c

-- `z` meets the bounds of the range.
abbrev pub InRange : IntRange → ℤ → Type 0
InRange r z = AboveLower r.lower z × BelowUpper r.upper z

abbrev pub i64_min : ℤ
i64_min = negsuc (2 ^ 63 - 1)

abbrev pub i64_max : ℤ
i64_max = pos (2 ^ 63 - 1)

infix 50 ◌<ℤ◌
abbrev pub ◌<ℤ◌ : ℤ → ℤ → Type 0
a <ℤ b = pos_part a + neg_part b < pos_part b + neg_part a

abbrev pub IsI64 : ℤ → Type 0
IsI64 z = (i64_min ≤ℤ z) × (z ≤ℤ i64_max)

-- What the signed predicates and equality say of two integers, in the order of the operands.
abbrev pub SignedHolds : Predicate → ℤ → ℤ → Type 0
SignedHolds icmp_slt a b = a <ℤ b
SignedHolds icmp_sle a b = a ≤ℤ b
SignedHolds icmp_sgt a b = b <ℤ a
SignedHolds icmp_sge a b = b ≤ℤ a
SignedHolds icmp_eq a b = a ≡ b
SignedHolds icmp_ne a b = a ≢ b
SignedHolds _ a b = Unit

-- The comparison with the value on the side that the flag gives.
abbrev pub SignedHoldsOf : Predicate → Bool → ℤ → ℤ → Type 0
SignedHoldsOf pred true v c = SignedHolds pred v c
SignedHoldsOf pred false v c = SignedHolds pred c v

pred_i64_sound : (v c : ℤ) → IsI64 c → i64_min ≤ℤ v → v <ℤ c → v ≤ℤ pred_i64 c
unfolding pred_i64
pred_i64_sound v c n m h = ground arith

suc_i64_sound : (v c : ℤ) → IsI64 c → v ≤ℤ i64_max → c <ℤ v → suc_i64 c ≤ℤ v
unfolding suc_i64
suc_i64_sound v c n m h = ground arith

-- A signed comparison, or an equality, of a 64-bit value with a 64-bit constant that holds puts the
-- value into the range read off it, on whichever side the constant stands.
pub update_for_signed_sound :
    (pred : Predicate) (value_is_op0 : Bool) (v c : ℤ)
    → IsI64 v
    → IsI64 c
    → SignedHoldsOf pred value_is_op0 v c
    → InRange (update_for_signed pred value_is_op0 c) v
unfolding update_for_signed
update_for_signed_sound icmp_slt true v c n m h = (tt, pred_i64_sound v c m n.0 h)
update_for_signed_sound icmp_sgt true v c n m h = (suc_i64_sound v c m n.1 h, tt)
update_for_signed_sound icmp_sgt false v c n m h = (tt, pred_i64_sound v c m n.0 h)
update_for_signed_sound icmp_slt false v c n m h = (suc_i64_sound v c m n.1 h, tt)
update_for_signed_sound icmp_eq true v c n m h = ground arith
update_for_signed_sound icmp_eq false v c n m h = ground arith
update_for_signed_sound pred true v c n m h = ground arith
update_for_signed_sound pred false v c n m h = ground arith

-- The step from a strict bound leaves `long long`: there the source computes `c - 1` or `c + 1`
-- past the end of the type.
abbrev pub StepsPastEnd : Predicate → Bool → ℤ → Type 0
StepsPastEnd icmp_slt true c = c ≡ i64_min
StepsPastEnd icmp_sgt true c = c ≡ i64_max
StepsPastEnd icmp_sgt false c = c ≡ i64_min
StepsPastEnd icmp_slt false c = c ≡ i64_max
StepsPastEnd pred value_is_op0 c = ⊥

pred_i64_exact : (v c : ℤ) → IsI64 c → c ≢ i64_min → v ≤ℤ pred_i64 c → v <ℤ c
unfolding pred_i64
pred_i64_exact v c n m h = ground arith

suc_i64_exact : (v c : ℤ) → IsI64 c → c ≢ i64_max → suc_i64 c ≤ℤ v → c <ℤ v
unfolding suc_i64
suc_i64_exact v c n m h = ground arith

-- The range says no more than the comparison: for a predicate of the signed group and a 64-bit
-- constant at which no bound steps past the end of the type, a value in the range satisfies the
-- comparison.
pub update_for_signed_exact :
    (pred : Predicate) (value_is_op0 : Bool) (v c : ℤ)
    → is_signed_group pred ≡ true
    → IsI64 c
    → ¬ StepsPastEnd pred value_is_op0 c
    → InRange (update_for_signed pred value_is_op0 c) v
    → SignedHoldsOf pred value_is_op0 v c
unfolding update_for_signed is_signed_group
update_for_signed_exact icmp_slt true v c s n m h = pred_i64_exact v c n m h.1
update_for_signed_exact icmp_sgt true v c s n m h = suc_i64_exact v c n m h.0
update_for_signed_exact icmp_sgt false v c s n m h = pred_i64_exact v c n m h.1
update_for_signed_exact icmp_slt false v c s n m h = suc_i64_exact v c n m h.0
update_for_signed_exact icmp_eq true v c s n m h = eq_of_parts v c (omega arith)
update_for_signed_exact icmp_eq false v c s n m h = eq_of_parts c v (omega arith)
update_for_signed_exact icmp_sle true v c s n m h = h.1
update_for_signed_exact icmp_sge true v c s n m h = h.0
update_for_signed_exact icmp_sge false v c s n m h = h.1
update_for_signed_exact icmp_sle false v c s n m h = h.0
update_for_signed_exact icmp_ne _ v c s n m h = absurd (cc)
update_for_signed_exact icmp_ugt _ v c s n m h = absurd (cc)
update_for_signed_exact icmp_uge _ v c s n m h = absurd (cc)
update_for_signed_exact icmp_ult _ v c s n m h = absurd (cc)
update_for_signed_exact icmp_ule _ v c s n m h = absurd (cc)

-- What the unsigned predicates say of two unsigned readings.
abbrev pub UnsignedHolds : Predicate → ℕ → ℕ → Type 0
UnsignedHolds icmp_ult a b = a < b
UnsignedHolds icmp_ule a b = a ≤ b
UnsignedHolds icmp_ugt a b = b < a
UnsignedHolds icmp_uge a b = b ≤ a
UnsignedHolds icmp_eq a b = a ≡ b
UnsignedHolds _ a b = Unit

abbrev pub UnsignedHoldsOf : Predicate → Bool → ℕ → ℕ → Type 0
UnsignedHoldsOf pred true v c = UnsignedHolds pred v c
UnsignedHoldsOf pred false v c = UnsignedHolds pred c v

-- An unsigned comparison, or an equality, with a constant below 2^63 that holds puts the unsigned
-- reading of a value below 2^63 into the range read off it.
pub update_for_unsigned_sound :
    (pred : Predicate) (value_is_op0 : Bool) (v c : ℕ)
    → v < 2 ^ 63
    → c < 2 ^ 63
    → UnsignedHoldsOf pred value_is_op0 v c
    → InRange (update_for_unsigned pred value_is_op0 c) (pos v)
unfolding update_for_unsigned
update_for_unsigned_sound icmp_ult true v c n m h = ground arith
update_for_unsigned_sound icmp_ult false v c n m h = ground arith
update_for_unsigned_sound pred true v c n m h = ground arith
update_for_unsigned_sound pred false v c n m h = ground arith

-- For a constant above 2^63, and below 2^64, no unsigned value is in the range that `v <= c`
-- yields, and none in the range that `v < c` yields.
pub update_for_unsigned_wraps :
    (v c : ℕ)
    → 2 ^ 63 < c
    → c < 2 ^ 64
    → (¬ InRange (update_for_unsigned icmp_ule true c) (pos v))
      × (¬ InRange (update_for_unsigned icmp_ult true c) (pos v))
unfolding update_for_unsigned
update_for_unsigned_wraps v c n m = (λ h. ground arith, λ h. ground arith)
