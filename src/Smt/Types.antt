-- ===== src/Smt/Types.antt =====
-- include/analysis/smt/ConstraintIR.hpp, SolverTypes.hpp and TextUtil.hpp. Identifiers and counters
-- are numbers; reserved fields are left out.
use coretrace_stack_analyzer.Prelude.{
  ℕ, ◌+◌, Bool, Option, List, ◌&&◌, map, leb, if◌then◌else◌, ◌≡◌, refl, [], ◌∷◌, arith,
}
use coretrace_stack_analyzer.Prelude.Int.{ℤ}
use coretrace_stack_analyzer.Prelude.Text.{Text}

pub data ExprKind : Type 0 where
  symbol constant ite add sub mul shl lshr ashr eq ne ult ule ugt uge slt sle sgt sge : ExprKind
  and or not zext sext trunc : ExprKind

pub record ExprNode : Type 0 where
  pub kind : ExprKind
  pub symbol_id : ℕ
  pub value : ℤ
  pub bit_width : ℕ
  pub lhs : ℕ
  pub rhs : ℕ
  pub extra : ℕ

pub record IntervalConstraint : Type 0 where
  pub symbol_id : ℕ
  pub lower : ℤ
  pub upper : ℤ
  pub has_lower : Bool
  pub has_upper : Bool

pub record SymbolInfo : Type 0 where
  pub id : ℕ
  pub debug_name : Text
  pub source_token : ℕ

pub record ConstraintIr : Type 0 where
  pub symbols : List SymbolInfo
  pub nodes : List ExprNode
  pub assertions : List ℕ
  pub entry_condition : Option ℕ
  pub intervals : List IntervalConstraint

pub data SolverMode : Type 0 where
  single portfolio cross_check dual_consensus : SolverMode

pub data SmtStatus : Type 0 where
  sat unsat unknown timeout error : SmtStatus

pub record SmtQuery : Type 0 where
  pub ir : ConstraintIr
  pub rule_id : Text
  pub budget_nodes : ℕ
  pub timeout_ms : ℕ

pub record SmtAnswer : Type 0 where
  pub backend_name : Text
  pub reason : Option Text
  pub status : SmtStatus

pub record SmtDecision : Type 0 where
  pub answers : List SmtAnswer
  pub status : SmtStatus

-- `std::tolower` in the C locale.
to_lower : ℕ → ℕ
to_lower c = if leb b'A' c && leb c b'Z' then c + 32 else c

unfoldable pub to_lower_ascii : Text → Text
unfolding to_lower
to_lower_ascii = map to_lower

to_lower_idem : (c : ℕ) → to_lower (to_lower c) ≡ to_lower c
unfolding to_lower
to_lower_idem c = ground arith

pub to_lower_ascii_idem : (s : Text) → to_lower_ascii (to_lower_ascii s) ≡ to_lower_ascii s
unfolding to_lower_ascii
to_lower_ascii_idem [] = refl
to_lower_ascii_idem (c ∷ s) = unfold to_lower_ascii in cc (to_lower_idem c, to_lower_ascii_idem s)
