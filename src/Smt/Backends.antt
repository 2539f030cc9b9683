-- ===== src/Smt/Backends.antt =====
-- The backends of src/analysis/smt/SolverOrchestrator.cpp and the choice of one by name.
pub mod Interval
use coretrace_stack_analyzer.Prelude.{
  Bool, true, false, ◌&&◌, ◌||◌, Option, none, some, List, [], ◌∷◌, ◌++◌, if◌then◌else◌,
}
use coretrace_stack_analyzer.Prelude.Int.{ltb_ℤ}
use coretrace_stack_analyzer.Prelude.Text.{Text, codes, text_eq}
use coretrace_stack_analyzer.Smt.Types.{
  IntervalConstraint, SmtQuery, SmtAnswer, SmtStatus, sat, unsat, unknown, to_lower_ascii,
}

-- `ISmtBackend`.
pub record SmtBackend : Type 0 where
  pub name : Text
  pub solve : SmtQuery → SmtAnswer

-- `c.hasLower && c.hasUpper && c.lower > c.upper`.
pub is_contradictory : IntervalConstraint → Bool
is_contradictory c = c.has_lower && c.has_upper && ltb_ℤ c.upper c.lower

pub interval_status : List IntervalConstraint → SmtStatus
unfolding is_contradictory
interval_status [] = sat
interval_status (c ∷ intervals) = if is_contradictory c then unsat else interval_status intervals

unfoldable pub interval_backend : SmtBackend
unfolding interval_status
interval_backend = record {
  name = codes "interval";
  solve = λ query. record {
    backend_name = codes "interval";
    reason = none;
    status = interval_status query.ir.intervals;
  };
}

unfoldable pub unavailable_backend : Text → SmtBackend
unavailable_backend name = record {
  name = name;
  solve = λ query. record {
    backend_name = name;
    reason = some (codes "backend unavailable in this build (optional dependency not linked)");
    status = unknown;
  };
}

-- `z3` is the solver of the Z3 backend if the build links it; that backend is named "z3".
unfoldable pub create_backend : Option (SmtQuery → SmtAnswer) → Text → SmtBackend
unfolding interval_backend unavailable_backend text_eq to_lower_ascii
create_backend z3 name =
    let lowered = to_lower_ascii name in
    if text_eq lowered [] || text_eq lowered (codes "interval")
    then interval_backend
    else if text_eq lowered (codes "z3")
    then elim z3 [
      | none ↦ unavailable_backend (codes "z3")
      | some solver ↦ record { name = codes "z3"; solve = solver }
    ]
    else if text_eq lowered (codes "cvc5")
    then unavailable_backend (codes "cvc5")
    else unavailable_backend name

unfoldable pub has_backend : List SmtBackend → Text → Bool
has_backend [] name = false
has_backend (b ∷ out) name = text_eq b.name name || has_backend out name

unfoldable pub append_backend_if_missing :
    Option (SmtQuery → SmtAnswer) → List SmtBackend → Text → List SmtBackend
unfolding has_backend create_backend
append_backend_if_missing z3 out name =
    let backend = create_backend z3 name in
    if has_backend out backend.name then out else out ++ backend ∷ []
