-- ===== src/Smt/Orchestrator/Aggregate.antt =====
-- The status that the answers add up to.
use mathlib.Core.List.{Memᴰ}
use mathlib.Core.List.Memᴰ
use coretrace_stack_analyzer.Prelude.{
  sym, ap, subst, ◌∙◌, ◌≡◌, ◌≢◌, refl, ◌↔◌, inl, inr, true, false, List, [], ◌∷◌, arith, Bool-cases,
}
use coretrace_stack_analyzer.Smt.Types.{
  SolverMode, dual_consensus, SmtStatus, sat, unsat, unknown, timeout, error, SmtAnswer,
}
use coretrace_stack_analyzer.Smt.Orchestrator.{
  status_eq, saw, all_unsat, aggregate_consensus, aggregate_any, aggregate_statuses,
}

abbrev pub All {ℓ} : {A : Type ℓ} → (A → Type 0) → List A → Type 0
All P [] = Unit
All P (x ∷ xs) = P x × All P xs

status_eq_sound : (s t : SmtStatus) → status_eq s t ≡ true → s ≡ t
unfolding status_eq
status_eq_sound sat sat h = refl
status_eq_sound unsat unsat h = refl
status_eq_sound unknown unknown h = refl
status_eq_sound timeout timeout h = refl
status_eq_sound error error h = refl
status_eq_sound s t h = absurd (cc)

-- One answer that says Unsat is enough for what each such answer entails.
saw_unsat_entails :
    (G : Type 0) (answers : List SmtAnswer)
    → All (λ a. a.status ≡ unsat → G) answers
    → saw unsat answers ≡ true
    → G
unfolding saw
saw_unsat_entails G [] all h = absurd (cc)
saw_unsat_entails G (a ∷ answers) all h = elim (Bool-cases (status_eq a.status unsat)) [
  | inl here ↦ all.0 (status_eq_sound a.status unsat here)
  | inr there ↦ saw_unsat_entails G answers all.1 (rw there at h)
]

-- In every mode the aggregated status is Unsat only if one answer says so.
pub aggregate_statuses_entails :
    (G : Type 0) (answers : List SmtAnswer) (mode : SolverMode)
    → All (λ a. a.status ≡ unsat → G) answers
    → aggregate_statuses answers mode ≡ unsat
    → G
unfolding aggregate_statuses aggregate_consensus aggregate_any
aggregate_statuses_entails G [] mode all h = absurd (cc)
aggregate_statuses_entails G (a ∷ answers) dual_consensus all h =
    saw_unsat_entails G (a ∷ answers) all (unfold all_unsat saw in ground arith)
aggregate_statuses_entails G (a ∷ answers) mode all h =
    saw_unsat_entails G (a ∷ answers) all (ground arith)

-- Where all answers are Unsat, and there is one, none is Sat.
all_unsat-saw : (answers : List SmtAnswer) → all_unsat answers ≡ true → saw sat answers ≡ false
unfolding all_unsat saw status_eq
all_unsat-saw [] h = refl
all_unsat-saw (a ∷ answers) h = ground (arith, all_unsat-saw answers)

-- Some answer has the status.
abbrev pub Given : SmtStatus → List SmtAnswer → Type 0
Given status answers = (a : SmtAnswer) × Memᴰ a answers × (a.status ≡ status)

status_eq_self : (s : SmtStatus) → status_eq s s ≡ true
unfolding status_eq
status_eq_self sat = refl
status_eq_self unsat = refl
status_eq_self unknown = refl
status_eq_self timeout = refl
status_eq_self error = refl

saw-Given :
    (status : SmtStatus) (answers : List SmtAnswer)
    → saw status answers ≡ true
    → Given status answers
unfolding saw
saw-Given status [] h = absurd (cc)
saw-Given status (a ∷ answers) h = elim (Bool-cases (status_eq a.status status)) [
  | inl here ↦ (a, Memᴰ.head refl, status_eq_sound a.status status here)
  | inr other ↦
      let (b, m, e) = saw-Given status answers (rw (saw, other) at h) in (b, Memᴰ.tail m, e)
]

Given-saw :
    (status : SmtStatus) (answers : List SmtAnswer) (a : SmtAnswer)
    → Memᴰ a answers
    → a.status ≡ status
    → saw status answers ≡ true
unfolding saw
Given-saw status [] a m e = absurd (Memᴰ.not-nil m)
Given-saw status (b ∷ answers) a m e = elim (Memᴰ.cases_cons m) [
  | inl same ↦
      let here : status_eq b.status status ≡ true =
        subst (λ s. status_eq s status ≡ true) (sym (ap (λ c. c.status) (sym same) ∙ e))
          (status_eq_self status) in
      ground arith
  | inr later ↦ ground (arith, Given-saw status answers a later e)
]

all_unsat-every :
    (answers : List SmtAnswer)
    → all_unsat answers ≡ true
    → (a : SmtAnswer) → Memᴰ a answers
    → a.status ≡ unsat
unfolding all_unsat
all_unsat-every [] h a m = absurd (Memᴰ.not-nil m)
all_unsat-every (b ∷ answers) h a m = elim (Memᴰ.cases_cons m) [
  | inl same ↦ ap (λ c. c.status) same ∙ status_eq_sound b.status unsat (ground arith)
  | inr later ↦ all_unsat-every answers (ground arith) a later
]

every-all_unsat :
    (answers : List SmtAnswer)
    → ((a : SmtAnswer) → Memᴰ a answers → a.status ≡ unsat)
    → all_unsat answers ≡ true
unfolding all_unsat
every-all_unsat [] h = refl
every-all_unsat (b ∷ answers) h =
    let here : status_eq b.status unsat ≡ true =
      subst (λ s. status_eq s unsat ≡ true) (sym (h b (Memᴰ.head refl))) (status_eq_self unsat) in
    let rest = every-all_unsat answers (λ a m. h a (Memᴰ.tail m)) in ground arith

consensus_tests :
    (a : SmtAnswer) (answers : List SmtAnswer)
    → ((aggregate_statuses (a ∷ answers) dual_consensus ≡ sat) ↔ (saw sat (a ∷ answers) ≡ true))
      × ((aggregate_statuses (a ∷ answers) dual_consensus ≡ unsat)
          ↔ (all_unsat (a ∷ answers) ≡ true))
unfolding aggregate_statuses aggregate_consensus
consensus_tests a answers = (ground arith, ground (arith, all_unsat-saw (a ∷ answers)))

-- In the mode DualConsensus, over at least one answer, the status is Sat exactly if one of the answers
-- is Sat, also where another is Unsat, and Unsat exactly if every answer is Unsat.
pub aggregate_consensus_iff :
    (a : SmtAnswer) (answers : List SmtAnswer)
    → ((aggregate_statuses (a ∷ answers) dual_consensus ≡ sat) ↔ Given sat (a ∷ answers))
      × ((aggregate_statuses (a ∷ answers) dual_consensus ≡ unsat)
          ↔ ((b : SmtAnswer) → Memᴰ b (a ∷ answers) → b.status ≡ unsat))
aggregate_consensus_iff a answers =
    let (some_sat, every_unsat) = consensus_tests a answers in
    (
      (
        λ e. saw-Given sat (a ∷ answers) (some_sat.0 e),
        λ (b, m, e). some_sat.1 (Given-saw sat (a ∷ answers) b m e),
      ),
      (
        λ e. all_unsat-every (a ∷ answers) (every_unsat.0 e),
        λ h. every_unsat.1 (every-all_unsat (a ∷ answers) h),
      ),
    )

any_iff :
    (answers : List SmtAnswer)
    → ((aggregate_any answers ≡ sat) ↔ ((saw sat answers ≡ true) × (saw unsat answers ≡ false)))
      × ((aggregate_any answers ≡ unsat) ↔ ((saw unsat answers ≡ true) × (saw sat answers ≡ false)))
unfolding aggregate_any
any_iff answers = (ground arith, ground arith)

-- In the modes other than DualConsensus, over at least one answer, the status is Sat exactly when
-- some answer is Sat and none Unsat, and Unsat exactly when some answer is Unsat and none Sat.
pub aggregate_any_iff :
    (a : SmtAnswer) (answers : List SmtAnswer) (mode : SolverMode)
    → mode ≢ dual_consensus
    → ((aggregate_statuses (a ∷ answers) mode ≡ sat)
        ↔ ((saw sat (a ∷ answers) ≡ true) × (saw unsat (a ∷ answers) ≡ false)))
      × ((aggregate_statuses (a ∷ answers) mode ≡ unsat)
          ↔ ((saw unsat (a ∷ answers) ≡ true) × (saw sat (a ∷ answers) ≡ false)))
unfolding aggregate_statuses
aggregate_any_iff a answers dual_consensus h = absurd (h refl)
aggregate_any_iff a answers mode h = any_iff (a ∷ answers)
