-- ===== src/Smt/Orchestrator/Resolve.antt =====
-- Which backends the orchestrator runs.
use mathlib.Core.List.{append-nil, append_assoc}
use coretrace_stack_analyzer.Prelude.{
  ℕ, ◌≤◌, ◌≡◌, refl, sym, inl, inr, false, ◌||◌, Option, List, [], ◌∷◌, ◌++◌, arith, length,
  length-append, Bool-cases, or-false_iff,
}
use coretrace_stack_analyzer.Prelude.Text.{Text, codes, text_eq, text_eq_iff}
use coretrace_stack_analyzer.Smt.Types.{
  SolverMode, single, portfolio, cross_check, dual_consensus, SmtQuery, SmtAnswer, to_lower_ascii,
}
use coretrace_stack_analyzer.Smt.Backends.{
  SmtBackend, create_backend, has_backend, append_backend_if_missing,
}
use coretrace_stack_analyzer.Smt.Orchestrator.{
  SolverOrchestratorConfig, append_secondary, append_interval, add_by_mode, resolve_backends,
}

-- No two backends have one name.
abbrev pub DistinctNames : List SmtBackend → Type 0
DistinctNames [] = Unit
DistinctNames (b ∷ out) = (has_backend out b.name ≡ false) × DistinctNames out

has_backend-append :
    (out : List SmtBackend) (b : SmtBackend) (name : Text)
    → has_backend (out ++ b ∷ []) name ≡ (has_backend out name || text_eq b.name name)
unfolding has_backend
has_backend-append [] b name = ground arith
has_backend-append (x ∷ out) b name = ground (arith, has_backend-append out b name)

text_eq_symm : (s t : Text) → text_eq s t ≡ false → text_eq t s ≡ false
text_eq_symm s t h = elim (Bool-cases (text_eq t s)) [
  | inl e ↦ absurd (cc ((text_eq_iff s t).1 (sym ((text_eq_iff t s).0 e)), h))
  | inr ne ↦ ne
]

append-DistinctNames :
    (out : List SmtBackend) (b : SmtBackend)
    → has_backend out b.name ≡ false
    → DistinctNames out
    → DistinctNames (out ++ b ∷ [])
unfolding has_backend
append-DistinctNames [] b h d = (refl, tt)
append-DistinctNames (x ∷ out) b h d =
    let (p, q) = (or-false_iff _ _).0 h in
    (
      rw (has_backend-append out b x.name)
          ((or-false_iff _ _).1 (d.0, text_eq_symm x.name b.name p)),
      append-DistinctNames out b q d.1,
    )

-- How many backends a mode adds to the primary one at most.
abbrev pub max_others : SolverMode → ℕ
max_others single = 0
max_others cross_check = 1
max_others _ = 2

module _ (z3 : Option (SmtQuery → SmtAnswer)) where
  -- What each step of `resolveBackends` keeps: distinct names, and the backends in front.
  abbrev Extends : List SmtBackend → List SmtBackend → Type 0
  Extends out out' =
      DistinctNames out' × ((rest : List SmtBackend) × (out' ≡ out ++ rest) × (length rest ≤ 1))

  append_backend_if_missing-Extends :
      (out : List SmtBackend) (name : Text)
      → DistinctNames out
      → Extends out (append_backend_if_missing z3 out name)
  unfolding append_backend_if_missing
  append_backend_if_missing-Extends out name d =
      let b : SmtBackend = create_backend z3 name in
      elim (Bool-cases (has_backend out b.name)) [
        | inl there ↦ rw there (d, ([], sym (append-nil out), omega arith))
        | inr missing ↦
            rw missing (append-DistinctNames out b missing d, (b ∷ [], refl, omega arith))
      ]

  Extends-refl : (out : List SmtBackend) → DistinctNames out → Extends out out
  Extends-refl out d = (d, ([], sym (append-nil out), omega arith))

  append_secondary-Extends :
      (config : SolverOrchestratorConfig) (out : List SmtBackend)
      → DistinctNames out
      → Extends out (append_secondary z3 config out)
  unfolding append_secondary
  append_secondary-Extends config out d = elim (Bool-cases (text_eq config.secondary_backend [])) [
    | inl none_given ↦ rw none_given (Extends-refl out d)
    | inr given ↦ rw given (append_backend_if_missing-Extends out config.secondary_backend d)
  ]

  append_interval-Extends :
      (config : SolverOrchestratorConfig) (out : List SmtBackend)
      → DistinctNames out
      → Extends out (append_interval z3 config out)
  unfolding append_interval
  append_interval-Extends config out d =
      elim (Bool-cases (text_eq (to_lower_ascii config.primary_backend) (codes "interval"))) [
        | inl is_interval ↦ rw is_interval (Extends-refl out d)
        | inr other ↦ rw other (append_backend_if_missing-Extends out (codes "interval") d)
      ]

  both-Extends :
      (config : SolverOrchestratorConfig) (out : List SmtBackend)
      → DistinctNames out
      → let out' = append_interval z3 config (append_secondary z3 config out) in
        DistinctNames out' × ((rest : List SmtBackend) × (out' ≡ out ++ rest) × (length rest ≤ 2))
  both-Extends config out d =
      let (d', (r, e, l)) = append_secondary-Extends config out d in
      let (d'', (r', e', l')) =
        append_interval-Extends config (append_secondary z3 config out) d' in
      (d'', (r ++ r', rw (e', e) (append_assoc out r r'), omega (arith, length-append r r')))

  add_by_mode-Extends :
      (mode : SolverMode) (config : SolverOrchestratorConfig) (out : List SmtBackend)
      → DistinctNames out
      → DistinctNames (add_by_mode z3 mode config out)
        × ((rest : List SmtBackend) × (add_by_mode z3 mode config out ≡ out ++ rest)
            × (length rest ≤ max_others mode))
  unfolding add_by_mode
  add_by_mode-Extends single config out d = (d, ([], sym (append-nil out), omega arith))
  add_by_mode-Extends cross_check config out d =
      elim (Bool-cases (text_eq config.secondary_backend [])) [
        | inl none_given ↦ rw none_given (append_interval-Extends config out d)
        | inr given ↦ rw given (append_backend_if_missing-Extends out config.secondary_backend d)
      ]
  add_by_mode-Extends portfolio config out d = both-Extends config out d
  add_by_mode-Extends dual_consensus config out d = both-Extends config out d

  -- The backends have distinct names, the primary one stands first, and behind it stand none in
  -- Single mode, at most one in CrossCheck mode, and at most two in the other modes; so the list is
  -- never empty.
  pub resolve_backends_lem :
      (config : SolverOrchestratorConfig)
      → DistinctNames (resolve_backends z3 config)
        × ((rest : List SmtBackend) × (resolve_backends z3 config
              ≡ create_backend z3 config.primary_backend ∷ rest)
            × (length rest ≤ max_others config.mode))
  unfolding resolve_backends append_backend_if_missing has_backend
  resolve_backends_lem config =
      add_by_mode-Extends config.mode config (create_backend z3 config.primary_backend ∷ [])
        (refl, tt)
