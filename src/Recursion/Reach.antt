-- ===== src/Recursion/Reach.antt =====
-- The states that the search can come to, as a step relation, and what the loop keeps of it.
use mathlib.Core.List.{Memᴰ}
use coretrace_stack_analyzer.Prelude.{
  ℕ, ◌+◌, ◌≤◌, ◌<◌, ◌≡◌, ◌⊎◌, inl, inr, Bool, true, Option, some, List, arith, ==_iff, ◌==◌,
  Bool-cases, Assoc, insert, lookup-insert, if◌then◌else◌,
}
use coretrace_stack_analyzer.IntRanges.{Predicate, IrValue, Ranges}
use coretrace_stack_analyzer.IntRanges.Edge.{ConstraintSat}
use coretrace_stack_analyzer.Ir.{Condition, Block}
use coretrace_stack_analyzer.Recursion.{
  PathState, Search, entry_state, max_visits_per_node, visit_key, visit_count, BlockScan, returns,
  falls_through,
}
use coretrace_stack_analyzer.Recursion.Rounds.{scan, successors}

pub visit_count-insert :
    (visits : Assoc ℕ) (key n j : ℕ)
    → visit_count (insert visits key n) j ≡ (if key == j then n else visit_count visits j)
unfolding visit_count
visit_count-insert visits key n j = elim (Bool-cases (key == j)) [
  | inl here ↦ rw (visit_count, lookup-insert visits key n j, here)
  | inr there ↦ rw (visit_count, lookup-insert visits key n j, there)
]

pub visit_count_grows :
    (visits : Assoc ℕ) (key j : ℕ)
    → visit_count visits j ≤ visit_count (insert visits key (visit_count visits key + 1)) j
visit_count_grows visits key j =
    rw (visit_count-insert visits key (visit_count visits key + 1) j)
      (elim (Bool-cases (key == j)) [
        | inl here ↦ let same : key ≡ j = (==_iff key j).0 here in rw (here, same) (omega arith)
        | inr there ↦ rw there (omega arith)
      ])

-- A state that the search has, done with or yet to do.
abbrev pub Known : List PathState → List PathState → PathState → Type 0
Known done todo t = Memᴰ t done ⊎ Memᴰ t todo

-- Nothing was left out because its block had been visited too often.
abbrev pub AllSeldom : Search → Type 0
AllSeldom s = (key : ℕ) → visit_count s.visits key ≤ max_visits_per_node + 1

module _ (strip : IrValue → IrValue) (inverse : Predicate → Predicate)
    (evaluate : Ranges → Condition → Bool → ℕ → Option ℕ → ConstraintSat) (is_recursive : ℕ → Bool)
    (blocks : List Block) where
  abbrev pub scan_of : PathState → BlockScan
  scan_of = scan strip inverse evaluate is_recursive blocks

  abbrev pub successors_of : PathState → Bool → Option (List PathState)
  successors_of = successors strip inverse evaluate is_recursive blocks

  -- A path through the function along edges that are not found infeasible.
  pub data Reach : PathState → Type 0 where
    at_entry : Reach entry_state
    along :
        (s t : PathState) (saw : Bool) (states : List PathState)
        → Reach s
        → scan_of s ≡ falls_through saw
        → successors_of s saw ≡ some states
        → Memᴰ t states
        → Reach t

  -- What became of a state that the search is done with.
  pub data Handled (done : List PathState) (s : Search) (t : PathState) : Type 0 where
    by_return : scan_of t ≡ returns true → s.saw_any_recursive_path ≡ true → Handled done s t
    by_states :
        (saw : Bool) (states : List PathState)
        → scan_of t ≡ falls_through saw
        → successors_of t saw ≡ some states
        → ((u : PathState) → Memᴰ u states → Known done s.worklist u)
        → Handled done s t
    by_limit : max_visits_per_node + 1 < visit_count s.visits (visit_key t) → Handled done s t

  pub record IsExplored (done : List PathState) (s : Search) : Type 0 where
    pub entry : Known done s.worklist entry_state
    pub handled : (t : PathState) → Memᴰ t done → Handled done s t
    pub reached : (t : PathState) → Memᴰ t s.worklist → Reach t
    pub returned :
        s.saw_any_recursive_path ≡ true → (t : PathState) × Reach t × (scan_of t ≡ returns true)

  pub record IsLater (done : List PathState) (s : Search) (more : List PathState) (after : Search)
      : Type 0 where
    pub known : (u : PathState) → Known done s.worklist u → Known more after.worklist u
    pub saw : s.saw_any_recursive_path ≡ true → after.saw_any_recursive_path ≡ true
    pub grows : (key : ℕ) → visit_count s.visits key ≤ visit_count after.visits key

  pub Handled-later :
      (done more : List PathState) (s after : Search) (t : PathState)
      → IsLater done s more after
      → Handled done s t
      → Handled more after t
  Handled-later done more s after t l (by_return e saw) = by_return e (l.saw saw)
  Handled-later done more s after t l (by_states saw states e e' k) =
      by_states saw states e e' (λ u m. l.known u (k u m))
  Handled-later done more s after t l (by_limit lt) =
      by_limit (omega (arith, l.grows (visit_key t)))
