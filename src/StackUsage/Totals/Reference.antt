-- ===== src/StackUsage/Totals/Reference.antt =====
-- The stack of a function without memory of earlier visits, for call graphs without cycles.
use coretrace_stack_analyzer.Prelude.{
  ℕ, zero, suc, ◌<◌, ◌≡◌, refl, ap, ◌∙◌, List, [], ◌∷◌, arith, Assoc,
}
use coretrace_stack_analyzer.StackUsage.{LocalStackInfo, CallGraph}
use coretrace_stack_analyzer.StackUsage.Totals.{
  StackEstimate, no_estimate, callees, join, add_local, local_estimate,
}

abbrev pub AllBelow : (ℕ → ℕ) → ℕ → List ℕ → Type 0
AllBelow rank bound [] = Unit
AllBelow rank bound (c ∷ cs) = (rank c < bound) × AllBelow rank bound cs

-- A rank that falls along every call: the graph has no cycle.
abbrev pub IsRank : CallGraph → (ℕ → ℕ) → Type 0
IsRank cg rank = (f : ℕ) → AllBelow rank (rank f) (callees cg f)

unfoldable pub join_all : (ℕ → StackEstimate) → List ℕ → StackEstimate → StackEstimate
join_all total [] most = most
join_all total (c ∷ cs) most = join_all total cs (join most (total c))

pub join_all-ext :
    (rank : ℕ → ℕ) (bound : ℕ) (s t : ℕ → StackEstimate) (cs : List ℕ) (most : StackEstimate)
    → AllBelow rank bound cs
    → ((c : ℕ) → rank c < bound → s c ≡ t c)
    → join_all s cs most ≡ join_all t cs most
unfolding join_all
join_all-ext rank bound s t [] most all h = refl
join_all-ext rank bound s t (c ∷ cs) most all h =
    ap (λ e. join_all s cs (join most e)) (h c all.0)
    ∙ join_all-ext rank bound s t cs (join most (t c)) all.1 h

module _ (cg : CallGraph) (locals : Assoc LocalStackInfo) where
  -- Calls nested deeper than `n` are not counted.
  unfoldable pub total_at : ℕ → ℕ → StackEstimate
  unfolding join_all
  total_at zero f = no_estimate
  total_at (suc n) f =
      add_local (local_estimate cg locals f) (join_all (total_at n) (callees cg f) no_estimate)

  -- No call below `f` is nested deeper than its rank.
  unfoldable pub stack_below : (ℕ → ℕ) → ℕ → StackEstimate
  unfolding total_at
  stack_below rank f = total_at (suc (rank f)) f

  total_at_stable :
      (rank : ℕ → ℕ) (n m f : ℕ)
      → IsRank cg rank
      → rank f < n
      → rank f < m
      → total_at n f ≡ total_at m f
  unfolding total_at
  total_at_stable rank zero m f r h k = absurd (omega arith)
  total_at_stable rank (suc n) zero f r h k = absurd (omega arith)
  total_at_stable rank (suc n) (suc m) f r h k = ap (add_local (local_estimate cg locals f)) (
      join_all-ext rank (rank f) (total_at n) (total_at m) (callees cg f) no_estimate (r f)
        (λ c lt. total_at_stable rank n m c r (omega arith) (omega arith)))

  -- The stack below a function is its own and the most that is below a callee.
  pub stack_below_step :
      (rank : ℕ → ℕ) (f : ℕ)
      → IsRank cg rank
      → stack_below rank f
        ≡ add_local
            (local_estimate cg locals f)
            (join_all (stack_below rank) (callees cg f) no_estimate)
  unfolding stack_below total_at
  stack_below_step rank f r = ap (add_local (local_estimate cg locals f)) (
      join_all-ext rank (rank f) (total_at (rank f)) (stack_below rank) (callees cg f) no_estimate
        (r f) (λ c lt. total_at_stable rank (rank f) (suc (rank c)) c r lt (omega arith)))
