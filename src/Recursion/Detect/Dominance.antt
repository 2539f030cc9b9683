-- ===== src/Recursion/Detect/Dominance.antt =====
-- The detector by dominance against the paths of the control flow, and against the search.
use coretrace_stack_analyzer.Prelude.{
  ℕ, zero, suc, ◌+◌, ◌≡◌, refl, subst, Bool, true, List, [], ◌∷◌, ◌==◌, ==_iff, arith, Bool-cases,
  inl, inr, has,
}
use coretrace_stack_analyzer.Ir.{Terminator, branch, jumps, Block}
use coretrace_stack_analyzer.Recursion.{block_at}
use coretrace_stack_analyzer.Recursion.Detect.{
  has_recursive_call, has_return, recursive_call_blocks, is_dominated, returns_are_dominated,
  detect_infinite_recursion_by_dominance,
}

abbrev pub targets : Terminator → List ℕ
targets (branch condition on_true on_false) = on_true ∷ on_false ∷ []
targets (jumps succs) = succs

-- The blocks of a path from the entry, the last one first.
pub data ControlPath (blocks : List Block) : ℕ → List ℕ → Type 0 where
  from_entry : ControlPath blocks 0 []
  edge :
      (b : ℕ) (before : List ℕ) (c : ℕ)
      → ControlPath blocks b before
      → has (targets (block_at blocks b).terminator) c ≡ true
      → ControlPath blocks c (b ∷ before)

-- What LLVM documents of `dominates`: every path from the entry to the second block has the first.
abbrev pub IsDominance : (ℕ → ℕ → Bool) → List Block → Type 0
IsDominance dominates blocks =
    (a b : ℕ) (before : List ℕ)
    → dominates a b ≡ true
    → ControlPath blocks b before
    → has (b ∷ before) a ≡ true

abbrev pub CallsAt : (ℕ → Bool) → List Block → ℕ → Type 0
CallsAt is_recursive blocks a =
    has_recursive_call is_recursive (block_at blocks a).instructions ≡ true

-- `place` blocks stand before those of the list.
recursive_call_blocks_calls :
    (is_recursive : ℕ → Bool) (place : ℕ) (blocks : List Block) (a : ℕ)
    → has (recursive_call_blocks is_recursive place blocks) a ≡ true
    → (i : ℕ) × (a ≡ place + i) × CallsAt is_recursive blocks i
unfolding recursive_call_blocks
recursive_call_blocks_calls is_recursive place [] a h = absurd (cc)
recursive_call_blocks_calls is_recursive place (bb ∷ blocks) a h =
    let ih = recursive_call_blocks_calls is_recursive (suc place) blocks a in
    elim (Bool-cases (has_recursive_call is_recursive bb.instructions)) [
      | inl calls ↦ elim (Bool-cases (place == a)) [
        | inl here ↦ let same : place ≡ a = (==_iff place a).0 here in (0, omega arith, calls)
        | inr there ↦ let (i, e, c) = ih (ground arith) in (suc i, omega arith, c)
      ]
      | inr free ↦
          let (i, e, c) = ih (rw (recursive_call_blocks, free) at h) in (suc i, omega arith, c)
    ]

is_dominated-has :
    (dominates : ℕ → ℕ → Bool) (rcbs : List ℕ) (b : ℕ)
    → is_dominated dominates rcbs b ≡ true
    → (a : ℕ) × (has rcbs a ≡ true) × (dominates a b ≡ true)
unfolding is_dominated
is_dominated-has dominates [] b h = absurd (cc)
is_dominated-has dominates (rcb ∷ rcbs) b h = elim (Bool-cases (dominates rcb b)) [
  | inl d ↦ (rcb, ground arith, d)
  | inr n ↦ let (a, m, d) = is_dominated-has dominates rcbs b (ground arith) in (a, ground arith, d)
]

returns_are_dominated_at :
    (dominates : ℕ → ℕ → Bool) (rcbs : List ℕ) (place : ℕ) (blocks : List Block) (i : ℕ)
    → returns_are_dominated dominates rcbs place blocks ≡ true
    → has_return (block_at blocks i).instructions ≡ true
    → is_dominated dominates rcbs (place + i) ≡ true
unfolding returns_are_dominated
returns_are_dominated_at dominates rcbs place [] i h r = absurd (cc)
returns_are_dominated_at dominates rcbs place (bb ∷ blocks) zero h r =
    let same : place ≡ place + 0 = omega arith in
    subst (λ p. is_dominated dominates rcbs p ≡ true) same (ground arith)
returns_are_dominated_at dominates rcbs place (bb ∷ blocks) (suc i) h r =
    let ih = returns_are_dominated_at dominates rcbs (suc place) blocks i in
    let same : suc place + i ≡ place + suc i = omega arith in
    subst (λ p. is_dominated dominates rcbs p ≡ true) same (ih (ground arith) r)

-- If the detector by dominance says that a function recurses without end, every path through its
-- control flow to a block with a return has a block that calls a recursive callee.
pub detect_infinite_recursion_by_dominance_sound :
    (dominates : ℕ → ℕ → Bool) (is_recursive : ℕ → Bool) (blocks : List Block) (b : ℕ)
    (before : List ℕ)
    → IsDominance dominates blocks
    → detect_infinite_recursion_by_dominance dominates is_recursive blocks ≡ true
    → ControlPath blocks b before
    → has_return (block_at blocks b).instructions ≡ true
    → (a : ℕ) × (has (b ∷ before) a ≡ true) × CallsAt is_recursive blocks a
unfolding detect_infinite_recursion_by_dominance
detect_infinite_recursion_by_dominance_sound dominates is_recursive blocks b before d h p r =
    go (recursive_call_blocks is_recursive 0 blocks) refl
  where
    go :
        (rcbs : List ℕ)
        → recursive_call_blocks is_recursive 0 blocks ≡ rcbs
        → (a : ℕ) × (has (b ∷ before) a ≡ true) × CallsAt is_recursive blocks a
    go [] e = absurd (cc (rw (detect_infinite_recursion_by_dominance, e) at h))
    go (rcb ∷ rcbs) e =
        let zero_left : 0 + b ≡ b = omega arith in
        let (a, m, dom) = is_dominated-has dominates (rcb ∷ rcbs) b (
          subst (λ n. is_dominated dominates (rcb ∷ rcbs) n ≡ true) zero_left
            (returns_are_dominated_at dominates (rcb ∷ rcbs) 0 blocks b
              (rw (detect_infinite_recursion_by_dominance, e) at h) r)) in
        let (i, same, c) = recursive_call_blocks_calls is_recursive 0 blocks a (rw e m) in
        let same' : i ≡ a = omega arith in
        (a, d a b before dom p, subst (CallsAt is_recursive blocks) same' c)
