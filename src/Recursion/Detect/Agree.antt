-- ===== src/Recursion/Detect/Agree.antt =====
-- The search does not contradict the detector by dominance.
use mathlib.Core.List.{Memᴰ}
use mathlib.Core.List.Memᴰ
use coretrace_stack_analyzer.Prelude.{
  ℕ, ◌≡◌, ◌≢◌, refl, sym, ap, ◌∙◌, subst, Bool, true, false, ◌||◌, Option, none, some, List, [],
  ◌∷◌, ◌==◌, ==_iff, arith, Bool-cases, inl, inr, ◌⊎◌, has,
}
use coretrace_stack_analyzer.IntRanges.{Predicate, IrValue, Ranges}
use coretrace_stack_analyzer.IntRanges.Edge.{ConstraintSat}
use coretrace_stack_analyzer.Ir.{
  BlockInstruction, alloca, store, call, return, other_instruction, Condition, Terminator, branch,
  jumps, Block,
}
use coretrace_stack_analyzer.Recursion.{
  PathState, returns, falls_through, scan_block, block_at, jump_states, successor_states,
  follow_edge, EdgeOutcome, dropped, undecided, pushed, edge_ranges,
}
use coretrace_stack_analyzer.Recursion.Reach.{scan_of, Reach, at_entry, along}
use coretrace_stack_analyzer.Recursion.Detect.{
  has_recursive_call, has_return, detect_infinite_recursion_by_dominance,
}
use coretrace_stack_analyzer.Recursion.Detect.Dominance.{
  targets, ControlPath, from_entry, edge, IsDominance, detect_infinite_recursion_by_dominance_sound,
}

-- A return ends its block.
abbrev pub ReturnsLast : List BlockInstruction → Type 0
ReturnsLast [] = Unit
ReturnsLast (return ∷ is) = is ≡ []
ReturnsLast (i ∷ is) = ReturnsLast is

-- No recursive callee is called in the block, nor before it.
abbrev IsCallFree : (ℕ → Bool) → List BlockInstruction → Bool → Type 0
IsCallFree is_recursive is saw = (saw ≡ false) × (has_recursive_call is_recursive is ≡ false)

scan_block_falls :
    (is_recursive : ℕ → Bool) (is : List BlockInstruction) (saw : Bool)
    → scan_block is_recursive is saw ≡ falls_through false
    → IsCallFree is_recursive is saw
unfolding scan_block has_recursive_call
scan_block_falls is_recursive [] saw h = (cc, refl)
scan_block_falls is_recursive (return ∷ is) saw h = absurd (cc)
scan_block_falls is_recursive (call (some callee) ∷ is) saw h =
    let (s, f) = scan_block_falls is_recursive is (is_recursive callee.target || saw) h in
    (ground arith, ground arith)
scan_block_falls is_recursive (call none ∷ is) saw h = scan_block_falls is_recursive is saw h
scan_block_falls is_recursive (alloca a b c ∷ is) saw h = scan_block_falls is_recursive is saw h
scan_block_falls is_recursive (store a b ∷ is) saw h = scan_block_falls is_recursive is saw h
scan_block_falls is_recursive (other_instruction ∷ is) saw h =
    scan_block_falls is_recursive is saw h

scan_block_returns :
    (is_recursive : ℕ → Bool) (is : List BlockInstruction) (saw : Bool)
    → ReturnsLast is
    → scan_block is_recursive is saw ≡ returns false
    → IsCallFree is_recursive is saw × (has_return is ≡ true)
unfolding scan_block has_recursive_call has_return
scan_block_returns is_recursive [] saw l h = absurd (cc)
scan_block_returns is_recursive (return ∷ is) saw l h = ((cc, rw l refl), refl)
scan_block_returns is_recursive (call (some callee) ∷ is) saw l h =
    let ((s, f), r) = scan_block_returns is_recursive is (is_recursive callee.target || saw) l h in
    ((ground arith, ground arith), r)
scan_block_returns is_recursive (call none ∷ is) saw l h =
    scan_block_returns is_recursive is saw l h
scan_block_returns is_recursive (alloca a b c ∷ is) saw l h =
    scan_block_returns is_recursive is saw l h
scan_block_returns is_recursive (store a b ∷ is) saw l h =
    scan_block_returns is_recursive is saw l h
scan_block_returns is_recursive (other_instruction ∷ is) saw l h =
    scan_block_returns is_recursive is saw l h

jump_states_next :
    (current : PathState) (saw : Bool) (succs : List ℕ) (t : PathState)
    → Memᴰ t (jump_states current saw succs)
    → (has succs t.block ≡ true) × (t.saw_recursive_call ≡ saw)
unfolding jump_states
jump_states_next current saw [] t m = absurd (Memᴰ.not-nil m)
jump_states_next current saw (succ ∷ succs) t m = elim (Memᴰ.cases_cons m) [
  | inl e ↦
      let b : succ ≡ t.block = ap (λ s. s.block) (sym e) in
      (ground arith, ap (λ s. s.saw_recursive_call) e)
  | inr m' ↦ let (h, s) = jump_states_next current saw succs t m' in (ground arith, s)
]

module _ (strip : IrValue → IrValue) (inverse : Predicate → Predicate)
    (evaluate : Ranges → Condition → Bool → ℕ → Option ℕ → ConstraintSat) where
  abbrev IsNext : Bool → ℕ → EdgeOutcome → Type 0
  IsNext saw succ (pushed t) = (t.block ≡ succ) × (t.saw_recursive_call ≡ saw)
  IsNext saw succ dropped = Unit
  IsNext saw succ undecided = Unit

  follow_edge-IsNext :
      (current : PathState) (saw : Bool) (condition : Condition) (true_edge : Bool) (succ : ℕ)
      → IsNext saw succ (follow_edge strip inverse evaluate current saw condition true_edge succ)
  unfolding follow_edge
  follow_edge-IsNext current saw condition true_edge succ =
      go (edge_ranges strip inverse evaluate current.ranges condition true_edge) refl
    where
      go :
          (o : Option Ranges)
          → edge_ranges strip inverse evaluate current.ranges condition true_edge ≡ o
          → IsNext saw succ
              (follow_edge strip inverse evaluate current saw condition true_edge succ)
      go none e = rw (follow_edge, e) tt
      go (some ranges) e =
          decided (evaluate ranges condition true_edge current.block current.predecessor) refl
        where
          decided :
              (c : ConstraintSat)
              → evaluate ranges condition true_edge current.block current.predecessor ≡ c
              → IsNext saw succ
                  (follow_edge strip inverse evaluate current saw condition true_edge succ)
          decided ConstraintSat.unsat eq = rw (follow_edge, e, eq) tt
          decided ConstraintSat.unknown eq = rw (follow_edge, e, eq) tt
          decided ConstraintSat.sat eq = rw (follow_edge, e, eq) (refl, refl)

  next_in :
      (u t : PathState) (saw : Bool) (a b : ℕ)
      → t ≡ u
      → (u.block ≡ a) ⊎ (u.block ≡ b)
      → u.saw_recursive_call ≡ saw
      → (has (a ∷ b ∷ []) t.block ≡ true) × (t.saw_recursive_call ≡ saw)
  next_in u t saw a b e (inl h) s =
      let here : a ≡ t.block = sym (ap (λ x. x.block) e ∙ h) in
      (ground arith, ap (λ x. x.saw_recursive_call) e ∙ s)
  next_in u t saw a b e (inr h) s =
      let here : b ≡ t.block = sym (ap (λ x. x.block) e ∙ h) in
      (ground arith, ap (λ x. x.saw_recursive_call) e ∙ s)

  successor_states_next :
      (current : PathState) (saw : Bool) (terminator : Terminator) (states : List PathState)
      (t : PathState)
      → successor_states strip inverse evaluate current saw terminator ≡ some states
      → Memᴰ t states
      → (has (targets terminator) t.block ≡ true) × (t.saw_recursive_call ≡ saw)
  unfolding successor_states
  successor_states_next current saw (jumps succs) states t h m =
      let same : jump_states current saw succs ≡ states = cc in
      jump_states_next current saw succs t (subst (Memᴰ t) (sym same) m)
  successor_states_next current saw (branch condition on_true on_false) states t h m =
      go (follow_edge strip inverse evaluate current saw condition true on_true) refl
        (follow_edge-IsNext current saw condition true on_true)
        (follow_edge strip inverse evaluate current saw condition false on_false) refl
        (follow_edge-IsNext current saw condition false on_false)
    where
      go :
          (o : EdgeOutcome)
          → follow_edge strip inverse evaluate current saw condition true on_true ≡ o
          → IsNext saw on_true o
          → (p : EdgeOutcome)
          → follow_edge strip inverse evaluate current saw condition false on_false ≡ p
          → IsNext saw on_false p
          → (has (on_true ∷ on_false ∷ []) t.block ≡ true) × (t.saw_recursive_call ≡ saw)
      go undecided e n p e' n' = absurd (cc (rw (successor_states, e) at h))
      go dropped e n undecided e' n' = absurd (cc (rw (successor_states, e, e') at h))
      go dropped e n dropped e' n' =
          let same : [] ≡ states = cc (rw (successor_states, e, e') at h) in
          absurd (Memᴰ.not-nil (subst (Memᴰ t) (sym same) m))
      go dropped e n (pushed v) e' n' =
          let same : (v ∷ []) ≡ states = cc (rw (successor_states, e, e') at h) in
          next_in v t saw on_true on_false (Memᴰ.eq_of_singleton (subst (Memᴰ t) (sym same) m))
            (inr n'.0) n'.1
      go (pushed u) e n dropped e' n' =
          let same : (u ∷ []) ≡ states = cc (rw (successor_states, e, e') at h) in
          next_in u t saw on_true on_false (Memᴰ.eq_of_singleton (subst (Memᴰ t) (sym same) m))
            (inl n.0) n.1
      go (pushed u) e n undecided e' n' = absurd (cc (rw (successor_states, e, e') at h))
      go (pushed u) e n (pushed v) e' n' =
          let same : (u ∷ v ∷ []) ≡ states = cc (rw (successor_states, e, e') at h) in
          elim (Memᴰ.cases_cons (subst (Memᴰ t) (sym same) m)) [
            | inl q ↦ next_in u t saw on_true on_false q (inl n.0) n.1
            | inr q ↦ next_in v t saw on_true on_false (Memᴰ.eq_of_singleton q) (inr n'.0) n'.1
          ]

  module _ (is_recursive : ℕ → Bool) (blocks : List Block) where
    -- A path to the state, that calls nothing recursive unless the state has the flag.
    abbrev PathTo : PathState → Type 0
    PathTo t =
        (before : List ℕ) × ControlPath blocks t.block before
        × (t.saw_recursive_call ≡ false
            → (a : ℕ) → has before a ≡ true
            → has_recursive_call is_recursive (block_at blocks a).instructions ≡ false)

    Reach-PathTo : (t : PathState) → Reach strip inverse evaluate is_recursive blocks t → PathTo t
    Reach-PathTo _ at_entry = ([], from_entry, λ s a h. absurd (cc))
    Reach-PathTo t (along s _ saw states r sc su m) =
        let (before, path, free) = Reach-PathTo s r in
        let (target, flag) =
          successor_states_next s saw (block_at blocks s.block).terminator states t su m in
        (
          s.block ∷ before,
          edge s.block before t.block path target,
          λ f a h.
              let (unseen, own) =
                scan_block_falls is_recursive (block_at blocks s.block).instructions
                  s.saw_recursive_call (sc ∙ ap falls_through (sym flag ∙ f)) in
              elim (Bool-cases (s.block == a)) [
                | inl here ↦
                    subst
                      (λ b.
                        has_recursive_call is_recursive (block_at blocks b).instructions ≡ false)
                      ((==_iff s.block a).0 here) own
                | inr there ↦ free unseen a (ground arith)
              ],
        )

-- If the detector by dominance says that a function recurses without end, the search for a path that
-- returns before a recursive call, whatever its evaluator says, reaches no such return.
pub detect_infinite_recursion_by_dominance_agrees :
    (strip : IrValue → IrValue) (inverse : Predicate → Predicate)
    (evaluate : Ranges → Condition → Bool → ℕ → Option ℕ → ConstraintSat) (dominates : ℕ → ℕ → Bool)
    (is_recursive : ℕ → Bool) (blocks : List Block) (t : PathState)
    → IsDominance dominates blocks
    → ((b : ℕ) → ReturnsLast (block_at blocks b).instructions)
    → detect_infinite_recursion_by_dominance dominates is_recursive blocks ≡ true
    → Reach strip inverse evaluate is_recursive blocks t
    → scan_of strip inverse evaluate is_recursive blocks t ≢ returns false
detect_infinite_recursion_by_dominance_agrees strip inverse evaluate dominates is_recursive blocks t
      d l h r sc =
    let (before, path, free) = Reach-PathTo strip inverse evaluate is_recursive blocks t r in
    let ((unseen, own), ret) =
      scan_block_returns is_recursive (block_at blocks t.block).instructions t.saw_recursive_call
        (l t.block) sc in
    let (a, m, c) =
      detect_infinite_recursion_by_dominance_sound dominates is_recursive blocks t.block before d h
        path ret in
    let called_free : has_recursive_call is_recursive (block_at blocks a).instructions ≡ false =
      elim (Bool-cases (t.block == a)) [
        | inl here ↦
            subst (λ b. has_recursive_call is_recursive (block_at blocks b).instructions ≡ false)
              ((==_iff t.block a).0 here) own
        | inr there ↦ free unseen a (ground arith)
      ] in
    absurd (cc)
