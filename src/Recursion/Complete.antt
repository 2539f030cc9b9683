-- ===== src/Recursion/Complete.antt =====
-- What the answers of the search mean.
use mathlib.Core.List.{Memᴰ}
use mathlib.Core.List.Memᴰ
use coretrace_stack_analyzer.Prelude.{
  ℕ, ◌+◌, ◌≡◌, ◌≢◌, ◌⊎◌, inl, inr, refl, sym, subst, Bool, true, false, Option, some, List, [],
  arith, Bool-cases, if◌then◌else◌,
}
use coretrace_stack_analyzer.IntRanges.{Predicate, IrValue, Ranges}
use coretrace_stack_analyzer.IntRanges.Edge.{ConstraintSat}
use coretrace_stack_analyzer.Ir.{Condition, Block}
use coretrace_stack_analyzer.Recursion.{
  NonRecursiveReturnFeasibility, exists, does_not_exist, PathState, Search, entry_state,
  begin_search, max_states, visit_key, BlockScan, returns, falls_through, search_paths,
}
use coretrace_stack_analyzer.Recursion.Reach.{
  Known, AllSeldom, scan_of, successors_of, Reach, at_entry, along, Handled, by_return, by_states,
  by_limit, IsExplored,
}
use coretrace_stack_analyzer.Recursion.Explored.{
  Stopped, at_call_free_return, Outcome, stopped, emptied, run_search-Outcome,
}

module _ (strip : IrValue → IrValue) (inverse : Predicate → Predicate)
    (evaluate : Ranges → Condition → Bool → ℕ → Option ℕ → ConstraintSat) (is_recursive : ℕ → Bool)
    (blocks : List Block) where
  abbrev Reached : PathState → Type 0
  Reached = Reach strip inverse evaluate is_recursive blocks

  abbrev scanned : PathState → BlockScan
  scanned = scan_of strip inverse evaluate is_recursive blocks

  begin-IsExplored : IsExplored strip inverse evaluate is_recursive blocks [] begin_search
  begin-IsExplored = record {
    entry = inr (Memᴰ.head refl);
    handled = λ t m. absurd (Memᴰ.not-nil m);
    reached = λ t m. subst Reached (sym (Memᴰ.eq_of_singleton m)) at_entry;
    returned = λ h. absurd (cc);
  }

  -- The worklist ran empty, and the flag gave the answer.
  abbrev Emptied : NonRecursiveReturnFeasibility → Search → Type 0
  Emptied result last =
      (done : List PathState) × (last.worklist ≡ [])
      × IsExplored strip inverse evaluate is_recursive blocks done last
      × (result ≡ (if last.saw_any_recursive_path then does_not_exist else exists))

  Outcome-cases :
      (result : NonRecursiveReturnFeasibility) (last : Search)
      → Outcome strip inverse evaluate is_recursive blocks result last
      → Stopped strip inverse evaluate is_recursive blocks result ⊎ Emptied result last
  Outcome-cases result last (stopped _ s) = inl s
  Outcome-cases _ last (emptied done _ e x) = inr (done, e, x, refl)

  search_paths-cases :
      (result : NonRecursiveReturnFeasibility) (last : Search)
      → search_paths strip inverse evaluate is_recursive blocks ≡ some (result, last)
      → Stopped strip inverse evaluate is_recursive blocks result ⊎ Emptied result last
  unfolding search_paths
  search_paths-cases result last h = Outcome-cases result last (
      run_search-Outcome strip inverse evaluate is_recursive blocks (max_states + 1) [] begin_search
        last result begin-IsExplored h)

  module _ (done : List PathState) (last : Search) (empty : last.worklist ≡ [])
      (x : IsExplored strip inverse evaluate is_recursive blocks done last)
      (few : AllSeldom last) where
    known_done : (t : PathState) → Known done last.worklist t → Memᴰ t done
    known_done t (inl m) = m
    known_done t (inr m) = absurd (Memᴰ.not-nil (subst (Memᴰ t) empty m))

    Handled-next :
        (s t : PathState) (saw : Bool) (states : List PathState)
        → Handled strip inverse evaluate is_recursive blocks done last s
        → scanned s ≡ falls_through saw
        → successors_of strip inverse evaluate is_recursive blocks s saw ≡ some states
        → Memᴰ t states
        → Memᴰ t done
    Handled-next s t saw states (by_return e flag) sc su m = absurd (cc)
    Handled-next s t saw states (by_states saw' states' e e' k) sc su m =
        let flag : saw ≡ saw' = cc in
        let same : states ≡ states' = cc in known_done t (k t (subst (Memᴰ t) same m))
    Handled-next s t saw states (by_limit lt) sc su m = absurd (omega (arith, few (visit_key s)))

    -- Every state that can be reached has been dealt with.
    all_done : (t : PathState) → Reached t → Memᴰ t done
    all_done _ at_entry = known_done entry_state x.entry
    all_done t (along s _ saw states r sc su m) =
        Handled-next s t saw states (x.handled s (all_done s r)) sc su m

    Handled-return :
        (t : PathState) (flag : Bool)
        → Handled strip inverse evaluate is_recursive blocks done last t
        → scanned t ≡ returns flag
        → (flag ≡ true) × (last.saw_any_recursive_path ≡ true)
    Handled-return t flag (by_return e saw) sc = (cc, saw)
    Handled-return t flag (by_states saw states e e' k) sc = absurd (cc)
    Handled-return t flag (by_limit lt) sc = absurd (omega (arith, few (visit_key t)))

-- If the search answers DoesNotExist, a path that is not found infeasible returns after a recursive
-- call; and if no state was left out for the visits of its block, every path of which no edge is
-- found infeasible calls a recursive callee before it returns.
pub does_not_exist_lem :
    (strip : IrValue → IrValue) (inverse : Predicate → Predicate)
    (evaluate : Ranges → Condition → Bool → ℕ → Option ℕ → ConstraintSat) (is_recursive : ℕ → Bool)
    (blocks : List Block) (last : Search)
    → search_paths strip inverse evaluate is_recursive blocks ≡ some (does_not_exist, last)
    → ((t : PathState) × Reach strip inverse evaluate is_recursive blocks t
        × (scan_of strip inverse evaluate is_recursive blocks t ≡ returns true))
      × (AllSeldom last
          → (t : PathState) → Reach strip inverse evaluate is_recursive blocks t
          → scan_of strip inverse evaluate is_recursive blocks t ≢ returns false)
does_not_exist_lem strip inverse evaluate is_recursive blocks last h =
    elim (search_paths-cases strip inverse evaluate is_recursive blocks does_not_exist last h) [
      | inl s ↦ elim s [ ]
      | inr (done, empty, x, e) ↦ (
        x.returned (elim (Bool-cases last.saw_any_recursive_path) [
          | inl t ↦ t
          | inr f ↦ absurd (cc (rw f at e))
        ]),
        λ few t r sc. absurd (
            cc
              (Handled-return strip inverse evaluate is_recursive blocks done last empty x few t
                false
                (x.handled t
                  (all_done strip inverse evaluate is_recursive blocks done last empty x few t r))
                sc).0),
      )
    ]

-- If the search answers Exists, some path that is not found infeasible returns before any recursive
-- call, or, if no state was left out for the visits of its block, no path returns at all.
pub exists_lem :
    (strip : IrValue → IrValue) (inverse : Predicate → Predicate)
    (evaluate : Ranges → Condition → Bool → ℕ → Option ℕ → ConstraintSat) (is_recursive : ℕ → Bool)
    (blocks : List Block) (last : Search)
    → search_paths strip inverse evaluate is_recursive blocks ≡ some (exists, last)
    → ((t : PathState) × Reach strip inverse evaluate is_recursive blocks t
        × (scan_of strip inverse evaluate is_recursive blocks t ≡ returns false))
      ⊎ (AllSeldom last
          → (t : PathState) (flag : Bool) → Reach strip inverse evaluate is_recursive blocks t
          → scan_of strip inverse evaluate is_recursive blocks t ≢ returns flag)
exists_lem strip inverse evaluate is_recursive blocks last h =
    elim (search_paths-cases strip inverse evaluate is_recursive blocks exists last h) [
      | inl s ↦ inl (call_free s)
      | inr (done, empty, x, e) ↦ inr (λ few t flag r sc.
          let saw : last.saw_any_recursive_path ≡ true =
            (Handled-return strip inverse evaluate is_recursive blocks done last empty x few t flag
              (x.handled t
                (all_done strip inverse evaluate is_recursive blocks done last empty x few t r))
              sc).1 in
          absurd (cc (rw saw at e)))
    ]
  where
    call_free :
        Stopped strip inverse evaluate is_recursive blocks exists
        → (t : PathState) × Reach strip inverse evaluate is_recursive blocks t
          × (scan_of strip inverse evaluate is_recursive blocks t ≡ returns false)
    call_free (at_call_free_return t r sc) = (t, r, sc)
