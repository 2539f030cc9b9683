-- ===== src/Recursion/Explored.antt =====
-- Each round keeps the account of the states that the search has come to.
use mathlib.Core.List.{Memᴰ, append-nil}
use mathlib.Core.List.Memᴰ
use coretrace_stack_analyzer.Prelude.{
  ℕ, zero, suc, ◌+◌, ◌≤◌, ◌≡◌, inl, inr, refl, sym, ◌∙◌, subst, Bool, true, false, Option, none,
  some, List, [], ◌∷◌, ◌++◌, arith, ==_iff, ◌==◌, insert, if◌then◌else◌,
}
use coretrace_stack_analyzer.IntRanges.{Predicate, IrValue, Ranges}
use coretrace_stack_analyzer.IntRanges.Edge.{ConstraintSat}
use coretrace_stack_analyzer.Ir.{Condition, Block}
use coretrace_stack_analyzer.Recursion.{
  NonRecursiveReturnFeasibility, exists, does_not_exist, inconclusive, PathState, Search,
  entry_state, Round, goes_on, stops, visit_key, visit_count, returns, round, run_search,
}
use coretrace_stack_analyzer.Recursion.Rounds.{
  counted, found, returned, undecided, extended, RoundCase, at_limit, skipped, visited,
  round-RoundCase, run_search_empty, run_search-round,
}
use coretrace_stack_analyzer.Recursion.Reach.{
  visit_count-insert, visit_count_grows, Known, scan_of, Reach, along, Handled, by_return,
  by_states, by_limit, IsExplored, IsLater, Handled-later,
}

Known-next :
    (done rest more : List PathState) (current u : PathState)
    → Known done (current ∷ rest) u
    → Known (current ∷ done) (rest ++ more) u
Known-next done rest more current u (inl m) = inl (Memᴰ.tail m)
Known-next done rest more current u (inr m) = elim (Memᴰ.cases_cons m) [
  | inl e ↦ inl (Memᴰ.head e)
  | inr m' ↦ inr (Memᴰ.append_left more m')
]

module _ (strip : IrValue → IrValue) (inverse : Predicate → Predicate)
    (evaluate : Ranges → Condition → Bool → ℕ → Option ℕ → ConstraintSat) (is_recursive : ℕ → Bool)
    (blocks : List Block) where
  abbrev Explored : List PathState → Search → Type 0
  Explored = IsExplored strip inverse evaluate is_recursive blocks

  -- The front state moves to those that the search is done with.
  Explored-next :
      (done rest more : List PathState) (current : PathState) (s after : Search)
      → s.worklist ≡ current ∷ rest
      → after.worklist ≡ rest ++ more
      → after.visits
        ≡ insert s.visits (visit_key current) (visit_count s.visits (visit_key current) + 1)
      → (s.saw_any_recursive_path ≡ true → after.saw_any_recursive_path ≡ true)
      → Explored done s
      → Handled strip inverse evaluate is_recursive blocks (current ∷ done) after current
      → ((t : PathState) → Memᴰ t more → Reach strip inverse evaluate is_recursive blocks t)
      → (after.saw_any_recursive_path ≡ true
          → (t : PathState) × Reach strip inverse evaluate is_recursive blocks t
            × (scan_of strip inverse evaluate is_recursive blocks t ≡ returns true))
      → Explored (current ∷ done) after
  Explored-next done rest more current s after e e' e'' saw x now new ret =
      let later : IsLater strip inverse evaluate is_recursive blocks done s (current ∷ done) after =
        record {
          known = λ u k.
              subst (λ w. Known (current ∷ done) w u) (sym e')
                (Known-next done rest more current u (subst (λ w. Known done w u) e k));
          saw = saw;
          grows = λ key.
              subst (λ v. visit_count s.visits key ≤ visit_count v key) (sym e'')
                (visit_count_grows s.visits (visit_key current) key);
        } in
      record {
        entry = later.known entry_state x.entry;
        handled = λ t m. elim (Memᴰ.cases_cons m) [
          | inl q ↦
              subst (Handled strip inverse evaluate is_recursive blocks (current ∷ done) after)
                (sym q) now
          | inr m' ↦
              Handled-later strip inverse evaluate is_recursive blocks done (current ∷ done) s after
                t later (x.handled t m')
        ];
        reached = λ t m. elim (Memᴰ.append_cases rest (subst (Memᴰ t) e' m)) [
          | inl m' ↦ x.reached t (subst (Memᴰ t) (sym e) (Memᴰ.tail m'))
          | inr m' ↦ new t m'
        ];
        returned = ret;
      }

  -- How the search can stop before its worklist is empty.
  pub data Stopped : NonRecursiveReturnFeasibility → Type 0 where
    at_call_free_return :
        (t : PathState)
        → Reach strip inverse evaluate is_recursive blocks t
        → scan_of strip inverse evaluate is_recursive blocks t ≡ returns false
        → Stopped exists
    undecided_or_limit : Stopped inconclusive

  abbrev AfterRound : PathState → List PathState → Round → Type 0
  AfterRound current done (goes_on after) = Explored (current ∷ done) after
  AfterRound current done (stops result) = Stopped result

  round-Explored :
      (done rest : List PathState) (current : PathState) (s : Search) (r : Round)
      → s.worklist ≡ current ∷ rest
      → RoundCase strip inverse evaluate is_recursive blocks current rest s r
      → Explored done s
      → AfterRound current done r
  round-Explored done rest current s r e at_limit x = undecided_or_limit
  round-Explored done rest current s r e (skipped few often) x =
      let self : (visit_key current == visit_key current) ≡ true = (==_iff _ _).1 refl in
      Explored-next done rest [] current s (counted current rest s) e (sym (append-nil rest)) refl
        (λ h. h) x
        (by_limit (
          rw
            (
              visit_count-insert s.visits (visit_key current)
                  (visit_count s.visits (visit_key current) + 1) (visit_key current),
              self,
            )
            (omega arith)))
        (λ t m. absurd (Memᴰ.not-nil m)) x.returned
  round-Explored done rest current s _ e (visited r few seldom (found sc)) x =
      at_call_free_return current
        (x.reached current (subst (Memᴰ current) (sym e) (Memᴰ.head refl))) sc
  round-Explored done rest current s _ e (visited r few seldom (returned sc)) x =
      Explored-next done rest [] current s
        (record (counted current rest s) { saw_any_recursive_path = true }) e
        (sym (append-nil rest)) refl (λ h. refl) x (by_return sc refl)
        (λ t m. absurd (Memᴰ.not-nil m))
        (λ h. (current, x.reached current (subst (Memᴰ current) (sym e) (Memᴰ.head refl)), sc))
  round-Explored done rest current s _ e (visited r few seldom (undecided saw sc none_)) x =
      undecided_or_limit
  round-Explored done rest current s _ e (visited r few seldom (extended saw states sc su)) x =
      Explored-next done rest states current s
        (record (counted current rest s) { worklist = rest ++ states }) e refl refl (λ h. h) x
        (by_states saw states sc su (λ u m. inr (Memᴰ.append_right rest m)))
        (λ t m.
          along current t saw states
            (x.reached current (subst (Memᴰ current) (sym e) (Memᴰ.head refl))) sc su m)
        x.returned

  -- What the search ends with.
  pub data Outcome : NonRecursiveReturnFeasibility → Search → Type 0 where
    stopped :
        {result : NonRecursiveReturnFeasibility} (last : Search)
        → Stopped result
        → Outcome result last
    emptied :
        (done : List PathState) (last : Search)
        → last.worklist ≡ []
        → Explored done last
        → Outcome (if last.saw_any_recursive_path then does_not_exist else exists) last

  abbrev OutcomeOf : Option (NonRecursiveReturnFeasibility × Search) → Type 0
  OutcomeOf none = Unit
  OutcomeOf (some (result, last)) = Outcome result last

  pub run_search-Outcome :
      (fuel : ℕ) (done : List PathState) (s last : Search) (result : NonRecursiveReturnFeasibility)
      → Explored done s
      → run_search strip inverse evaluate is_recursive blocks fuel s ≡ some (result, last)
      → Outcome result last
  unfolding run_search
  run_search-Outcome zero done s last result x h = absurd (cc)
  run_search-Outcome (suc fuel) done s last result x h =
      go s.worklist refl (run_search-Outcome fuel)
    where
      go :
          (todo : List PathState)
          → s.worklist ≡ todo
          → ((d : List PathState) (t last : Search) (result : NonRecursiveReturnFeasibility)
              → Explored d t
              → run_search strip inverse evaluate is_recursive blocks fuel t ≡ some (result, last)
              → Outcome result last)
          → Outcome result last
      go [] e ih =
          let same =
            sym (run_search_empty strip inverse evaluate is_recursive blocks fuel s e) ∙ h in
          subst (λ o. OutcomeOf o) same (emptied done s e x)
      go (current ∷ rest) e ih =
          more (round strip inverse evaluate is_recursive blocks current rest s) refl (
            round-Explored done rest current s
              (round strip inverse evaluate is_recursive blocks current rest s) e
              (round-RoundCase strip inverse evaluate is_recursive blocks current rest s) x)
        where
          more :
              (r : Round)
              → round strip inverse evaluate is_recursive blocks current rest s ≡ r
              → AfterRound current done r
              → Outcome result last
          more (stops answer) eq a =
              subst (λ o. OutcomeOf o)
                (sym (
                    run_search-round strip inverse evaluate is_recursive blocks fuel s current rest
                      (stops answer) e eq)
                  ∙ h)
                (stopped s a)
          more (goes_on after) eq a = ih (current ∷ done) after last result a (
              sym (
                run_search-round strip inverse evaluate is_recursive blocks fuel s current rest
                  (goes_on after) e eq)
              ∙ h)
