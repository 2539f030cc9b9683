-- ===== src/StackUsage/Totals/Correct.antt =====
-- On a call graph without cycles the walk computes the stack below every function.
use coretrace_stack_analyzer.Prelude.{
  has, ℕ, zero, suc, ◌≤◌, ◌≡◌, ◌≢◌, refl, sym, ap, ◌∙◌, true, Option, some, List, [], ◌∷◌, ◌==◌,
  ==_iff, arith, Option-cases, Bool-cases, inl, inr, if◌then◌else◌, Assoc, lookup, insert,
  lookup-insert, length, subst,
}
use coretrace_stack_analyzer.StackUsage.{LocalStackInfo, CallGraph}
use coretrace_stack_analyzer.StackUsage.Totals.{
  StackEstimate, no_estimate, VisitState, not_visited, visiting, visited, Walk, state_of,
  estimate_of, callees, join, add_local, local_estimate, visit_callees, enter, leave,
  dfs_compute_stack, visit_functions, local_keys, nodes, distinct, start,
  compute_global_stack_usage,
}
use coretrace_stack_analyzer.StackUsage.Totals.Ends.{state_of-insert, global_walk_ends}
use coretrace_stack_analyzer.StackUsage.Totals.Most.{bytes_at, unknown_at, stack_below-bytes_at}
use coretrace_stack_analyzer.StackUsage.Totals.Reference.{
  AllBelow, IsRank, join_all, stack_below, stack_below_step,
}

estimate_of-insert :
    (m : Assoc StackEstimate) (f : ℕ) (e : StackEstimate) (g : ℕ)
    → estimate_of (insert m f e) g ≡ (if f == g then e else estimate_of m g)
unfolding estimate_of
estimate_of-insert m f e g = elim (Bool-cases (f == g)) [
  | inl here ↦ rw (estimate_of, lookup-insert m f e g, here)
  | inr there ↦ rw (estimate_of, lookup-insert m f e g, there)
]

module _ (cg : CallGraph) (locals : Assoc LocalStackInfo) (rank : ℕ → ℕ) (r : IsRank cg rank) where
  -- What is recorded is right, and every visited function is recorded.
  abbrev IsSound : Walk → Type 0
  IsSound w =
      (f : ℕ)
      → state_of w.state f ≡ visited
      → estimate_of w.total_stack f ≡ stack_below cg locals rank f

  -- The functions whose visit has begun have at least this rank.
  abbrev IsAbove : ℕ → Walk → Type 0
  IsAbove bound w = (g : ℕ) → state_of w.state g ≡ visiting → bound ≤ rank g

  record IsAfter (w after : Walk) : Type 0 where
    sound : IsSound after
    begun : (g : ℕ) → state_of after.state g ≡ visiting → state_of w.state g ≡ visiting
    kept : (g : ℕ) → state_of w.state g ≡ visited → state_of after.state g ≡ visited

  record IsVisit (f : ℕ) (w : Walk) (e : StackEstimate) (after : Walk) : Type 0 where
    estimate : e ≡ stack_below cg locals rank f
    then_after : IsAfter w after
    done : state_of after.state f ≡ visited

  abbrev VisitsRight : (ℕ → Walk → Option (StackEstimate × Walk)) → Type 0
  VisitsRight visit =
      (c : ℕ) (w : Walk) (e : StackEstimate) (after : Walk)
      → IsSound w
      → IsAbove (suc (rank c)) w
      → visit c w ≡ some (e, after)
      → IsVisit c w e after

  visit_callees_right :
      (visit : ℕ → Walk → Option (StackEstimate × Walk)) (bound : ℕ) (cs : List ℕ)
      (most : StackEstimate) (w : Walk) (e : StackEstimate) (after : Walk)
      → VisitsRight visit
      → AllBelow rank bound cs
      → IsSound w
      → IsAbove bound w
      → visit_callees cg locals visit cs most w ≡ some (e, after)
      → (e ≡ join_all (stack_below cg locals rank) cs most) × IsAfter w after
  unfolding visit_callees join_all
  visit_callees_right visit bound [] most w e after ih all s a h =
      let same : ◌≡◌ {A = StackEstimate × Walk} (most, w) (e, after) = cc h in
      (
        sym (ap (λ p. p.0) same),
        subst (IsAfter w) (ap (λ p. p.1) same)
            (record { sound = s; begun = λ g v. v; kept = λ g v. v }),
      )
  visit_callees_right visit bound (c ∷ cs) most w e after ih all s a h =
      elim (Option-cases (visit c w)) [
        | inl nothing ↦ absurd (cc (rw (visit_callees, nothing) at h))
        | inr ((one, mid), eq) ↦
            let v = ih c w one mid s (λ g q. omega (arith, a g q)) eq in
            let (e', rest) =
              visit_callees_right visit bound cs (join most one) mid e after ih all.1
                v.then_after.sound (λ g q. a g (v.then_after.begun g q))
                (rw (visit_callees, eq) at h) in
            (
              e' ∙ ap (λ x. join_all (stack_below cg locals rank) cs (join most x)) v.estimate,
              record {
                sound = rest.sound;
                begun = λ g q. v.then_after.begun g (rest.begun g q);
                kept = λ g q. rest.kept g (v.then_after.kept g q);
              },
            )
      ]

  enter-IsSound : (w : Walk) (f : ℕ) → IsSound w → IsSound (enter cg locals w f)
  enter-IsSound w f s g v = elim (Bool-cases (f == g)) [
    | inl here ↦ absurd (cc (rw (state_of-insert w.state f visiting g, here) at v))
    | inr there ↦ s g (rw (state_of-insert w.state f visiting g, there) at v)
  ]

  enter-IsAbove :
      (w : Walk) (f : ℕ) → IsAbove (suc (rank f)) w → IsAbove (rank f) (enter cg locals w f)
  enter-IsAbove w f a g v = elim (Bool-cases (f == g)) [
    | inl here ↦ let same : f ≡ g = (==_iff f g).0 here in rw same (omega arith)
    | inr there ↦ omega (arith, a g (rw (state_of-insert w.state f visiting g, there) at v))
  ]

  leave-IsAfter :
      (w : Walk) (f : ℕ) (after : Walk) (total : StackEstimate)
      → state_of w.state f ≡ not_visited
      → total ≡ stack_below cg locals rank f
      → IsAfter (enter cg locals w f) after
      → IsAfter w (leave cg locals after f total)
  leave-IsAfter w f after total new same h = record {
    sound = λ g v. elim (Bool-cases (f == g)) [
      | inl here ↦
          rw (estimate_of-insert after.total_stack f total g, here)
            (same ∙ ap (stack_below cg locals rank) ((==_iff f g).0 here))
      | inr there ↦
          rw (estimate_of-insert after.total_stack f total g, there)
            (h.sound g (rw (state_of-insert after.state f visited g, there) at v))
    ];
    begun = λ g v. elim (Bool-cases (f == g)) [
      | inl here ↦ absurd (cc (rw (state_of-insert after.state f visited g, here) at v))
      | inr there ↦
          rw (state_of-insert w.state f visiting g, there) at
            (h.begun g (rw (state_of-insert after.state f visited g, there) at v))
    ];
    kept = λ g v. elim (Bool-cases (f == g)) [
      | inl here ↦ rw (state_of-insert after.state f visited g, here) refl
      | inr there ↦
          rw (state_of-insert after.state f visited g, there)
            (h.kept g (rw (state_of-insert w.state f visiting g, there) v))
    ];
  }

  leave_done :
      (after : Walk) (f : ℕ) (total : StackEstimate)
      → state_of (leave cg locals after f total).state f ≡ visited
  leave_done after f total = rw (state_of-insert after.state f visited f, (==_iff f f).1 refl) refl

  dfs_right : (fuel : ℕ) → VisitsRight (dfs_compute_stack cg locals fuel)
  unfolding dfs_compute_stack
  dfs_right zero f w e after s a h = absurd (cc)
  dfs_right (suc fuel) f w e after s a h = go (state_of w.state f) refl (dfs_right fuel)
    where
      go :
          (v : VisitState)
          → state_of w.state f ≡ v
          → VisitsRight (dfs_compute_stack cg locals fuel)
          → IsVisit f w e after
      go visiting v ih = absurd (omega (arith, a f v))
      go visited v ih =
          let same : ◌≡◌ {A = StackEstimate × Walk} (estimate_of w.total_stack f, w) (e, after) =
            cc (rw (dfs_compute_stack, v) at h) in
          record {
            estimate = sym (ap (λ p. p.0) same) ∙ s f v;
            then_after =
                subst (IsAfter w) (ap (λ p. p.1) same)
                  (record { sound = s; begun = λ g q. q; kept = λ g q. q });
            done = subst (λ t. state_of t.state f ≡ visited) (ap (λ p. p.1) same) v;
          }
      go not_visited v ih =
          let inside =
            visit_callees cg locals (dfs_compute_stack cg locals fuel) (callees cg f) no_estimate
              (enter cg locals w f) in
          elim (Option-cases inside) [
            | inl nothing ↦ absurd (cc (rw (dfs_compute_stack, v, nothing) at h))
            | inr ((most, mid), eq) ↦
                let total = add_local (local_estimate cg locals f) most in
                let same : ◌≡◌ {A = StackEstimate × Walk} (total, leave cg locals mid f total)
                    (e, after) =
                  cc (rw (dfs_compute_stack, v, eq) at h) in
                let (joined, rest) =
                  visit_callees_right (dfs_compute_stack cg locals fuel) (rank f) (callees cg f)
                    no_estimate (enter cg locals w f) most mid ih (r f) (enter-IsSound w f s)
                    (enter-IsAbove w f a) eq in
                let right : total ≡ stack_below cg locals rank f =
                  ap (add_local (local_estimate cg locals f)) joined
                  ∙ sym (stack_below_step cg locals rank f r) in
                record {
                  estimate = sym (ap (λ p. p.0) same) ∙ right;
                  then_after =
                      subst (IsAfter w) (ap (λ p. p.1) same)
                        (leave-IsAfter w f mid total v right rest);
                  done =
                      subst (λ t. state_of t.state f ≡ visited) (ap (λ p. p.1) same)
                        (leave_done mid f total);
                }
          ]

  abbrev AreVisited : List ℕ → Walk → Type 0
  AreVisited [] w = Unit
  AreVisited (f ∷ fs) w = (state_of w.state f ≡ visited) × AreVisited fs w

  -- Between two visits no function is begun.
  abbrev IsIdle : Walk → Type 0
  IsIdle w = (g : ℕ) → state_of w.state g ≢ visiting

  visit_functions_right :
      (fuel : ℕ) (rest : Assoc LocalStackInfo) (w after : Walk)
      → IsSound w
      → IsIdle w
      → visit_functions cg locals fuel rest w ≡ some after
      → IsAfter w after × AreVisited (local_keys rest) after
  unfolding visit_functions local_keys
  visit_functions_right fuel [] w after s i h =
      let same : w ≡ after = cc h in
      (subst (IsAfter w) same (record { sound = s; begun = λ g q. q; kept = λ g q. q }), tt)
  visit_functions_right fuel ((f, info) ∷ rest) w after s i h =
      go (state_of w.state f) refl (visit_functions_right fuel rest)
    where
      go :
          (v : VisitState)
          → state_of w.state f ≡ v
          → ((w after : Walk)
              → IsSound w
              → IsIdle w
              → visit_functions cg locals fuel rest w ≡ some after
              → IsAfter w after × AreVisited (local_keys rest) after)
          → IsAfter w after × AreVisited (f ∷ local_keys rest) after
      go visiting v ih = absurd (i f v)
      go visited v ih =
          let (a, all) = ih w after s i (rw (visit_functions, v) at h) in (a, (a.kept f v, all))
      go not_visited v ih = elim (Option-cases (dfs_compute_stack cg locals fuel f w)) [
        | inl nothing ↦ absurd (cc (rw (visit_functions, v, nothing) at h))
        | inr ((e, mid), eq) ↦
            let one = dfs_right fuel f w e mid s (λ g q. absurd (i g q)) eq in
            let (a, all) =
              ih mid after one.then_after.sound (λ g q. i g (one.then_after.begun g q))
                (rw (visit_functions, v, eq) at h) in
            (
              record {
                sound = a.sound;
                begun = λ g q. one.then_after.begun g (a.begun g q);
                kept = λ g q. a.kept g (one.then_after.kept g q);
              },
              (a.kept f one.done, all),
            )
      ]

AreVisited-has :
    (cg : CallGraph) (locals : Assoc LocalStackInfo) (rank : ℕ → ℕ) (r : IsRank cg rank)
    (fs : List ℕ) (w : Walk) (f : ℕ)
    → AreVisited cg locals rank r fs w
    → has fs f ≡ true
    → state_of w.state f ≡ visited
AreVisited-has cg locals rank r [] w f all h = absurd (cc)
AreVisited-has cg locals rank r (g ∷ fs) w f all h = elim (Bool-cases (g == f)) [
  | inl here ↦ ap (state_of w.state) (sym ((==_iff g f).0 here)) ∙ all.0
  | inr there ↦ AreVisited-has cg locals rank r fs w f all.1 (ground arith)
]

start-idle : (g : ℕ) → state_of start.state g ≢ visiting
unfolding state_of lookup
start-idle g h = cc

start-unvisited : (g : ℕ) → state_of start.state g ≢ visited
unfolding state_of lookup
start-unvisited g h = cc

-- The walk computes the reference that has no memory of earlier visits.
pub compute_global_stack_usage-eq-stack_below :
    (cg : CallGraph) (locals : Assoc LocalStackInfo) (rank : ℕ → ℕ) (f : ℕ)
    → IsRank cg rank
    → has (local_keys locals) f ≡ true
    → (totals : Assoc StackEstimate) × (compute_global_stack_usage cg locals ≡ some totals)
      × (estimate_of totals f ≡ stack_below cg locals rank f)
unfolding compute_global_stack_usage
compute_global_stack_usage-eq-stack_below cg locals rank f r h =
    let (w, e) = global_walk_ends cg locals in
    let (a, all) =
      visit_functions_right cg locals rank r (suc (length (distinct (nodes cg locals)))) locals
        start w (λ g v. absurd (start-unvisited g v)) start-idle e in
    (
      w.total_stack,
      rw (compute_global_stack_usage, e) refl,
      a.sound f (AreVisited-has cg locals rank r (local_keys locals) w f all h),
    )

-- On a call graph without cycles `computeGlobalStackUsage` ends, and for every function that has a local
-- stack it gives the sum of its own bytes and the greatest stack below one of its callees, modulo
-- 2^64 at each function, by recursion on the rank, and says that the stack is unknown exactly if the
-- function's own frame or the stack below a callee is.
pub compute_global_stack_usage-bytes_at :
    (cg : CallGraph) (locals : Assoc LocalStackInfo) (rank : ℕ → ℕ) (f : ℕ)
    → IsRank cg rank
    → has (local_keys locals) f ≡ true
    → (totals : Assoc StackEstimate) × (compute_global_stack_usage cg locals ≡ some totals)
      × ((estimate_of totals f).bytes ≡ bytes_at cg locals (suc (rank f)) f)
      × ((estimate_of totals f).unknown ≡ unknown_at cg locals (suc (rank f)) f)
compute_global_stack_usage-bytes_at cg locals rank f r h =
    let (totals, e, same) = compute_global_stack_usage-eq-stack_below cg locals rank f r h in
    let (b, u) = stack_below-bytes_at cg locals rank f in
    (totals, e, ap (λ t. t.bytes) same ∙ b, ap (λ t. t.unknown) same ∙ u)
