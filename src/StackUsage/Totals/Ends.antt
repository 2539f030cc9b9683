-- ===== src/StackUsage/Totals/Ends.antt =====
-- The walk ends: each nested call leaves one function fewer that is not visited.
use coretrace_stack_analyzer.Prelude.{
  subst, ◌||◌, ℕ, zero, suc, ◌+◌, ◌≤◌, ◌<◌, ◌≡◌, refl, sym, ◌∙◌, ap, true, Option, some, List, [],
  ◌∷◌, ◌++◌, ◌==◌, ==_iff, arith, length, Bool-cases, inl, inr, if◌then◌else◌, Assoc, lookup,
  insert, lookup-insert, has, has-append,
}
use coretrace_stack_analyzer.StackUsage.{LocalStackInfo, CallGraph}
use coretrace_stack_analyzer.StackUsage.Totals.{
  StackEstimate, VisitState, not_visited, visiting, visited, Walk, state_of, callees, join,
  no_estimate, visit_callees, enter, leave, dfs_compute_stack, visit_functions, graph_nodes,
  local_keys, nodes, distinct, start, estimate_of, compute_global_stack_usage, local_estimate,
  add_local,
}

abbrev pub AllHave : List ℕ → List ℕ → Type 0
AllHave ns [] = Unit
AllHave ns (c ∷ cs) = (has ns c ≡ true) × AllHave ns cs

abbrev is_new : VisitState → ℕ
is_new not_visited = 1
is_new visiting = 0
is_new visited = 0

-- The functions of the list that are not visited.
abbrev pub unseen : List ℕ → Assoc VisitState → ℕ
unseen [] m = 0
unseen (f ∷ fs) m = is_new (state_of m f) + unseen fs m

pub state_of-insert :
    (m : Assoc VisitState) (f : ℕ) (v : VisitState) (g : ℕ)
    → state_of (insert m f v) g ≡ (if f == g then v else state_of m g)
unfolding state_of
state_of-insert m f v g = elim (Bool-cases (f == g)) [
  | inl here ↦ rw (state_of, lookup-insert m f v g, here)
  | inr there ↦ rw (state_of, lookup-insert m f v g, there)
]

unseen-insert :
    (ns : List ℕ) (m : Assoc VisitState) (f : ℕ) (v : VisitState)
    → is_new v ≡ 0
    → unseen ns (insert m f v) ≤ unseen ns m
unseen-insert [] m f v h = omega arith
unseen-insert (g ∷ ns) m f v h = elim (Bool-cases (f == g)) [
  | inl here ↦ rw (state_of-insert m f v g, here) (omega (arith, unseen-insert ns m f v h))
  | inr there ↦ rw (state_of-insert m f v g, there) (omega (arith, unseen-insert ns m f v h))
]

unseen-enter :
    (ns : List ℕ) (m : Assoc VisitState) (f : ℕ)
    → has ns f ≡ true
    → state_of m f ≡ not_visited
    → unseen ns (insert m f visiting) < unseen ns m
unseen-enter [] m f h n = absurd (cc)
unseen-enter (g ∷ ns) m f h n = elim (Bool-cases (f == g)) [
  | inl here ↦
      let same : f ≡ g = (==_iff f g).0 here in
      let new : state_of m g ≡ not_visited = ap (state_of m) (sym same) ∙ n in
      rw (state_of-insert m f visiting g, here, new)
        (omega (arith, unseen-insert ns m f visiting refl))
  | inr there ↦
      rw (state_of-insert m f visiting g, there)
        (omega (arith, unseen-enter ns m f (ground arith) n))
]

module _ (cg : CallGraph) (locals : Assoc LocalStackInfo) (ns : List ℕ)
    (closed : (f : ℕ) → AllHave ns (callees cg f)) where
  -- From every function of the list, with fewer than `bound` functions left, the visit returns.
  abbrev Visits : (ℕ → Walk → Option (StackEstimate × Walk)) → ℕ → Type 0
  Visits visit bound =
      (c : ℕ) (w : Walk)
      → has ns c ≡ true
      → unseen ns w.state < bound
      → (e : StackEstimate) × (after : Walk) × (visit c w ≡ some (e, after))
        × (unseen ns after.state ≤ unseen ns w.state)

  visit_callees_ends :
      (visit : ℕ → Walk → Option (StackEstimate × Walk)) (bound : ℕ) (cs : List ℕ)
      (most : StackEstimate) (w : Walk)
      → Visits visit bound
      → AllHave ns cs
      → unseen ns w.state < bound
      → (e : StackEstimate) × (after : Walk) × (visit_callees cg locals visit cs most w
          ≡ some (e, after))
        × (unseen ns after.state ≤ unseen ns w.state)
  unfolding visit_callees
  visit_callees_ends visit bound [] most w ih all h = (most, w, refl, omega arith)
  visit_callees_ends visit bound (c ∷ cs) most w ih all h =
      let (e, mid, eq, le) = ih c w all.0 h in
      let (e', after, eq', le') =
        visit_callees_ends visit bound cs (join most e) mid ih all.1 (omega arith) in
      (e', after, rw (visit_callees, eq) eq', omega arith)

  pub dfs_ends : (fuel : ℕ) → Visits (dfs_compute_stack cg locals fuel) fuel
  unfolding dfs_compute_stack
  dfs_ends zero f w m h = absurd (omega arith)
  dfs_ends (suc fuel) f w m h = go (state_of w.state f) refl (dfs_ends fuel)
    where
      go :
          (v : VisitState)
          → state_of w.state f ≡ v
          → Visits (dfs_compute_stack cg locals fuel) fuel
          → (e : StackEstimate) × (after : Walk) × (dfs_compute_stack cg locals (suc fuel) f w
              ≡ some (e, after))
            × (unseen ns after.state ≤ unseen ns w.state)
      go visiting s ih =
          (local_estimate cg locals f, w, rw (dfs_compute_stack, s) refl, omega arith)
      go visited s ih =
          (estimate_of w.total_stack f, w, rw (dfs_compute_stack, s) refl, omega arith)
      go not_visited s ih =
          let fewer = unseen-enter ns w.state f m s in
          let (most, after, eq, le) =
            visit_callees_ends (dfs_compute_stack cg locals fuel) fuel (callees cg f) no_estimate
              (enter cg locals w f) ih (closed f) (omega arith) in
          let total = add_local (local_estimate cg locals f) most in
          (
            total,
            leave cg locals after f total,
            rw (dfs_compute_stack, s, eq) refl,
            omega (arith, unseen-insert ns after.state f visited refl),
          )

  visit_functions_ends :
      (fuel : ℕ) (rest : Assoc LocalStackInfo) (w : Walk)
      → AllHave ns (local_keys rest)
      → unseen ns w.state < fuel
      → (after : Walk) × (visit_functions cg locals fuel rest w ≡ some after)
  unfolding visit_functions local_keys
  visit_functions_ends fuel [] w all h = (w, refl)
  visit_functions_ends fuel ((f, info) ∷ rest) w all h =
      go (state_of w.state f) refl (λ v lt. visit_functions_ends fuel rest v all.1 lt)
    where
      go :
          (v : VisitState)
          → state_of w.state f ≡ v
          → ((v : Walk)
              → unseen ns v.state < fuel
              → (after : Walk) × (visit_functions cg locals fuel rest v ≡ some after))
          → (after : Walk) × (visit_functions cg locals fuel ((f, info) ∷ rest) w ≡ some after)
      go visiting s ih = let (after, eq) = ih w h in (after, rw (visit_functions, s) eq)
      go visited s ih = let (after, eq) = ih w h in (after, rw (visit_functions, s) eq)
      go not_visited s ih =
          let (e, mid, eq, le) = dfs_ends fuel f w all.0 h in
          let (after, eq') = ih mid (omega arith) in (after, rw (visit_functions, s, eq) eq')

pub AllHave-map :
    (xs ys cs : List ℕ)
    → ((c : ℕ) → has xs c ≡ true → has ys c ≡ true)
    → AllHave xs cs
    → AllHave ys cs
AllHave-map xs ys [] h all = tt
AllHave-map xs ys (c ∷ cs) h all = (h c all.0, AllHave-map xs ys cs h all.1)

AllHave-self : (cs : List ℕ) → AllHave cs cs
AllHave-self [] = tt
AllHave-self (c ∷ cs) =
    (ground arith, AllHave-map cs (c ∷ cs) cs (λ x h. ground arith) (AllHave-self cs))

pub callees-graph_nodes : (cg : CallGraph) (f : ℕ) → AllHave (graph_nodes cg) (callees cg f)
unfolding graph_nodes callees lookup
callees-graph_nodes [] f = tt
callees-graph_nodes ((g, cs) ∷ cg) f = elim (Bool-cases (g == f)) [
  | inl here ↦
      rw (callees, lookup, here)
        (AllHave-map cs (g ∷ cs ++ graph_nodes cg) cs
          (λ c h. ground (arith, has-append cs (graph_nodes cg) c)) (AllHave-self cs))
  | inr there ↦
      rw (callees, lookup, there)
        (AllHave-map (graph_nodes cg) (g ∷ cs ++ graph_nodes cg) (callees cg f)
          (λ c h. ground (arith, has-append cs (graph_nodes cg) c)) (callees-graph_nodes cg f))
]

pub callees-nodes :
    (cg : CallGraph) (locals : Assoc LocalStackInfo) (f : ℕ)
    → AllHave (nodes cg locals) (callees cg f)
callees-nodes cg locals f =
    AllHave-map (graph_nodes cg) (nodes cg locals) (callees cg f)
      (λ c h. ground (arith, has-append (local_keys locals) (graph_nodes cg) c))
      (callees-graph_nodes cg f)

unseen-le-length : (ns : List ℕ) (m : Assoc VisitState) → unseen ns m ≤ length ns
unseen-le-length [] m = omega arith
unseen-le-length (f ∷ ns) m = le (state_of m f) (unseen-le-length ns m)
  where
    le : (v : VisitState) → unseen ns m ≤ length ns → is_new v + unseen ns m ≤ suc (length ns)
    le not_visited h = omega arith
    le visiting h = omega arith
    le visited h = omega arith

distinct-has : (ns : List ℕ) (f : ℕ) → has (distinct ns) f ≡ has ns f
unfolding distinct
distinct-has [] f = refl
distinct-has (n ∷ ns) f = elim (Bool-cases (has (distinct ns) n)) [
  | inr new ↦ rw (distinct, new) (ap (λ b. n == f || b) (distinct-has ns f))
  | inl again ↦ elim (Bool-cases (n == f)) [
    | inr other ↦ rw (distinct, again, other) (distinct-has ns f)
    | inl here ↦
        let same : n ≡ f = (==_iff n f).0 here in
        rw (distinct, again, here) (subst (λ g. has (distinct ns) g ≡ true) same again)
  ]
]

-- The walk of `computeGlobalStackUsage` ends on every call graph, with cycles or without, if the number
-- of nested calls allowed is above the length of some list in which each function occurs that the
-- graph or the local stacks name, so of the list that has each of them once.
pub visit_functions-nodes :
    (cg : CallGraph) (locals : Assoc LocalStackInfo) (functions : List ℕ) (fuel : ℕ)
    → ((f : ℕ) → has (nodes cg locals) f ≡ true → has functions f ≡ true)
    → length functions < fuel
    → (w : Walk) × (visit_functions cg locals fuel locals start ≡ some w)
visit_functions-nodes cg locals functions fuel all h =
    visit_functions_ends cg locals functions
      (λ f. AllHave-map (nodes cg locals) functions (callees cg f) all (callees-nodes cg locals f))
      fuel locals start
      (AllHave-map (local_keys locals) functions (local_keys locals)
        (λ c m. all c (ground (arith, has-append (local_keys locals) (graph_nodes cg) c)))
        (AllHave-self (local_keys locals)))
      (omega (arith, unseen-le-length functions start.state))

pub global_walk_ends :
    (cg : CallGraph) (locals : Assoc LocalStackInfo)
    → (w : Walk) × (visit_functions cg locals
          (suc (length (distinct (nodes cg locals))))
          locals
          start
        ≡ some w)
global_walk_ends cg locals =
    visit_functions-nodes cg locals (distinct (nodes cg locals))
      (suc (length (distinct (nodes cg locals)))) (λ c m. distinct-has (nodes cg locals) c ∙ m)
      (omega arith)

-- `computeGlobalStackUsage` answers on every call graph.
pub compute_global_stack_usage_ends :
    (cg : CallGraph) (locals : Assoc LocalStackInfo)
    → (totals : Assoc StackEstimate) × (compute_global_stack_usage cg locals ≡ some totals)
unfolding compute_global_stack_usage
compute_global_stack_usage_ends cg locals =
    let (w, e) = global_walk_ends cg locals in
    (w.total_stack, rw (compute_global_stack_usage, e) refl)
