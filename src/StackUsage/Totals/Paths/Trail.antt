-- ===== src/StackUsage/Totals/Paths/Trail.antt =====
-- The path ends, visits no function twice and always takes a callee with the most stack.
use coretrace_stack_analyzer.Prelude.{
  ℕ, zero, suc, ◌+◌, ◌≤◌, ◌<◌, ◌≡◌, refl, sym, ap, ◌∙◌, subst, true, false, ◌||◌, Option, none,
  some, List, [], ◌∷◌, ◌==◌, ==_iff, arith, ltb, length, Bool-cases, Option-cases, inl, inr,
  if◌then◌else◌, Assoc, lookup, has,
}
use coretrace_stack_analyzer.StackUsage.{CallGraph}
use coretrace_stack_analyzer.StackUsage.Totals.{StackEstimate, estimate_of, graph_nodes, callees}
use coretrace_stack_analyzer.StackUsage.Totals.Ends.{AllHave, AllHave-map, callees-graph_nodes}
use coretrace_stack_analyzer.StackUsage.Totals.Paths.{
  best_callee, next_function, call_path, max_stack_path,
}

module _ (totals : Assoc StackEstimate) where
  abbrev pub stack_of : ℕ → ℕ
  stack_of f = (estimate_of totals f).bytes

  -- No callee of the list has more stack.
  abbrev pub IsMost : List ℕ → ℕ → Type 0
  IsMost [] bytes = Unit
  IsMost (c ∷ cs) bytes = (stack_of c ≤ bytes) × IsMost cs bytes

  best_callee-some :
      (cs : List ℕ) (b best : ℕ) (most stack : StackEstimate)
      → most ≡ estimate_of totals b
      → best_callee totals cs (some (b, most)) ≡ some (best, stack)
      → (stack ≡ estimate_of totals best)
        × ((b == best) || has cs best ≡ true)
        × (most.bytes ≤ stack.bytes)
        × IsMost cs stack.bytes
  unfolding best_callee
  best_callee-some [] b best most stack e h =
      let same : ◌≡◌ {A = ℕ × StackEstimate} (b, most) (best, stack) = cc in
      let here : b ≡ best = ap (λ p. p.0) same in
      let kept : most ≡ stack = ap (λ p. p.1) same in
      (
        sym kept ∙ e ∙ ap (estimate_of totals) here,
        ground arith,
        omega (arith, ap (λ t. t.bytes) kept),
        tt,
      )
  best_callee-some (c ∷ cs) b best most stack e h =
      elim (Bool-cases (ltb most.bytes (stack_of c))) [
        | inl more ↦
            let (e', m, le, all) =
              best_callee-some cs c best (estimate_of totals c) stack refl
                (rw (best_callee, more) at h) in
            (e', ground arith, ground arith, (le, all))
        | inr less ↦
            let (e', m, le, all) =
              best_callee-some cs b best most stack e (rw (best_callee, less) at h) in
            (e', ground arith, le, (ground arith, all))
      ]

  best_callee-none :
      (cs : List ℕ) (best : ℕ) (stack : StackEstimate)
      → best_callee totals cs none ≡ some (best, stack)
      → (stack ≡ estimate_of totals best) × (has cs best ≡ true) × IsMost cs stack.bytes
  unfolding best_callee
  best_callee-none [] best stack h = absurd (cc)
  best_callee-none (c ∷ cs) best stack h =
      let (e, m, le, all) = best_callee-some cs c best (estimate_of totals c) stack refl h in
      (e, m, (le, all))

-- The second function is a callee of the first, none of the callees has more stack, and it has some.
abbrev pub IsNext : CallGraph → Assoc StackEstimate → ℕ → ℕ → Type 0
IsNext cg totals f next =
    (has (callees cg f) next ≡ true)
    × IsMost totals (callees cg f) (stack_of totals next)
    × (0 < stack_of totals next)

abbrev pub IsTrail : CallGraph → Assoc StackEstimate → List ℕ → Type 0
IsTrail cg totals [] = Unit
IsTrail cg totals (f ∷ []) = Unit
IsTrail cg totals (f ∷ next ∷ path) = IsNext cg totals f next × IsTrail cg totals (next ∷ path)

abbrev pub NoRepeat : List ℕ → List ℕ → Type 0
NoRepeat visited [] = Unit
NoRepeat visited (f ∷ path) = (has visited f ≡ false) × NoRepeat (f ∷ visited) path

-- The functions of the list that are not visited.
abbrev unvisited : List ℕ → List ℕ → ℕ
unvisited [] visited = 0
unvisited (f ∷ fs) visited = (if has visited f then 0 else 1) + unvisited fs visited

unvisited_le : (ns visited : List ℕ) (f : ℕ) → unvisited ns (f ∷ visited) ≤ unvisited ns visited
unvisited_le [] visited f = omega arith
unvisited_le (g ∷ ns) visited f = ground (arith, unvisited_le ns visited f)

unvisited_lt :
    (ns visited : List ℕ) (f : ℕ)
    → has ns f ≡ true
    → has visited f ≡ false
    → unvisited ns (f ∷ visited) < unvisited ns visited
unvisited_lt [] visited f h n = absurd (cc)
unvisited_lt (g ∷ ns) visited f h n = elim (Bool-cases (g == f)) [
  | inl here ↦
      let same : g ≡ f = (==_iff g f).0 here in
      let le = unvisited_le ns visited f in
      let old : has visited g ≡ false = subst (λ x. has visited x ≡ false) (sym same) n in
      ground (arith, le)
  | inr there ↦ let lt = unvisited_lt ns visited f (ground arith) n in ground arith
]

unvisited-le-length : (ns : List ℕ) → unvisited ns [] ≤ length ns
unvisited-le-length [] = omega arith
unvisited-le-length (n ∷ ns) = omega (arith, unvisited-le-length ns)

AllHave-has : (ns cs : List ℕ) (f : ℕ) → AllHave ns cs → has cs f ≡ true → has ns f ≡ true
AllHave-has ns [] f all h = absurd (cc)
AllHave-has ns (c ∷ cs) f all h = elim (Bool-cases (c == f)) [
  | inl here ↦ subst (λ g. has ns g ≡ true) ((==_iff c f).0 here) all.0
  | inr there ↦ AllHave-has ns cs f all.1 (ground arith)
]

positive : (n : ℕ) → (n == 0) ≡ false → 0 < n
positive n h = ground arith

module _ (cg : CallGraph) (totals : Assoc StackEstimate) where
  next_function-IsNext :
      (f next : ℕ) → next_function cg totals f ≡ some next → IsNext cg totals f next
  unfolding next_function callees
  next_function-IsNext f next h = go (lookup cg f) refl
    where
      go : (o : Option (List ℕ)) → lookup cg f ≡ o → IsNext cg totals f next
      go none e = absurd (cc (rw (next_function, e) at h))
      go (some cs) e = best (best_callee totals cs none) refl
        where
          best :
              (b : Option (ℕ × StackEstimate))
              → best_callee totals cs none ≡ b
              → IsNext cg totals f next
          best none e' = absurd (cc (rw (next_function, e, e') at h))
          best (some (c, stack)) e' =
              let (right, m, all) = best_callee-none totals cs c stack e' in
              elim (Bool-cases (stack.bytes == 0)) [
                | inl nothing ↦ absurd (cc (simp (next_function, e, e', nothing) at h))
                | inr some_bytes ↦
                    let same : c ≡ next = cc (simp (next_function, e, e', some_bytes) at h) in
                    let bytes : stack.bytes ≡ stack_of totals next =
                      ap (λ t. t.bytes) right ∙ ap (stack_of totals) same in
                    rw (callees, e)
                      (
                        subst (λ g. has cs g ≡ true) same m,
                        subst (IsMost totals cs) bytes all,
                        omega (arith, positive stack.bytes some_bytes),
                      )
              ]

  -- The path that the loop takes from `current` on.
  record IsPath (fuel : ℕ) (visited : List ℕ) (current : ℕ) : Type 0 where
    path : List ℕ
    runs : call_path cg totals fuel visited current ≡ some path
    new : NoRepeat visited path
    trail : (f : ℕ) → IsNext cg totals f current → IsTrail cg totals (f ∷ path)
    tail : IsTrail cg totals path

  call_path_lem :
      (ns : List ℕ) (fuel : ℕ) (visited : List ℕ) (current : ℕ)
      → ((f : ℕ) → AllHave ns (callees cg f))
      → has ns current ≡ true
      → unvisited ns visited < fuel
      → IsPath fuel visited current
  unfolding call_path
  call_path_lem ns zero visited current closed m lt = absurd (omega arith)
  call_path_lem ns (suc fuel) visited current closed m lt =
      elim (Bool-cases (has visited current)) [
        | inl old ↦ record {
          path = [];
          runs = rw (call_path, old) refl;
          new = tt;
          trail = λ f n. tt;
          tail = tt;
        }
        | inr new ↦ elim (Option-cases (next_function cg totals current)) [
          | inl ends ↦ record {
            path = current ∷ [];
            runs = rw (call_path, new, ends) refl;
            new = (new, tt);
            trail = λ f n. (n, tt);
            tail = tt;
          }
          | inr (next, e) ↦
              let step = next_function-IsNext current next e in
              let fewer = unvisited_lt ns visited current m new in
              let rest =
                call_path_lem ns fuel (current ∷ visited) next closed
                  (AllHave-has ns (callees cg current) next (closed current) step.0)
                  (omega arith) in
              record {
                path = current ∷ rest.path;
                runs = rw (call_path, new, e, rest.runs) refl;
                new = (new, rest.new);
                trail = λ f n. (n, rest.trail current step);
                tail = rest.trail current step;
              }
        ]
      ]

-- The path of `buildMaxStackCallPath` exists for every call graph, with cycles or without: it visits
-- no function twice, and behind each function stands a callee of it with the most stack, which is
-- not nothing.
pub max_stack_path_lem :
    (cg : CallGraph) (totals : Assoc StackEstimate) (f : ℕ)
    → (path : List ℕ) × (max_stack_path cg totals f ≡ some path)
      × NoRepeat [] path
      × IsTrail cg totals path
unfolding max_stack_path
max_stack_path_lem cg totals f =
    let p =
      call_path_lem cg totals (f ∷ graph_nodes cg) (suc (suc (length (graph_nodes cg)))) [] f
        (λ g.
          AllHave-map (graph_nodes cg) (f ∷ graph_nodes cg) (callees cg g) (λ c h. ground arith)
            (callees-graph_nodes cg g))
        (ground arith) (omega (arith, unvisited-le-length (f ∷ graph_nodes cg))) in
    (p.path, p.runs, p.new, p.tail)
