-- ===== src/StackUsage/Totals/Most.antt =====
-- What the stack below a function is, said with the greatest of a list and apart from the code.
use coretrace_stack_analyzer.Prelude.{
  ℕ, zero, suc, ◌+◌, ◌%◌, ◌^◌, max, ◌≡◌, refl, ap, ap₂, ◌∙◌, Bool, false, ◌||◌, none, some, List,
  [], ◌∷◌, arith, ltb, if◌then◌else◌, Assoc, lookup, Option,
}
use coretrace_stack_analyzer.StackUsage.{LocalStackInfo, CallGraph}
use coretrace_stack_analyzer.StackUsage.Totals.{
  StackEstimate, no_estimate, callees, join, add_local, local_estimate,
}
use coretrace_stack_analyzer.StackUsage.Totals.Reference.{join_all, total_at, stack_below}

-- The greatest of the values, 0 of none.
abbrev pub greatest : (ℕ → ℕ) → List ℕ → ℕ
greatest value [] = 0
greatest value (c ∷ cs) = max (value c) (greatest value cs)

abbrev pub some_holds : (ℕ → Bool) → List ℕ → Bool
some_holds test [] = false
some_holds test (c ∷ cs) = test c || some_holds test cs

abbrev pub own_bytes : Option LocalStackInfo → ℕ
own_bytes none = 0
own_bytes (some info) = info.bytes

abbrev pub own_unknown : Option LocalStackInfo → Bool
own_unknown none = false
own_unknown (some info) = info.unknown

module _ (cg : CallGraph) (locals : Assoc LocalStackInfo) where
  -- The function's own frame and the greatest stack below a callee, as 64-bit numbers; calls nested
  -- deeper than `n` are not counted.
  unfoldable pub bytes_at : ℕ → ℕ → ℕ
  bytes_at zero f = 0
  bytes_at (suc n) f = (own_bytes (lookup locals f) + greatest (bytes_at n) (callees cg f)) % 2 ^ 64

  unfoldable pub unknown_at : ℕ → ℕ → Bool
  unknown_at zero f = false
  unknown_at (suc n) f = own_unknown (lookup locals f) || some_holds (unknown_at n) (callees cg f)

larger : (a b : ℕ) → (if ltb a b then b else a) ≡ max a b
larger a b = ground arith

either : (a most b rest : Bool) → a ≡ b → ((a || most) || rest) ≡ (most || (b || rest))
either a most b rest e = ground arith

join_all-greatest :
    (total : ℕ → StackEstimate) (bytes : ℕ → ℕ) (unknown : ℕ → Bool) (cs : List ℕ)
    (most : StackEstimate)
    → ((c : ℕ) → ((total c).bytes ≡ bytes c) × ((total c).unknown ≡ unknown c))
    → ((join_all total cs most).bytes ≡ max most.bytes (greatest bytes cs))
      × ((join_all total cs most).unknown ≡ (most.unknown || some_holds unknown cs))
unfolding join_all join
join_all-greatest total bytes unknown [] most h = (omega arith, ground arith)
join_all-greatest total bytes unknown (c ∷ cs) most h =
    let (b, u) = join_all-greatest total bytes unknown cs (join most (total c)) h in
    let (b', u') = h c in
    let most_of_two : (join most (total c)).bytes ≡ max most.bytes (bytes c) =
      larger most.bytes (total c).bytes ∙ ap (max most.bytes) b' in
    (omega arith, u ∙ either (total c).unknown most.unknown (unknown c) (some_holds unknown cs) u')

module _ (cg : CallGraph) (locals : Assoc LocalStackInfo) where
  local_estimate_own :
      (f : ℕ)
      → ((local_estimate cg locals f).bytes ≡ own_bytes (lookup locals f))
        × ((local_estimate cg locals f).unknown ≡ own_unknown (lookup locals f))
  unfolding local_estimate
  local_estimate_own f = go (lookup locals f) refl
    where
      go :
          (o : Option LocalStackInfo)
          → lookup locals f ≡ o
          → ((local_estimate cg locals f).bytes ≡ own_bytes (lookup locals f))
            × ((local_estimate cg locals f).unknown ≡ own_unknown (lookup locals f))
      go none e = rw (local_estimate, e) (refl, refl)
      go (some info) e = rw (local_estimate, e) (refl, refl)

  total_at-bytes_at :
      (n f : ℕ)
      → ((total_at cg locals n f).bytes ≡ bytes_at cg locals n f)
        × ((total_at cg locals n f).unknown ≡ unknown_at cg locals n f)
  unfolding total_at bytes_at unknown_at add_local
  total_at-bytes_at zero f = (refl, refl)
  total_at-bytes_at (suc n) f =
      let (own, own') = local_estimate_own f in
      let (b, u) =
        join_all-greatest (total_at cg locals n) (bytes_at cg locals n) (unknown_at cg locals n)
          (callees cg f) no_estimate (total_at-bytes_at n) in
      (ap₂ (λ x y. (x + y) % 2 ^ 64) own (b ∙ omega arith), ap₂ ◌||◌ own' u)

  pub stack_below-bytes_at :
      (rank : ℕ → ℕ) (f : ℕ)
      → ((stack_below cg locals rank f).bytes ≡ bytes_at cg locals (suc (rank f)) f)
        × ((stack_below cg locals rank f).unknown ≡ unknown_at cg locals (suc (rank f)) f)
  unfolding stack_below
  stack_below-bytes_at rank f = total_at-bytes_at (suc (rank f)) f
