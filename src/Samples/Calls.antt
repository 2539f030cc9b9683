-- ===== src/Samples/Calls.antt =====
-- Stack totals on call graphs with a diamond and with a cycle.
use native.Mathlib.Nat.{mod-add-div', mod-lt, mul-mod_left}
use coretrace_stack_analyzer.Prelude.{
  ℕ, suc, length, ◌⊎◌, ◌↔◌, ◌≡◌, refl, true, false, some, [], ◌∷◌, ◌==◌, ==_iff, arith, Assoc,
  lookup, insert, has, Bool-cases, inl, inr, subst, ◌-◌, ◌+◌, ◌*◌, ◌/◌, ◌%◌, ◌^◌, ◌<◌, ◌≤◌, some,
  List,
}
use coretrace_stack_analyzer.StackUsage.{
  LocalStackInfo, no_stack, CallGraph, compute_local_stack_base, compute_local_stack_abi,
}
use coretrace_stack_analyzer.StackUsage.Local.{IsAlignTo, CallsOther, compute_local_stack_abi_lem}
use coretrace_stack_analyzer.StackUsage.Local.Base.{
  sum_of_allocas, HasDynamic, compute_local_stack_base_lem,
}
use coretrace_stack_analyzer.StackUsage.Totals.Paths.{max_stack_path}
use coretrace_stack_analyzer.StackUsage.Totals.Paths.Trail.{NoRepeat, IsTrail, max_stack_path_lem}
use coretrace_stack_analyzer.Ir.{
  Callee, Function, alloca, call, return, jumps, instructions, block_instructions,
}
use coretrace_stack_analyzer.IntRanges.{constant_int}
use coretrace_stack_analyzer.Prelude.Int.{pos}
use coretrace_stack_analyzer.Prelude.Text.{codes}
use coretrace_stack_analyzer.StackUsage.Totals.{
  Walk, start, nodes, distinct, visit_functions, StackEstimate, estimate_of,
  compute_global_stack_usage, graph_nodes, callees, local_keys,
}
use coretrace_stack_analyzer.StackUsage.Totals.Ends.{visit_functions-nodes}
use coretrace_stack_analyzer.StackUsage.Totals.Reference.{AllBelow, IsRank}
use coretrace_stack_analyzer.StackUsage.Totals.Most.{bytes_at, unknown_at}
use coretrace_stack_analyzer.StackUsage.Totals.Correct.{compute_global_stack_usage-bytes_at}

abbrev uses : ℕ → LocalStackInfo
uses n = record no_stack { bytes = n }

-- 1 calls 2 and 3, both of which call 4.
abbrev diamond : CallGraph
diamond = (1, 2 ∷ 3 ∷ []) ∷ (2, 4 ∷ []) ∷ (3, 4 ∷ []) ∷ (4, []) ∷ []

abbrev diamond_locals : Assoc LocalStackInfo
diamond_locals = (1, uses 16) ∷ (2, uses 32) ∷ (3, uses 48) ∷ (4, uses 64) ∷ []

abbrev diamond_rank : ℕ → ℕ
diamond_rank f = 4 - f

diamond-IsRank : IsRank diamond diamond_rank
unfolding callees lookup
diamond-IsRank f = elim (Bool-cases (1 == f)) [
  | inl one ↦
      let same : 1 ≡ f = (==_iff 1 f).0 one in
      subst (λ g. AllBelow diamond_rank (diamond_rank g) (callees diamond g)) same
        (omega arith, (omega arith, tt))
  | inr n1 ↦ elim (Bool-cases (2 == f)) [
    | inl two ↦
        let same : 2 ≡ f = (==_iff 2 f).0 two in
        subst (λ g. AllBelow diamond_rank (diamond_rank g) (callees diamond g)) same
          (omega arith, tt)
    | inr n2 ↦ elim (Bool-cases (3 == f)) [
      | inl three ↦
          let same : 3 ≡ f = (==_iff 3 f).0 three in
          subst (λ g. AllBelow diamond_rank (diamond_rank g) (callees diamond g)) same
            (omega arith, tt)
      | inr n3 ↦ elim (Bool-cases (4 == f)) [
        | inl four ↦ rw (callees, lookup, n1, n2, n3, four) tt
        | inr n4 ↦ rw (callees, lookup, n1, n2, n3, n4) tt
      ]
    ]
  ]
]

-- 5 and 6 call each other.
abbrev cycle : CallGraph
cycle = (5, 6 ∷ []) ∷ (6, 5 ∷ []) ∷ []

abbrev cycle_locals : Assoc LocalStackInfo
cycle_locals = (5, uses 8) ∷ (6, uses 24) ∷ []

-- A call back to a function that is being visited counts its own stack once more.
cycle_run :
    compute_global_stack_usage cycle cycle_locals
    ≡ some (
        (6, record { bytes = 32; unknown = false })
        ∷ (5, record { bytes = 40; unknown = false })
        ∷ [])
unfolding compute_global_stack_usage lookup insert local_keys graph_nodes
cycle_run = refl

two_functions : length (distinct (nodes cycle cycle_locals)) ≡ 2
unfolding distinct local_keys graph_nodes
two_functions = refl

cycle_functions : (f : ℕ) → has (nodes cycle cycle_locals) f ≡ true → has (5 ∷ 6 ∷ []) f ≡ true
unfolding local_keys graph_nodes
cycle_functions f h = ground arith

visit_functions-nodes_example :
    (w : Walk) × (visit_functions cycle cycle_locals 3 cycle_locals start ≡ some w)
visit_functions-nodes_example =
    visit_functions-nodes cycle cycle_locals (5 ∷ 6 ∷ []) 3 cycle_functions (omega arith)

diamond_has : has (local_keys diamond_locals) 1 ≡ true
unfolding local_keys
diamond_has = refl

compute_global_stack_usage-bytes_at_example :
    (totals : Assoc StackEstimate) × (compute_global_stack_usage diamond diamond_locals
      ≡ some totals)
    × ((estimate_of totals 1).bytes ≡ bytes_at diamond diamond_locals (suc (diamond_rank 1)) 1)
    × ((estimate_of totals 1).unknown ≡ unknown_at diamond diamond_locals (suc (diamond_rank 1)) 1)
compute_global_stack_usage-bytes_at_example =
    compute_global_stack_usage-bytes_at diamond diamond_locals diamond_rank 1 diamond-IsRank
      diamond_has

-- The larger way is by 3: 16, 48 and 64.
diamond_total : bytes_at diamond diamond_locals (suc (diamond_rank 1)) 1 ≡ 128
unfolding bytes_at lookup callees
diamond_total = refl

abbrev cycle_totals : Assoc StackEstimate
cycle_totals =
    (6, record { bytes = 32; unknown = false }) ∷ (5, record { bytes = 40; unknown = false }) ∷ []

-- The path around the cycle stops before it would come back.
cycle_path : max_stack_path cycle cycle_totals 5 ≡ some (5 ∷ 6 ∷ [])
unfolding max_stack_path lookup estimate_of graph_nodes
cycle_path = refl

max_stack_path_lem_example :
    (path : List ℕ) × (max_stack_path cycle cycle_totals 5 ≡ some path)
    × NoRepeat [] path
    × IsTrail cycle cycle_totals path
max_stack_path_lem_example = max_stack_path_lem cycle cycle_totals 5

-- The next multiple, for what fits.
abbrev align_up : ℕ → ℕ → ℕ
align_up size align = (size + (align - 1)) / align * align

rounded_up :
    (size align rest whole : ℕ)
    → rest + whole ≡ size + (align - 1)
    → rest < align
    → (size ≤ whole) × (whole < size + align)
rounded_up size align rest whole e lt = (omega arith, omega arith)

align_up_bounds :
    (size align : ℕ)
    → 0 < align
    → (size ≤ align_up size align) × (align_up size align < size + align)
align_up_bounds size align p =
    rounded_up size align ((size + (align - 1)) % align) (align_up size align)
      (mod-add-div' (size + (align - 1)) align) (mod-lt (size + (align - 1)) p)

align_up-IsAlignTo : IsAlignTo align_up
align_up-IsAlignTo = record {
  multiple = λ size align p h. mul-mod_left ((size + (align - 1)) / align) align;
  not_less = λ size align p h. (align_up_bounds size align p).0;
  next = λ size align p h. (align_up_bounds size align p).1;
}

abbrev buffer_user : Function
buffer_user = record {
  address = 1;
  name = codes "f";
  is_declaration = false;
  no_recurse = false;
  blocks =
      record {
        instructions =
            alloca (codes "buffer") 4 (constant_int 9 (pos 5) 5)
            ∷ call (some (record { target = 2; is_declaration = false }))
            ∷ return
            ∷ [];
        terminator = jumps [];
      }
      ∷ [];
}

buffer_user_base : (compute_local_stack_base buffer_user).bytes ≡ 20
unfolding compute_local_stack_base block_instructions
buffer_user_base = refl

buffer_user_fits : (compute_local_stack_base buffer_user).bytes + 4 * 16 < 2 ^ 64
buffer_user_fits = omega (arith, buffer_user_base)

-- 20 bytes, aligned to 32, and 16 more for the call.
buffer_user_frame : (compute_local_stack_abi align_up buffer_user (some 16)).bytes ≡ 48
unfolding compute_local_stack_abi block_instructions
buffer_user_frame = refl

compute_local_stack_abi_lem_example :
    ((compute_local_stack_abi align_up buffer_user (some 16)).bytes % 16 ≡ 0)
    × ((compute_local_stack_base buffer_user).bytes
        ≤ (compute_local_stack_abi align_up buffer_user (some 16)).bytes)
    × (buffer_user.is_declaration ≡ false
        → 16 ≤ (compute_local_stack_abi align_up buffer_user (some 16)).bytes)
    × ((((callee : Callee) × CallsOther buffer_user callee)
          × ((compute_local_stack_base buffer_user).bytes + 16
              ≤ (compute_local_stack_abi align_up buffer_user (some 16)).bytes)
          × ((compute_local_stack_abi align_up buffer_user (some 16)).bytes
              < (compute_local_stack_base buffer_user).bytes + 3 * 16))
        ⊎ (((callee : Callee) → ¬ CallsOther buffer_user callee)
            × ((compute_local_stack_abi align_up buffer_user (some 16)).bytes
                ≤ (compute_local_stack_base buffer_user).bytes + 16)))
compute_local_stack_abi_lem_example =
    compute_local_stack_abi_lem align_up buffer_user 16 align_up-IsAlignTo (omega arith)
      buffer_user_fits

compute_local_stack_base_lem_example :
    ((compute_local_stack_base buffer_user).bytes
      ≡ sum_of_allocas (instructions buffer_user) (instructions buffer_user) % 2 ^ 64)
    × (((compute_local_stack_base buffer_user).has_dynamic_alloca ≡ true)
        ↔ HasDynamic (instructions buffer_user) (instructions buffer_user))
    × (((compute_local_stack_base buffer_user).unknown ≡ true)
        ↔ HasDynamic (instructions buffer_user) (instructions buffer_user))
compute_local_stack_base_lem_example = compute_local_stack_base_lem buffer_user
