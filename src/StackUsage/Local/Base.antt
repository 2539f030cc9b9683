-- ===== src/StackUsage/Local/Base.antt =====
-- What the allocas of a function add up to.
use mathlib.Core.List.{Memᴰ}
use mathlib.Core.List.Memᴰ
use coretrace_stack_analyzer.Prelude.{
  ℕ, ◌+◌, ◌*◌, ◌%◌, ◌^◌, ◌≡◌, refl, sym, ◌∙◌, ap, true, false, List, [], ◌∷◌, ◌++◌, Option, none,
  some, arith, ◌↔◌, Option-cases, inl, inr, ◌⊎◌,
}
use coretrace_stack_analyzer.Prelude.Text.{Text}
use coretrace_stack_analyzer.IntRanges.{IrValue}
use coretrace_stack_analyzer.Ir.{
  BlockInstruction, alloca, store, call, return, other_instruction, Function, instructions,
}
use coretrace_stack_analyzer.StackUsage.{
  wrap, LocalStackInfo, no_stack, try_get_const_from_value, add_alloca, add_allocas,
  compute_local_stack_base,
}

-- So many elements of the size, none where the number is not known.
abbrev pub array_bytes : ℕ → Option ℕ → ℕ
array_bytes type_size none = 0
array_bytes type_size (some count) = type_size * count

abbrev pub sum_of_allocas : List BlockInstruction → List BlockInstruction → ℕ
sum_of_allocas is [] = 0
sum_of_allocas is (alloca name type_size array_size ∷ rest) =
    array_bytes type_size (try_get_const_from_value array_size is) + sum_of_allocas is rest
sum_of_allocas is (_ ∷ rest) = sum_of_allocas is rest

-- Some alloca of these has a size for which no constant is found in the function.
abbrev pub HasDynamic : List BlockInstruction → List BlockInstruction → Type 0
HasDynamic is rest =
    (name : Text) × (type_size : ℕ) × (array_size : IrValue) × Memᴰ
      (alloca name type_size array_size) rest
    × (try_get_const_from_value array_size is ≡ none)

abbrev pub array_size_of : BlockInstruction → Option IrValue
array_size_of (alloca name type_size array_size) = some array_size
array_size_of i = none

no_allocas : (is : List BlockInstruction) → HasDynamic is [] → ⊥
no_allocas is (n, t, a, m, e) = Memᴰ.not-nil m

later_alloca :
    (is : List BlockInstruction) (i : BlockInstruction) (rest : List BlockInstruction)
    → HasDynamic is rest
    → HasDynamic is (i ∷ rest)
later_alloca is i rest (n, t, a, m, e) = (n, t, a, Memᴰ.tail m, e)

-- An alloca behind the first instruction, where the first has a constant size or is no alloca.
first_or_later :
    (is : List BlockInstruction) (i : BlockInstruction) (rest : List BlockInstruction)
    → ((a : IrValue) → array_size_of i ≡ some a → try_get_const_from_value a is ≡ none → ⊥)
    → HasDynamic is (i ∷ rest)
    → HasDynamic is rest
first_or_later is i rest constant (n, t, a, m, e) = elim (Memᴰ.cases_cons m) [
  | inl same ↦ absurd (constant a (ap array_size_of (sym same)) e)
  | inr later ↦ (n, t, a, later, e)
]

skip_iff :
    (D P : Type 0) (is : List BlockInstruction) (i : BlockInstruction)
    (rest : List BlockInstruction)
    → ((a : IrValue) → array_size_of i ≡ some a → try_get_const_from_value a is ≡ none → ⊥)
    → (D ↔ (P ⊎ HasDynamic is rest))
    → D ↔ (P ⊎ HasDynamic is (i ∷ rest))
skip_iff D P is i rest constant (to, from) = (
  λ d. elim (to d) [ inl p ↦ inl p | inr later ↦ inr (later_alloca is i rest later) ],
  λ h. elim h [
    | inl p ↦ from (inl p)
    | inr found ↦ from (inr (first_or_later is i rest constant found))
  ],
)

wrap_twice : (a b c : ℕ) → wrap (wrap (a + wrap b) + c) ≡ wrap (a + (b + c))
wrap_twice a b c = omega arith

no_bytes : (n : ℕ) → n ≡ 0 + n
no_bytes n = omega arith

wrap_is_small : (a : ℕ) → wrap (wrap a) ≡ wrap a
wrap_is_small a = omega arith

-- What the loop over the rest of the instructions adds to what it has.
abbrev Adds : List BlockInstruction → LocalStackInfo → List BlockInstruction → Type 0
Adds is info rest =
    (wrap info.bytes ≡ info.bytes
      → (add_allocas is info rest).bytes ≡ wrap (info.bytes + sum_of_allocas is rest))
    × (((add_allocas is info rest).has_dynamic_alloca ≡ true)
        ↔ ((info.has_dynamic_alloca ≡ true) ⊎ HasDynamic is rest))
    × (info.unknown ≡ info.has_dynamic_alloca
        → (add_allocas is info rest).unknown ≡ (add_allocas is info rest).has_dynamic_alloca)

skip_other :
    (is : List BlockInstruction) (info : LocalStackInfo) (i : BlockInstruction)
    (rest : List BlockInstruction)
    → array_size_of i ≡ none
    → Adds is info rest
    → (wrap info.bytes ≡ info.bytes
        → (add_allocas is info rest).bytes ≡ wrap (info.bytes + sum_of_allocas is rest))
      × (((add_allocas is info rest).has_dynamic_alloca ≡ true)
          ↔ ((info.has_dynamic_alloca ≡ true) ⊎ HasDynamic is (i ∷ rest)))
      × (info.unknown ≡ info.has_dynamic_alloca
          → (add_allocas is info rest).unknown ≡ (add_allocas is info rest).has_dynamic_alloca)
skip_other is info i rest other (b, iff, u) =
    (b, skip_iff _ _ is i rest (λ a e e'. absurd (cc (other, e))) iff, u)

add_allocas_lem :
    (is : List BlockInstruction) (info : LocalStackInfo) (rest : List BlockInstruction)
    → Adds is info rest
unfolding add_allocas add_alloca
add_allocas_lem is info [] = (
  λ small. omega (arith, small),
  (λ h. inl h, λ h. elim h [ inl d ↦ d | inr none_left ↦ absurd (no_allocas is none_left) ]),
  λ h. h,
)
add_allocas_lem is info (alloca name type_size array_size ∷ rest) =
    elim (Option-cases (try_get_const_from_value array_size is)) [
      | inl dynamic ↦
          let (b, (to, from), u) =
            add_allocas_lem is (record info { has_dynamic_alloca = true; unknown = true }) rest in
          rw (add_allocas, add_alloca, dynamic)
            (
              λ small.
                  b small ∙ ap (λ n. wrap (info.bytes + n)) (no_bytes (sum_of_allocas is rest)),
              (
                λ d. inr (name, type_size, array_size, Memᴰ.head refl, dynamic),
                λ h. from (inl refl),
              ),
              λ h. u refl,
            )
      | inr (count, e) ↦
          let (b, iff, u) =
            add_allocas_lem is
              (record info {
                bytes = wrap (info.bytes + wrap (type_size * count));
                local_allocas = info.local_allocas ++ (name, wrap (type_size * count)) ∷ [];
              })
              rest in
          rw (add_allocas, add_alloca, e)
            (
              λ small.
                  b (wrap_is_small (info.bytes + wrap (type_size * count)))
                  ∙ wrap_twice info.bytes (type_size * count) (sum_of_allocas is rest),
              skip_iff _ _ is (alloca name type_size array_size) rest
                  (λ a same missing. absurd (cc (same, missing, e))) iff,
              u,
            )
    ]
add_allocas_lem is info (store a b ∷ rest) =
    skip_other is info (store a b) rest refl (add_allocas_lem is info rest)
add_allocas_lem is info (call c ∷ rest) =
    skip_other is info (call c) rest refl (add_allocas_lem is info rest)
add_allocas_lem is info (return ∷ rest) =
    skip_other is info return rest refl (add_allocas_lem is info rest)
add_allocas_lem is info (other_instruction ∷ rest) =
    skip_other is info other_instruction rest refl (add_allocas_lem is info rest)

-- For every function the bytes of `computeLocalStackBase` are, as a 64-bit number, the sum over its
-- allocas with a constant array size of the type's size times that number; it has a dynamic alloca
-- exactly if no constant is found for the array size of some alloca; and its stack is unknown
-- exactly then.
pub compute_local_stack_base_lem :
    (f : Function)
    → ((compute_local_stack_base f).bytes
        ≡ sum_of_allocas (instructions f) (instructions f) % 2 ^ 64)
      × (((compute_local_stack_base f).has_dynamic_alloca ≡ true)
          ↔ HasDynamic (instructions f) (instructions f))
      × (((compute_local_stack_base f).unknown ≡ true)
          ↔ HasDynamic (instructions f) (instructions f))
unfolding compute_local_stack_base
compute_local_stack_base_lem f =
    let (b, (to, from), u) = add_allocas_lem (instructions f) no_stack (instructions f) in
    let dynamic = λ (d : (compute_local_stack_base f).has_dynamic_alloca ≡ true).
      from_none (instructions f) (to d) in
    (
      b refl ∙ ap wrap (sym (no_bytes (sum_of_allocas (instructions f) (instructions f)))),
      (dynamic, λ h. from (inr h)),
      (λ d. dynamic (sym (u refl) ∙ d), λ h. u refl ∙ from (inr h)),
    )
  where
    from_none : (is : List BlockInstruction) → (false ≡ true) ⊎ HasDynamic is is → HasDynamic is is
    from_none is (inl e) = absurd (cc (e))
    from_none is (inr h) = h
