-- ===== src/StackUsage/Local.antt =====
-- The frame of one function: what its allocas add up to, and what alignment makes of it.
pub mod Base
use native.Mathlib.Nat.{mod_self, mod-eq_of_lt}
use mathlib.Core.List.{Memᴰ}
use mathlib.Core.List.Memᴰ
use coretrace_stack_analyzer.Prelude.{
  none, List, [], ◌∷◌, not, ◌&&◌, ◌||◌, ◌≢◌, ◌⊎◌, ℕ, ◌+◌, ◌*◌, ◌/◌, ◌%◌, ◌^◌, ◌≤◌, ◌<◌, ◌≡◌, refl,
  sym, subst, Bool, true, false, some, arith, ltb, lt→ltb, ltb→lt, ◌==◌, Bool-cases, inl, inr,
}
use coretrace_stack_analyzer.Ir.{
  Callee, BlockInstruction, alloca, store, call, return, other_instruction, Function, instructions,
}
use coretrace_stack_analyzer.StackUsage.{
  wrap, compute_local_stack_base, has_non_self_call, align_frame, least_frame, call_frame,
  compute_local_stack_abi, compute_local_stack_ir, compute_alloca_large_threshold,
}

-- What LLVM documents of `alignTo`: the next multiple of the alignment, while it fits in 64 bits.
pub record IsAlignTo (align_to : ℕ → ℕ → ℕ) : Type 0 where
  pub multiple :
      (size align : ℕ) → 0 < align → size + align < 2 ^ 64 → align_to size align % align ≡ 0
  pub not_less : (size align : ℕ) → 0 < align → size + align < 2 ^ 64 → size ≤ align_to size align
  pub next :
      (size align : ℕ) → 0 < align → size + align < 2 ^ 64 → align_to size align < size + align

module _ (align_to : ℕ → ℕ → ℕ) (h : IsAlignTo align_to) (is_declaration calls : Bool)
    (align base : ℕ) (aligned : 1 < align) (fits : base + 4 * align < 2 ^ 64) where
  abbrev framed : ℕ
  framed = least_frame align_to is_declaration align (align_frame align_to align base)

  framed_lem :
      (framed % align ≡ 0)
      × (base ≤ framed)
      × (framed ≤ base + align)
      × (is_declaration ≡ false → align ≤ framed)
      × (align_to base align ≤ framed)
  unfolding align_frame least_frame
  framed_lem =
      let is_aligned : ltb 1 align ≡ true = lt→ltb 1 align aligned in
      let m = h.multiple base align (omega arith) (omega arith) in
      let l = h.not_less base align (omega arith) (omega arith) in
      let n = h.next base align (omega arith) (omega arith) in
      elim (Bool-cases is_declaration) [
        | inl d ↦
            rw (align_frame, least_frame, is_aligned, d)
              (m, l, omega arith, λ e. absurd (cc), omega arith)
        | inr d ↦ elim (Bool-cases (ltb (align_to base align) align)) [
          | inl small ↦
              let lt = ltb→lt (align_to base align) align small in
              rw (align_frame, least_frame, is_aligned, d, small)
                (mod_self align, omega arith, omega arith, λ e. omega arith, omega arith)
          | inr large ↦
              rw (align_frame, least_frame, is_aligned, d, large)
                (m, l, omega arith, λ e. ground arith, omega arith)
        ]
      ]

  pub call_frame_lem :
      (call_frame align_to calls align framed % align ≡ 0)
      × (base ≤ call_frame align_to calls align framed)
      × (call_frame align_to calls align framed < base + 3 * align)
      × (is_declaration ≡ false → align ≤ call_frame align_to calls align framed)
      × (calls ≡ true → base + align ≤ call_frame align_to calls align framed)
      × (align_to base align ≤ call_frame align_to calls align framed)
      × (calls ≡ false → call_frame align_to calls align framed ≤ base + align)
  unfolding call_frame
  call_frame_lem =
      let is_aligned : ltb 1 align ≡ true = lt→ltb 1 align aligned in
      let (m, l, n, d, a) = framed_lem in
      elim (Bool-cases calls) [
        | inr no_call ↦
            rw (call_frame, is_aligned, no_call) (m, l, omega arith, d, λ e. absurd (cc), a, λ e. n)
        | inl some_call ↦
            let whole : wrap (framed + align) ≡ framed + align = mod-eq_of_lt (omega arith) in
            let m' = h.multiple (framed + align) align (omega arith) (omega arith) in
            let l' = h.not_less (framed + align) align (omega arith) (omega arith) in
            let n' = h.next (framed + align) align (omega arith) (omega arith) in
            rw (call_frame, is_aligned, some_call, whole)
              (
                m',
                omega arith,
                omega arith,
                λ e. omega arith,
                λ e. omega arith,
                omega arith,
                λ e. absurd (cc),
              )
      ]

true_of_false : (b : Bool) → b ≡ true → b ≡ false → ⊥
true_of_false b t f = cc

-- A direct call, in the function, of another function that has a body.
abbrev pub CallsOther : Function → Callee → Type 0
CallsOther f callee =
    Memᴰ (call (some callee)) (instructions f)
    × (callee.is_declaration ≡ false)
    × (callee.target ≢ f.address)

other_of_test :
    (is_declaration same : Bool)
    → (not is_declaration && not same) ≡ true
    → (is_declaration ≡ false) × (same ≡ false)
other_of_test is_declaration same h = ground arith

has_non_self_call-found :
    (is : List BlockInstruction) (self : ℕ)
    → has_non_self_call is self ≡ true
    → (callee : Callee) × Memᴰ (call (some callee)) is
      × (callee.is_declaration ≡ false)
      × (callee.target ≢ self)
unfolding has_non_self_call
has_non_self_call-found [] self h = absurd (cc)
has_non_self_call-found (call (some callee) ∷ is) self h =
    elim (Bool-cases (not callee.is_declaration && not (callee.target == self))) [
      | inl other ↦
          let (d, t) = other_of_test callee.is_declaration (callee.target == self) other in
          (callee, Memᴰ.head refl, d, λ e. absurd (ground (arith)))
      | inr own ↦
          let (c, m, d, t) = has_non_self_call-found is self (rw (has_non_self_call, own) at h) in
          (c, Memᴰ.tail m, d, t)
    ]
has_non_self_call-found (call none ∷ is) self h =
    let (c, m, d, t) = has_non_self_call-found is self h in (c, Memᴰ.tail m, d, t)
has_non_self_call-found (alloca a b c ∷ is) self h =
    let (c, m, d, t) = has_non_self_call-found is self h in (c, Memᴰ.tail m, d, t)
has_non_self_call-found (store a b ∷ is) self h =
    let (c, m, d, t) = has_non_self_call-found is self h in (c, Memᴰ.tail m, d, t)
has_non_self_call-found (return ∷ is) self h =
    let (c, m, d, t) = has_non_self_call-found is self h in (c, Memᴰ.tail m, d, t)
has_non_self_call-found (other_instruction ∷ is) self h =
    let (c, m, d, t) = has_non_self_call-found is self h in (c, Memᴰ.tail m, d, t)

has_non_self_call-tail :
    (i : BlockInstruction) (is : List BlockInstruction) (self : ℕ)
    → has_non_self_call is self ≡ true
    → has_non_self_call (i ∷ is) self ≡ true
unfolding has_non_self_call
has_non_self_call-tail (call (some callee)) is self h = ground arith
has_non_self_call-tail (call none) is self h = h
has_non_self_call-tail (alloca a b c) is self h = h
has_non_self_call-tail (store a b) is self h = h
has_non_self_call-tail return is self h = h
has_non_self_call-tail other_instruction is self h = h

test_of_other :
    (is_declaration same rest : Bool)
    → is_declaration ≡ false
    → same ≡ false
    → ((not is_declaration && not same) || rest) ≡ true
test_of_other is_declaration same rest d s = ground arith

has_non_self_call-holds :
    (is : List BlockInstruction) (self : ℕ) (callee : Callee)
    → Memᴰ (call (some callee)) is
    → callee.is_declaration ≡ false
    → callee.target ≢ self
    → has_non_self_call is self ≡ true
unfolding has_non_self_call
has_non_self_call-holds [] self callee m d t = absurd (Memᴰ.not-nil m)
has_non_self_call-holds (i ∷ is) self callee m d t = elim (Memᴰ.cases_cons m) [
  | inl e ↦
      subst (λ j. has_non_self_call (j ∷ is) self ≡ true) e
        (test_of_other callee.is_declaration (callee.target == self) (has_non_self_call is self) d
          (ground arith))
  | inr m' ↦ has_non_self_call-tail i is self (has_non_self_call-holds is self callee m' d t)
]

-- The ABI frame of a function whose bytes are far from 2^64, for a stack alignment above 1: a multiple
-- of the alignment, at least the bytes of the allocas, and at least one alignment for a function
-- with a body. If the function directly calls another function that has a body, the frame is at
-- least one alignment above the allocas and less than three; otherwise it is at most one alignment
-- above them.
pub compute_local_stack_abi_lem :
    (align_to : ℕ → ℕ → ℕ) (f : Function) (align : ℕ)
    → IsAlignTo align_to
    → 1 < align
    → (compute_local_stack_base f).bytes + 4 * align < 2 ^ 64
    → ((compute_local_stack_abi align_to f (some align)).bytes % align ≡ 0)
      × ((compute_local_stack_base f).bytes
          ≤ (compute_local_stack_abi align_to f (some align)).bytes)
      × (f.is_declaration ≡ false → align ≤ (compute_local_stack_abi align_to f (some align)).bytes)
      × ((((callee : Callee) × CallsOther f callee)
            × ((compute_local_stack_base f).bytes + align
                ≤ (compute_local_stack_abi align_to f (some align)).bytes)
            × ((compute_local_stack_abi align_to f (some align)).bytes
                < (compute_local_stack_base f).bytes + 3 * align))
          ⊎ (((callee : Callee) → ¬ CallsOther f callee)
              × ((compute_local_stack_abi align_to f (some align)).bytes
                  ≤ (compute_local_stack_base f).bytes + align)))
unfolding compute_local_stack_abi
compute_local_stack_abi_lem align_to f align h aligned fits =
    let calls = has_non_self_call (instructions f) f.address in
    let (m, l, n, d, c, a, few) =
      call_frame_lem align_to h f.is_declaration calls align (compute_local_stack_base f).bytes
        aligned fits in
    (
      m,
      l,
      d,
      elim (Bool-cases calls) [
        | inl some_call ↦
            let (callee, found, body, other) =
              has_non_self_call-found (instructions f) f.address some_call in
            inl ((callee, (found, body, other)), c some_call, n)
        | inr no_call ↦ inr (
          λ callee (m, b, t). absurd (
              true_of_false calls (has_non_self_call-holds (instructions f) f.address callee m b t)
                no_call),
          few no_call,
        )
      ],
    )

-- The IR frame is that of the allocas, aligned, or nothing where they take no byte; and the ABI
-- frame is never smaller.
pub compute_local_stack_ir-le-compute_local_stack_abi :
    (align_to : ℕ → ℕ → ℕ) (f : Function) (align : ℕ)
    → IsAlignTo align_to
    → 1 < align
    → (compute_local_stack_base f).bytes + 4 * align < 2 ^ 64
    → (compute_local_stack_ir align_to f (some align)).bytes
      ≤ (compute_local_stack_abi align_to f (some align)).bytes
unfolding compute_local_stack_ir compute_local_stack_abi
compute_local_stack_ir-le-compute_local_stack_abi align_to f align h aligned fits =
    let (m, l, n, d, c, a, few) =
      call_frame_lem align_to h f.is_declaration (has_non_self_call (instructions f) f.address)
        align (compute_local_stack_base f).bytes aligned fits in
    let is_aligned : ltb 1 align ≡ true = lt→ltb 1 align aligned in
    elim (Bool-cases ((compute_local_stack_base f).bytes == 0)) [
      | inl none_used ↦
          let whole : (compute_local_stack_ir align_to f (some align)).bytes
              ≡ (compute_local_stack_base f).bytes =
            rw (compute_local_stack_ir, none_used) refl in
          subst (λ n. n ≤ (compute_local_stack_abi align_to f (some align)).bytes) (sym whole) l
      | inr used ↦
          let rounded : (compute_local_stack_ir align_to f (some align)).bytes
              ≡ align_to (compute_local_stack_base f).bytes align =
            rw (compute_local_stack_ir, used, is_aligned) refl in
          subst (λ n. n ≤ (compute_local_stack_abi align_to f (some align)).bytes) (sym rounded) a
    ]

-- The threshold for large allocas is an eighth of the stack limit, or of 8 MiB without one, but never
-- below 64 KiB.
pub compute_alloca_large_threshold_lem :
    (stack_limit : ℕ)
    → (64 * 1024 ≤ compute_alloca_large_threshold stack_limit)
      × (stack_limit ≡ 0 → compute_alloca_large_threshold stack_limit ≡ 1024 * 1024)
      × (512 * 1024 ≤ stack_limit → compute_alloca_large_threshold stack_limit ≡ stack_limit / 8)
unfolding compute_alloca_large_threshold
compute_alloca_large_threshold_lem stack_limit =
    (ground arith, λ z. ground arith, λ l. ground arith)
