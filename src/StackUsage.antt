-- ===== src/StackUsage.antt =====
-- src/analysis/StackComputation.cpp: the stack of a function and of the calls below it. Byte counts
-- are 64-bit and wrap around. `align_to` is LLVM's `alignTo`.
pub mod Totals
pub mod Local
use coretrace_stack_analyzer.Prelude.{
  ℕ, zero, suc, ◌+◌, ◌*◌, ◌/◌, ◌%◌, ◌^◌, Bool, true, false, not, ◌&&◌, ◌||◌, Option, none, some,
  List, [], ◌∷◌, ◌++◌, map, ◌==◌, ltb, if◌then◌else◌, Assoc, lookup, insert,
}
use coretrace_stack_analyzer.Prelude.Text.{Text}
use coretrace_stack_analyzer.IntRanges.{IrValue, constant_int, cast, load, other, address}
use coretrace_stack_analyzer.Ir.{
  Callee, BlockInstruction, alloca, store, call, return, other_instruction, Block, Function,
  block_instructions, instructions,
}

abbrev pub wrap : ℕ → ℕ
wrap n = n % 2 ^ 64

pub record LocalStackInfo : Type 0 where
  pub bytes : ℕ
  pub local_allocas : List (Text × ℕ)
  pub unknown : Bool
  pub has_dynamic_alloca : Bool

abbrev pub no_stack : LocalStackInfo
no_stack = record { bytes = 0; local_allocas = []; unknown = false; has_dynamic_alloca = false }

-- The last constant that the function stores through the pointer.
pub last_constant_store : List BlockInstruction → ℕ → Option ℕ → Option ℕ
last_constant_store [] ptr found = found
last_constant_store (store (constant_int _ _ zext) pointer ∷ is) ptr found =
    last_constant_store is ptr (if address pointer == ptr then some zext else found)
last_constant_store (_ ∷ is) ptr found = last_constant_store is ptr found

-- `tryGetConstFromValue`, of which only the unsigned reading of the constant is used.
unfoldable pub try_get_const_from_value : IrValue → List BlockInstruction → Option ℕ
unfolding last_constant_store
try_get_const_from_value (cast _ operand) is = try_get_const_from_value operand is
try_get_const_from_value (constant_int _ _ zext) is = some zext
try_get_const_from_value (load _ pointer) is = last_constant_store is (address pointer) none
try_get_const_from_value (other _) is = none

-- One instruction; `is` are those of the whole function. A constant array size is found by
-- `tryGetConstFromValue` at once, too.
unfoldable pub add_alloca :
    List BlockInstruction → LocalStackInfo → BlockInstruction → LocalStackInfo
unfolding try_get_const_from_value
add_alloca is info (alloca name type_size array_size) =
    elim (try_get_const_from_value array_size is) [
      | none ↦ record info { has_dynamic_alloca = true; unknown = true }
      | some count ↦
          let size = wrap (type_size * count) in
          record info {
            bytes = wrap (info.bytes + size);
            local_allocas = info.local_allocas ++ (name, size) ∷ [];
          }
    ]
add_alloca is info _ = info

unfoldable pub add_allocas :
    List BlockInstruction → LocalStackInfo → List BlockInstruction → LocalStackInfo
unfolding add_alloca
add_allocas is info [] = info
add_allocas is info (i ∷ rest) = add_allocas is (add_alloca is info i) rest

unfoldable pub compute_local_stack_base : Function → LocalStackInfo
unfolding add_allocas
compute_local_stack_base f = add_allocas (instructions f) no_stack (instructions f)

unfoldable pub has_non_self_call : List BlockInstruction → ℕ → Bool
has_non_self_call [] self = false
has_non_self_call (call (some callee) ∷ is) self =
    (not callee.is_declaration && not (callee.target == self)) || has_non_self_call is self
has_non_self_call (_ ∷ is) self = has_non_self_call is self

pub data AnalysisMode : Type 0 where
  ir abi : AnalysisMode

-- No stack alignment in the data layout means 1.
abbrev pub stack_align : Option ℕ → ℕ
stack_align none = 1
stack_align (some a) = a

module _ (align_to : ℕ → ℕ → ℕ) where
  unfoldable pub compute_local_stack_ir : Function → Option ℕ → LocalStackInfo
  unfolding compute_local_stack_base
  compute_local_stack_ir f alignment =
      let info = compute_local_stack_base f in
      let align = stack_align alignment in
      if info.bytes == 0
      then info
      else if ltb 1 align
      then record info { bytes = align_to info.bytes align }
      else info

  -- The three adjustments of the frame size, one after the other.
  unfoldable pub align_frame : ℕ → ℕ → ℕ
  align_frame align frame_size = if ltb 1 align then align_to frame_size align else frame_size

  unfoldable pub least_frame : Bool → ℕ → ℕ → ℕ
  least_frame is_declaration align frame_size =
      if not is_declaration && ltb 1 align && ltb frame_size align then align else frame_size

  unfoldable pub call_frame : Bool → ℕ → ℕ → ℕ
  call_frame calls align frame_size =
      if ltb 1 align && calls then align_to (wrap (frame_size + align)) align else frame_size

  unfoldable pub compute_local_stack_abi : Function → Option ℕ → LocalStackInfo
  unfolding compute_local_stack_base align_frame least_frame call_frame has_non_self_call
  compute_local_stack_abi f alignment =
      let info = compute_local_stack_base f in
      let align = stack_align alignment in
      let aligned = least_frame f.is_declaration align (align_frame align info.bytes) in
      record info {
        bytes = call_frame (has_non_self_call (instructions f) f.address) align aligned;
      }

  unfoldable pub compute_local_stack : AnalysisMode → Function → Option ℕ → LocalStackInfo
  unfolding compute_local_stack_ir compute_local_stack_abi
  compute_local_stack ir f alignment = compute_local_stack_ir f alignment
  compute_local_stack abi f alignment = compute_local_stack_abi f alignment

abbrev pub CallGraph : Type 0
CallGraph = Assoc (List ℕ)

unfoldable pub called : List BlockInstruction → List ℕ
called [] = []
called (call (some callee) ∷ is) =
    if not callee.is_declaration then callee.target ∷ called is else called is
called (_ ∷ is) = called is

unfoldable pub build_call_graph : List Function → CallGraph
unfolding called
build_call_graph [] = []
build_call_graph (f ∷ fs) =
    let rest = build_call_graph fs in
    if f.is_declaration then rest else (f.address, called (instructions f)) ∷ rest

unfoldable pub compute_alloca_large_threshold : ℕ → ℕ
compute_alloca_large_threshold stack_limit =
    let base = if stack_limit == 0 then 8 * 1024 * 1024 else stack_limit in
    if ltb (base / 8) (64 * 1024) then 64 * 1024 else base / 8
