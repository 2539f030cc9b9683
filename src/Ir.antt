-- ===== src/Ir.antt =====
-- What the stack analyses of src/analysis/StackComputation.cpp read of an LLVM function. Functions
-- and blocks are numbers; a function holds its blocks in their order, the entry block first.
use coretrace_stack_analyzer.Prelude.{ℕ, Bool, Option, List, [], ◌∷◌, ◌++◌}
use coretrace_stack_analyzer.Prelude.Text.{Text}
use coretrace_stack_analyzer.IntRanges.{Predicate, IrValue}

-- What `getCalledFunction` gives of a direct call.
pub record Callee : Type 0 where
  pub target : ℕ
  pub is_declaration : Bool

-- The instructions that are told apart: an alloca with its derived name, the allocation size of its
-- type and its array size; a store with value and pointer; a call or invoke, direct or not; a return.
pub data BlockInstruction : Type 0 where
  alloca : Text → ℕ → IrValue → BlockInstruction
  store : IrValue → IrValue → BlockInstruction
  call : Option Callee → BlockInstruction
  return other_instruction : BlockInstruction

-- The condition of a branch behind `stripPointerCasts`: a comparison of integers or anything else.
pub data Condition : Type 0 where
  compares : Predicate → IrValue → IrValue → Condition
  opaque : Condition

-- A conditional branch with the successors for true and false, or another terminator.
pub data Terminator : Type 0 where
  branch : Condition → ℕ → ℕ → Terminator
  jumps : List ℕ → Terminator

pub record Block : Type 0 where
  pub instructions : List BlockInstruction
  pub terminator : Terminator

pub record Function : Type 0 where
  pub address : ℕ
  pub name : Text
  pub is_declaration : Bool
  pub no_recurse : Bool
  pub blocks : List Block

-- The instructions of the function in the order of the nested loops over blocks.
unfoldable pub block_instructions : List Block → List BlockInstruction
block_instructions [] = []
block_instructions (bb ∷ blocks) = bb.instructions ++ block_instructions blocks

abbrev pub instructions : Function → List BlockInstruction
instructions f = block_instructions f.blocks
