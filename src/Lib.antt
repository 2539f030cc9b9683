-- ===== src/Lib.antt =====
-- coretrace-stack-analyzer: a static analyzer of LLVM IR that reports stack usage, uninitialised
-- reads, unsafe buffer writes and the like. This library models parts of its core and proves them.
--
-- The parts and how they interact. The analysis of uninitialised variables
-- (src/analysis/UninitializedVarAnalysis.cpp) keeps, for every object of a function, the set of its
-- initialised bytes; the state at the head of a block is the meet of the states behind its
-- predecessors, and what a function does to its parameters goes into a summary, which is merged over
-- translation units until nothing changes. Integer ranges (src/analysis/IntRanges.cpp) come from the
-- comparisons of a function; the recursion rule (src/analysis/StackComputation.cpp) reads them off
-- the edges of a path and drops a path that the solver layer (src/analysis/smt) or the ranges show
-- to be infeasible. Rule files of the buffer analysis (src/analysis/BufferWriteModel.cpp) name
-- library functions by patterns. The stack of a function is the sum of its allocas and the deepest
-- calls below it; the call path with the most stack is part of the report. Compile commands come from src/analysis/CompileCommands.cpp.
--
-- Files:
--   Prelude: names of the libraries, Boolean tests, lists over the native numbers, integers, texts.
--   ByteRanges: ByteRange, addRange, intersectRanges, isRangeCovered and
--     isRangeCoveredAllowingSmallInteriorGaps. ByteRanges/Contains says what a set means (contains)
--     and what shape the operations keep (IsNormal); Canonical that a normal set is determined by
--     its bytes; Add, Intersect, Covered and Gaps treat one operation each.
--   InitState: the tracked objects, classifyInitState, clipRangeToObject,
--     isRangeCoveredRespectingNonPaddingLayout, makeBottomState, makeTopState, meetMustState and
--     computeInState. A state is the list of the sets, in the order of the objects.
--   Summary: UninitializedSummaryParamEffect, addPublicRange, mergePublicParamEffect and
--     mergePublicFunctionSummary with the trimming of parameters (Ranges, Effect, Trim, Function,
--     Fixpoint); Equal: publicFunctionSummaryEquals; Index: mergeUninitializedSummaryIndex. An
--     operation that changes its first argument and returns a flag returns the pair of both.
--   IntRanges: computeIntRangesFromICmps, with its lambdas updateForSigned, updateForUnsigned and
--     applyConstraint; an IntRange has two optional bounds in place of two flags and two numbers.
--     IntRanges/Edge: deriveEdgeConstraint, applyConstraintToState and
--     evaluateIntervalSatisfiability of src/analysis/StackComputation.cpp, whose copies of the two
--     switches are the same functions.
--   Ir: what the stack analyses read of an LLVM function: blocks, calls, allocas, terminators.
--   StackUsage: computeLocalStackBase, computeLocalStackIR, computeLocalStackABI, buildCallGraph and
--     computeAllocaLargeThreshold of src/analysis/StackComputation.cpp, tryGetConstFromValue of
--     src/analysis/IRValueUtils.cpp (Local: frames; Local/Base: their allocas). StackUsage/Totals: dfsComputeStack and
--     computeGlobalStackUsage, whose two maps are passed on as a record (Ends, Reference, Correct; Most
--     has a reference of its own, with greatest values);
--     Totals/Paths: buildMaxStackCallPath of src/analysis/AnalyzerUtils.cpp.
--   Recursion: hasFeasibleNonRecursiveReturnPath, with the local variables of its loop as a record and
--     a round as a function (Rounds, Ends); Reach is the relation of the states it can come to,
--     Explored and Complete what its answers mean. Recursion/Detect:
--     detectInfiniteRecursionByDominance, detectInfiniteSelfRecursion and
--     detectInfiniteRecursionComponent, the last two each with its own copy of the tests, as in the source.
--   Smt: the types of include/analysis/smt (Types), the backends (Backends), SolverOrchestrator with
--     its strategies (Orchestrator), smtRuleEnabled, SmtConstraintEvaluator and
--     RecursionConstraintEvaluator (Evaluator).
--   BufferModel: globMatches (Glob), the parser of rule files (Parse), BufferWriteRuleMatcher
--     (Matcher; Fits says when a rule is meant for a call). Glob/Reference says what a pattern means.
--   CompileCommands: tokenizeCommandLine and stripOutputAndDependencyArgs (Strip/Forms: the forms of the
--     arguments that it drops).
--   Paths: the tests on paths of src/analysis/FunctionFilter.cpp, src/analysis/AnalyzerUtils.cpp and
--     src/analysis/CompileCommands.cpp (Affixes says what two of them mean). Paths/Lookup:
--     buildPathSuffixes and findCommandForFile. Paths/Filter: buildFunctionFilter, shouldAnalyze,
--     shouldIncludePath, functionNameMatches, isLikelySystemPath and isLikelyThirdPartyPath.
--   Report: jsonEscape of src/report/ReportSerialization.cpp; Report/RoundTrip has a reader of JSON
--     strings.
--   Samples: runs of the definitions and the theorems at concrete inputs.
--
-- Numbers: offsets and sizes are natural numbers; the modelled operations on them only compare,
-- except saturatingAdd, which is written with its limit. Signed 64-bit numbers are integers, and
-- where `c - 1` or `c + 1` would leave the type the model writes out the wrap-around, which the C++
-- standard leaves undefined. Texts are lists of byte values.
--
-- Fuel: dfsComputeStack has one unit for a nested call; the number of distinct functions named
-- and one more is enough, because each call marks a function. buildMaxStackCallPath has one for a function visited,
-- hasFeasibleNonRecursiveReturnPath one for a round, of which its own limit allows 4097. The loop of
-- globMatches has one unit for a round. With (length of the text + 1) *
-- (length of the pattern + 1) + 1 units it ends on every input, because each return to a star moves
-- the saved position of the text on, and between two returns each round shortens the pattern.
--
-- Parameters for what lies outside: the solver of the Z3 backend, if the build links it, with
-- soundness of its Unsat as the hypothesis; LLVM's stripPointerCasts and getInversePredicate, the
-- latter with its documented meaning; LLVM's alignTo and dominates, with their documented meaning; the
-- demangler; the normalisation of paths, which asks the file system. The encoder of src/analysis/smt/SmtEncoding.cpp is not modelled: the recursion rule takes
-- any function in its place.
--
-- Not modelled: LLVM itself and the walks over its instructions (transferInstruction, the encoding of
-- expressions, escape, lifetime and buffer analyses), file and process handling, JSON, the command
-- line, diagnostics and the documents of a report. Reserved fields, caches and the text of error messages are left out.
pub mod Prelude
pub mod ByteRanges
pub mod InitState
pub mod Summary
pub mod IntRanges
pub mod Smt
pub mod BufferModel
pub mod Ir
pub mod StackUsage
pub mod Recursion
pub mod Samples
pub mod CompileCommands
pub mod Paths
pub mod Report
