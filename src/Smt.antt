-- ===== src/Smt.antt =====
-- The solver layer of src/analysis/smt and include/analysis/smt: queries, backends, the strategies
-- that run them, and the status that the orchestrator makes of their answers.
pub mod Types
pub mod Backends
pub mod Orchestrator
pub mod Evaluator
