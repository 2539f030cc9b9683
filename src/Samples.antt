-- ===== src/Samples.antt =====
-- The theorems at concrete inputs.
mod Ranges
mod States
mod Summaries
mod Bounds
mod Solver
mod Buffers
mod Commands
mod Recursive
mod Calls
mod Names
