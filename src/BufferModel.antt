-- ===== src/BufferModel.antt =====
-- src/analysis/BufferWriteModel.cpp: the rule file that says which library functions write to a
-- buffer, and the search for the rule of a callee.
pub mod Glob
pub mod Parse
pub mod Matcher
