-- ===== src/Execution.antt =====
-- app/execution: the LBank gates, the symbol map and the consensus with the benchmarks.
pub mod Validator
pub mod SymbolMap
pub mod Statistics
pub mod Consensus
