-- ===== src/Adapters.antt =====
-- app/adapters: what the sources deliver, and the health gate of a benchmark source.
pub mod Limits
pub mod Payload
pub mod Decimals
pub mod Lbank
pub mod Benchmark
