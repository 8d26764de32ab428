-- ===== src/Runtime.antt =====
-- app/runtime: the jobs, one run of a job, the scheduler's claims, and the worker's metrics.
pub mod Models
pub mod Telemetry
pub mod Scheduler
