-- ===== src/Examples.antt =====
-- Concrete cases: the theorems applied to inputs that run the code, with fixed-point numbers in
-- place of the platform's.
mod Market
mod Plans
mod Lifecycles
mod Executions
mod Assemblies
mod Runs
mod Schedules
mod Platforms
mod Breaks
mod Reclaims
mod Requests
