-- ===== src/Structure.antt =====
-- app/structure: the range analyzer, and the events at a support zone.
pub mod Analyzer
pub mod Htf
pub mod Events
pub mod Zones
pub mod Timeframe
