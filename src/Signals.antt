-- ===== src/Signals.antt =====
-- app/signals: the assembly of a signal from its gates.
pub mod Models
pub mod Gates
pub mod Assembly
