-- ===== src/Setups.antt =====
-- app/setups: the classifier of structure snapshots, and the return of the price to a broken zone.
pub mod Classifier
pub mod Reclaim
