-- ===== src/Saves.antt =====
-- The pure core of services/saves.py: previews, the three-way reconciliation of save files by group,
-- and the baseline that it leaves.
pub mod Model
pub mod Groups
pub mod Diff
pub mod Reconcile
mod Tests
