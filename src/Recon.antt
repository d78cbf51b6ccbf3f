-- ===== src/Recon.antt =====
-- Reconciliations: the count of an inventory against a snapshot, from its start to its booking
-- (internal/services/inventory_reconcile_*.go and InitiateReconcile).
pub mod Guards
pub mod Synthesize
pub mod Apply
pub mod Managers
pub mod Lifecycle
pub mod Counts
pub mod Sessions
