-- ===== src/Models.antt =====
-- The data model of internal/models, as far as the other parts use it.
pub mod Transaction
pub mod Item
pub mod Submission
pub mod Session
