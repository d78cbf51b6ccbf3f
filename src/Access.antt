-- ===== src/Access.antt =====
-- internal/middleware/authorization.go: who may reach a route.
pub mod Paths
pub mod Routes
pub mod Gate
pub mod Matching
pub mod Allowed
