-- ===== src/Stock.antt =====
-- Stock movements of the inventory service.
pub mod Fifo
pub mod Handlers
pub mod Transfer
