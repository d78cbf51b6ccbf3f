-- ===== src/Tests.antt =====
-- Concrete runs of the modelled code, and the theorems applied to them.
mod Sample
mod Stock
mod Models
mod Recon
mod Processing
mod Legacy
mod Editing
mod Access
mod Paging
mod Units
mod Orders
mod Receive
mod OrderEdits
mod Import
