-- ===== src/Lib.antt =====
-- The stock, reconciliation, submission, authorization, unit, purchase order and import cores of the
-- inventory backend.
--
-- An inventory holds items; each item has movements (inventory transactions), and the quantity on
-- hand is what is left of those that brought stock in. A reconciliation is started for an inventory
-- (a submission with a snapshot of the quantities), staff count items in sessions, and a manager
-- closes it and processes it: the sessions are summed to one request, and the difference between the
-- snapshot and the count of each item is consumed from its oldest movements or stocked up. Other
-- submissions (a counted stock, a disposal, a transfer to another inventory) are checked and stored,
-- and a manager approves one, which runs its operation on the stock, or rejects it. A request
-- reaches a handler only through the authorization of its route. Stock comes in by the deliveries of
-- purchase orders, which add to the items of the order and to those of the inventory, and by the import
-- of a sheet.
--
-- Files and the code that they model:
--   Models/*        internal/models/inventory_transaction.go, inventory_item.go,
--                   inventory_submission.go, reconciliation_request_item.go,
--                   reconciliation_snapshot.go, and requests of internal/services/dto/inventory.go
--   Caller          pkg/auth.go: the user of a request's context
--   Errors          pkg/error_helpers.go: one constructor for an error, its texts left out
--   Stock/Fifo      consumeFIFO of internal/services/inventory_service.go; its consumeHandler is a
--                   parameter, with what the closure keeps between its calls as an explicit state
--   Stock/Handlers  the handlers that sell or dispose
--   Stock/Transfer  the handler of a transfer, which puts what is taken on the destination's items
--   Store/*         internal/repository: the tables as lists of rows, WithinTx as a function from a
--                   store to a result and a store in which an error loses the writes
--   Recon/Guards, Recon/Counts, Recon/Sessions
--                   internal/services/inventory_reconcile_items.go
--   Recon/Synthesize
--                   internal/services/inventory_reconcile_synthesize.go
--   Recon/Apply, Recon/Lifecycle, Recon/Managers
--                   internal/services/inventory_reconcile_processing.go, and InitiateReconcile of
--                   internal/services/inventory_service.go
--   Legacy          reconcileInventory, disposeInventory, transferInventory and processSubmission of
--                   internal/services/inventory_service.go, with the consumption of Stock/Fifo
--   Legacy/Creation the Create...Submission operations of the same file
--   Legacy/Approval its ProcessSubmission: the transaction, its rollback and the recorded failure
--   Legacy/Editing  its UpdateSubmission, whose error after the write leaves the write
--   Access/Paths, Access/Routes, Access/Gate
--                   internal/middleware/authorization.go: the matching of paths, the table of routes
--                   and the middleware; the subject of internal/auth/casbin_service.go
--   Paging          internal/models/pagination.go, and the page walk of
--                   internal/services/inventory_timeline_service.go
--   Units           internal/models/unit.go, checkCircularReference of
--                   internal/services/unit_service.go, and GetByID of
--                   internal/repository/unit_repository.go
--   Units/Service   the operations of that file that write, with those of
--                   internal/repository/unit_repository.go and unit_conversion.go
--   Orders          internal/models/purchase_order.go and purchase_order_item.go: the statuses
--   Orders/Receive, Orders/Booking
--                   ReceiveInventory of internal/repository/purchase_order_repository.go: the loop over
--                   the lines of a delivery, and what is checked and saved around it
--   Orders/Edit     UpdatePurchaseOrder of that file
--   Import          the plan of internal/services/initial_stock_import_plan.go: Import/Lookups what the
--                   rows are matched with, Import/Plan the plan
--   Tests/*         the theorems applied to concrete data
--
-- Decimals are those of github.com/shopspring/decimal, an interface (Decimal) with the value in units
-- of a fixed last place; Add, Sub and Neg are exact on it. Prices are float64 values that the code
-- copies and compares. Labels are lists of code points. Go maps are association lists with one entry for a
-- key, and a loop over a map visits the entries in the order of their insertion. Identifiers are
-- natural numbers; uint overflow is out of reach of a database sequence and not modelled. The
-- authorization library's decision (casbin), the operations on the factors of units, the case
-- functions of strings, Go's `==` on two prices, the pointers in the structs of two decimals that
-- Go's `==` compares, and the parsing and printing of a decimal are parameters.
-- Loops are structural, except two walks up the base units. That of checkCircularReference has fuel
-- for one round more than there are units, which is enough, as it stops at a unit that it has
-- visited. GetByID, which it calls, recurses from a unit to its base unit with fuel for one call more
-- than there are units, which is enough where every unit has its level; on units that are a cycle no
-- fuel is, the program does not answer either, and the outcome is stack_overflow.
--
-- Row and advisory locks are modelled by transactions that run one after another. Not modelled:
-- HTTP handlers, message texts, product names in replies, page listings, the factors along the
-- hierarchy of units, rows that are deleted softly (but for the items of purchase orders, and what
-- an import looks up), reports, the parsing of imports and the writing of their plan, the creation
-- of purchase orders, their queries and payments, the rounding of a column to two places, prices,
-- spreadsheets and configuration.
pub mod Prelude
pub mod Decimal
pub mod Errors
pub mod Models
pub mod Stock
pub mod Caller
pub mod Store
pub mod Recon
pub mod Import
pub mod Legacy
pub mod Paging
pub mod Access
pub mod Units
pub mod Orders
pub mod Tests
