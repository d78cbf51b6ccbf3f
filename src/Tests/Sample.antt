-- ===== src/Tests/Sample.antt =====
-- Two items in stock with their movements, and a reconciliation that counted them.
use cim_backend.Prelude.{false, ℕ, false, ℤ, pos, none, some, List, [], ◌∷◌}
use cim_backend.Decimal.{int_decimal, Float64}
use cim_backend.Errors.{ReconcileStatus, open_status}
use cim_backend.Errors
use cim_backend.Caller.{Caller, resource_inventory_submissions, action_recon_manage}
use cim_backend.Models.Transaction.{InventoryTransaction, purchase}
use cim_backend.Models.Item.{InventoryItem, active}
use cim_backend.Models.Submission.{
  InventorySubmission, QuantityItem, reconcile, pending, no_payload,
}
use cim_backend.Models.Session.{
  ReconciliationSnapshot, ReconciliationRequestItem, PayloadLine, lines, ready_for_review,
}
use cim_backend.Store.{Store}
use cim_backend.Recon.Managers.{Enforce}
use cim_backend.Recon.Counts.{ReconciliationCountItem}

instance abbrev pub nat_float : Float64 ℕ
nat_float = record { float_zero = 0 }

abbrev pub bought : ℕ → ℕ → ℕ → ℕ → InventoryTransaction ℤ ℕ
bought id item quantity consumed = record {
  id = id;
  created_at = id;
  inventory_item_id = item;
  transaction_type = purchase;
  price = 100;
  quantity = pos quantity;
  consumed_quantity = pos consumed;
  counter_transaction_id = none;
  is_adjustment = false;
  inventory_item = none;
}

abbrev pub item_of : ℕ → ℕ → List (InventoryTransaction ℤ ℕ) → InventoryItem ℤ ℕ
item_of id quantity layers = record {
  id = id;
  inventory_id = 3;
  product_id = id;
  quantity = pos quantity;
  unit_id = 1;
  status = active;
  consuming_transaction_id = 0;
  consumable_transactions = layers;
}

-- Item 7 has 3 left of a first purchase and 4 of a second; item 8 has 3.
abbrev pub old_layers : List (InventoryTransaction ℤ ℕ)
old_layers = bought 1 7 5 2 ∷ bought 2 7 4 0 ∷ []

abbrev pub rice : InventoryItem ℤ ℕ
rice = item_of 7 7 old_layers

abbrev pub salt : InventoryItem ℤ ℕ
salt = item_of 8 3 (bought 3 8 3 0 ∷ [])

abbrev pub two_items : List (InventoryItem ℤ ℕ)
two_items = rice ∷ salt ∷ []

abbrev pub line_of : ℕ → ℕ → ℕ → QuantityItem ℤ
line_of id quantity prev = record {
  inventory_item_id = id;
  quantity = some (pos quantity);
  prev_quantity = pos prev;
}

-- Rice was counted short by three, salt over by two.
abbrev pub two_lines : List (QuantityItem ℤ)
two_lines = line_of 7 4 7 ∷ line_of 8 5 3 ∷ []

abbrev pub count_line : ℕ → ℕ → List ℕ → ReconciliationCountItem ℤ
count_line id quantity label = record {
  inventory_item_id = id;
  quantity = some (pos quantity);
  label = label;
}

-- Two sessions that counted rice, one of them salt as well.
abbrev pub counted_line : ℕ → ℕ → PayloadLine ℤ
counted_line item quantity = record {
  inventory_item_id = item;
  quantity = pos quantity;
  label = [];
}

abbrev pub session_of : ℕ → List (PayloadLine ℤ) → ReconciliationRequestItem ℤ
session_of id counts = record {
  id = id;
  submission_id = 5;
  label = id ∷ [];
  payload = lines counts;
  status = ready_for_review;
  created_by = "ann@example.com";
  created_at = id;
}

abbrev pub two_sessions : List (ReconciliationRequestItem ℤ)
two_sessions =
    session_of 2 (counted_line 7 1 ∷ counted_line 8 5 ∷ [])
    ∷ session_of 1 (counted_line 7 3 ∷ [])
    ∷ []

abbrev pub manager : Caller
manager = record {
  user_email = some "boss@example.com";
  permissions =
      some
        (record { resource = resource_inventory_submissions; action = action_recon_manage } ∷ []);
}

abbrev pub open_reconcile : InventorySubmission ℤ
open_reconcile = record {
  id = 5;
  inventory_id = 3;
  created_at = 1;
  submission_type = reconcile;
  processing_status = pending;
  approval_status = Errors.ApprovalStatus.pending;
  payload = no_payload;
  reason = "";
  error = [];
  reconcile_status = open_status;
  processed_at = none;
}

abbrev pub open_store : Store ℤ ℕ
open_store = record {
  inventories = 3 ∷ [];
  items = two_items;
  transactions = [];
  submissions = open_reconcile ∷ [];
  snapshots =
      record { submission_id = 5; inventory_item_id = 7; prev_quantity = pos 7; created_at = 1 }
      ∷ [];
  sessions = two_sessions;
  users = [];
  next_item_id = 9;
  next_transaction_id = 9;
  next_submission_id = 9;
  next_session_id = 9;
  clock = 20;
}

abbrev pub snapshot_of : ℕ → ℕ → ReconciliationSnapshot ℤ
snapshot_of item quantity = record {
  submission_id = 5;
  inventory_item_id = item;
  prev_quantity = pos quantity;
  created_at = 1;
}

abbrev pub no_managers : Enforce
no_managers role resource action = some false
