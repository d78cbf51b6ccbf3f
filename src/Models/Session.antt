-- ===== src/Models/Session.antt =====
-- internal/models/reconciliation_request_item.go and reconciliation_snapshot.go: the count sessions
-- of a reconciliation, and the quantities that its items had when it was started.
use cim_backend.Prelude.{ℕ, String, Bool, true, false, List, Text}

pub data SessionStatus : Type 0 where
  in_progress ready_for_review unknown_status : SessionStatus

-- `IsValid`
abbrev pub is_valid_status : SessionStatus → Bool
is_valid_status in_progress = true
is_valid_status ready_for_review = true
is_valid_status unknown_status = false

abbrev pub is_ready : SessionStatus → Bool
is_ready ready_for_review = true
is_ready _ = false

-- `reconItemPayloadLine` of internal/services/inventory_reconcile_items.go
pub record PayloadLine (D : Type 0) : Type 0 where
  pub inventory_item_id : ℕ
  pub quantity : D
  pub label : Text

-- The JSON payload of a session: empty, bytes that do not decode, or lines.
pub data SessionPayload (D : Type 0) : Type 0 where
  no_lines garbled : SessionPayload D
  lines : List (PayloadLine D) → SessionPayload D

pub record ReconciliationRequestItem (D : Type 0) : Type 0 where
  pub id : ℕ
  pub submission_id : ℕ
  pub label : Text
  pub payload : SessionPayload D
  pub status : SessionStatus
  pub created_by : String
  pub created_at : ℕ

pub record ReconciliationSnapshot (D : Type 0) : Type 0 where
  pub submission_id : ℕ
  pub inventory_item_id : ℕ
  pub prev_quantity : D
  pub created_at : ℕ
