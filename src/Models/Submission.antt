-- ===== src/Models/Submission.antt =====
-- internal/models/inventory_submission.go and the requests of internal/services/dto/inventory.go:
-- a submission is an inventory operation that waits for approval, or a reconciliation.
use cim_backend.Prelude.{ℕ, String, Bool, ◌&&◌, ◌||◌, ◌==◌, Option, none, some, List, map}
use cim_backend.Errors.{
  AppError, ReconcileStatus, ApprovalStatus, reconcile_eq, open_status, closed,
}

pub data SubmissionType : Type 0 where
  reconcile dispose transfer unknown_type : SubmissionType

abbrev submission_type_code : SubmissionType → ℕ
submission_type_code reconcile = 0
submission_type_code dispose = 1
submission_type_code transfer = 2
submission_type_code unknown_type = 3

abbrev pub submission_type_eq : SubmissionType → SubmissionType → Bool
submission_type_eq s t = submission_type_code s == submission_type_code t

pub data ProcessingStatus : Type 0 where
  pending failed completed canceled : ProcessingStatus

abbrev processing_code : ProcessingStatus → ℕ
processing_code pending = 0
processing_code failed = 1
processing_code completed = 2
processing_code canceled = 3

abbrev pub processing_eq : ProcessingStatus → ProcessingStatus → Bool
processing_eq s t = processing_code s == processing_code t

-- dto.QuantityItem, the fields of a request
pub record QuantityItem (D : Type 0) : Type 0 where
  pub inventory_item_id : ℕ
  pub quantity : Option D
  pub prev_quantity : D

-- dto.ReconcileInventoryRequest and dto.DisposeInventoryRequest, which have the same JSON
pub record InventoryRequest (D : Type 0) : Type 0 where
  pub inventory_id : ℕ
  pub items : List (QuantityItem D)

-- dto.TransferInventoryRequest
pub record TransferRequest (D : Type 0) : Type 0 where
  pub source_inventory_id : ℕ
  pub destination_inventory_id : ℕ
  pub items : List (QuantityItem D)

-- `GetItemIDs`
abbrev pub get_item_ids : {D : Type 0} → List (QuantityItem D) → List ℕ
get_item_ids items = map (λ i. i.inventory_item_id) items

-- The JSON payload: what was marshalled, nothing yet, or bytes that do not decode.
pub data Payload (D : Type 0) : Type 0 where
  no_payload garbled : Payload D
  request : InventoryRequest D → Payload D
  transfer_request : TransferRequest D → Payload D

-- `json.Unmarshal` into either request: a key that is not in the bytes leaves its field zero.
abbrev pub unmarshal : {D : Type 0} → Payload D → Option (InventoryRequest D)
unmarshal no_payload = none
unmarshal garbled = none
unmarshal (request r) = some r
unmarshal (transfer_request r) = some (record { inventory_id = 0; items = r.items })

abbrev pub unmarshal_transfer : {D : Type 0} → Payload D → Option (TransferRequest D)
unmarshal_transfer no_payload = none
unmarshal_transfer garbled = none
unmarshal_transfer (request r) =
    some (record { source_inventory_id = 0; destination_inventory_id = 0; items = r.items })
unmarshal_transfer (transfer_request r) = some r

pub record InventorySubmission (D : Type 0) : Type 0 where
  pub id : ℕ
  pub inventory_id : ℕ
  pub created_at : ℕ
  pub submission_type : SubmissionType
  pub processing_status : ProcessingStatus
  pub approval_status : ApprovalStatus
  pub payload : Payload D
  pub reason : String
  pub error : List AppError
  pub reconcile_status : ReconcileStatus
  pub processed_at : Option ℕ

-- `IsActiveReconcile`
unfoldable pub is_active_reconcile : {D : Type 0} → InventorySubmission D → Bool
is_active_reconcile s =
    submission_type_eq s.submission_type reconcile
    && processing_eq s.processing_status pending
    && (reconcile_eq s.reconcile_status open_status || reconcile_eq s.reconcile_status closed)
