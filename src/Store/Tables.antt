-- ===== src/Store/Tables.antt =====
-- The tables, transactions (internal/repository/base_repository.go), and the audit columns' check.
use cim_backend.Prelude.{ℕ, String, Bool, Option, none, some, List, Outcome, ok, err, if◌then◌else◌}
use cim_backend.Errors.{AppError, prepare_update_fields}
use cim_backend.Caller.{Caller}
use cim_backend.Models.Transaction.{InventoryTransaction}
use cim_backend.Models.Item.{InventoryItem}
use cim_backend.Models.Submission.{InventorySubmission}
use cim_backend.Models.Session.{ReconciliationRequestItem, ReconciliationSnapshot}

pub record User : Type 0 where
  pub email : String
  pub role : String

pub record Store (D F : Type 0) : Type 0 where
  pub inventories : List ℕ
  pub items : List (InventoryItem D F)
  pub transactions : List (InventoryTransaction D F)
  pub submissions : List (InventorySubmission D)
  pub snapshots : List (ReconciliationSnapshot D)
  pub sessions : List (ReconciliationRequestItem D)
  pub users : List User
  pub next_item_id : ℕ
  pub next_transaction_id : ℕ
  pub next_submission_id : ℕ
  pub next_session_id : ℕ
  pub clock : ℕ

-- The function that `WithinTx` runs: an error loses every write.
abbrev pub Tx : Type 0 → Type 0 → Type 0 → Type 0
Tx D F A = Store D F → Outcome AppError (A × Store D F)

module _ {D F : Type 0} where
  infixl 5 ◌>>=◌ ◌>>◌
  abbrev pub ◌>>=◌ : {A B : Type 0} → Tx D F A → (A → Tx D F B) → Tx D F B
  ◌>>=◌ m f s = elim (m s) [ ok (a, s') ↦ f a s' | err e ↦ err e ]

  abbrev pub ◌>>◌ : {B : Type 0} → Tx D F (Unit {0}) → Tx D F B → Tx D F B
  m >> k = m >>= λ _. k

  abbrev pub pure : {A : Type 0} → A → Tx D F A
  pure a s = ok (a, s)

  abbrev pub raise : {A : Type 0} → AppError → Tx D F A
  raise e s = err e

  abbrev pub gets : {A : Type 0} → (Store D F → A) → Tx D F A
  gets f s = ok (f s, s)

  abbrev pub modify : (Store D F → Store D F) → Tx D F (Unit {0})
  modify f s = ok (tt, f s)

  abbrev pub raise_if : Bool → AppError → Tx D F (Unit {0})
  raise_if b e s = if b then err e else ok (tt, s)

  abbrev pub or_raise : {A : Type 0} → Option A → AppError → Tx D F A
  or_raise none e = raise e
  or_raise (some a) e = pure a

  -- A pure part that may fail.
  abbrev pub lift : {A : Type 0} → Outcome AppError A → Tx D F A
  lift (ok a) s = ok (a, s)
  lift (err e) s = err e

  -- `WithinTx`: what a caller sees of a transaction.
  abbrev pub within_tx : {A : Type 0} → Tx D F A → Store D F → Outcome AppError A × Store D F
  within_tx m s = elim (m s) [ ok (a, s') ↦ (ok a, s') | err e ↦ (err e, s) ]

  -- `WithUpdateFields` and the `BeforeCreate` hook need the user's email.
  abbrev pub with_update_fields : Caller → Tx D F (Unit {0})
  with_update_fields ctx s = elim ctx.user_email [
    | none ↦ err prepare_update_fields
    | some _ ↦ ok (tt, s)
  ]
