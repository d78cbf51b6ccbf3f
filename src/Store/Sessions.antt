-- ===== src/Store/Sessions.antt =====
-- internal/repository/reconciliation_request_item_repository.go and the user lookups.
use cim_backend.Prelude.{
  ℕ, ◌+◌, String, ◌&&◌, not, ◌==◌, Option, none, some, List, [], ◌∷◌, ◌++◌, map, find, select,
  str_eq, Text, if◌then◌else◌,
}
use cim_backend.Errors.{prepare_update_fields}
use cim_backend.Caller.{Caller}
use cim_backend.Models.Session.{ReconciliationRequestItem, SessionPayload, SessionStatus}
use cim_backend.Store.Tables.{
  Store, Tx, User, ◌>>=◌, ◌>>◌, pure, gets, modify, or_raise, with_update_fields,
}

abbrev last_role : String → Option String → List User → Option String
last_role email found [] = found
last_role email found (u ∷ us) =
    last_role email (if str_eq u.email email then some u.role else found) us

module _ {D F : Type 0} where
  -- `Create`: the hook sets the creator from the context.
  unfoldable pub create_session :
      Caller → ℕ → Text → SessionPayload D → SessionStatus → Tx D F (ReconciliationRequestItem D)
  create_session ctx submission_id label payload status = do
    email ← or_raise ctx.user_email prepare_update_fields
    id ← gets (λ s. s.next_session_id)
    now ← gets (λ s. s.clock)
    let row : ReconciliationRequestItem D = record {
      id = id;
      submission_id = submission_id;
      label = label;
      payload = payload;
      status = status;
      created_by = email;
      created_at = now;
    }
    modify (λ s. record s {
      sessions = s.sessions ++ row ∷ [];
      next_session_id = s.next_session_id + 1;
    })
    pure row

  unfoldable pub session_by_id : ℕ → Store D F → Option (ReconciliationRequestItem D)
  session_by_id id s = find (λ r. r.id == id) s.sessions

  -- Rows are kept in the order of their creation.
  unfoldable pub list_by_submission : ℕ → Store D F → List (ReconciliationRequestItem D)
  list_by_submission id s = select (λ r. r.submission_id == id) s.sessions

  unfoldable pub list_by_submission_and_creator :
      ℕ → String → Store D F → List (ReconciliationRequestItem D)
  list_by_submission_and_creator id creator s =
      select (λ r. r.submission_id == id && str_eq r.created_by creator) s.sessions

  unfoldable pub update_session :
      ℕ → (ReconciliationRequestItem D → ReconciliationRequestItem D) → Store D F → Store D F
  update_session id f s = record s {
    sessions = map (λ r. if r.id == id then f r else r) s.sessions;
  }

  unfoldable pub update_label_payload_and_status :
      Caller → ℕ → Text → SessionPayload D → SessionStatus → Tx D F (Unit {0})
  update_label_payload_and_status ctx id label payload status = do
    with_update_fields ctx
    modify (update_session id (λ r. record r { label = label; payload = payload; status = status }))

  unfoldable pub update_session_status : Caller → ℕ → SessionStatus → Tx D F (Unit {0})
  update_session_status ctx id status = do
    with_update_fields ctx
    modify (update_session id (λ r. record r { status = status }))

  unfoldable pub soft_delete_session : Caller → ℕ → Tx D F (Unit {0})
  soft_delete_session ctx id = do
    with_update_fields ctx
    modify (λ s. record s { sessions = select (λ r. not (r.id == id)) s.sessions })

  -- `GetRolesByEmails`, at one email of the map that it returns.
  unfoldable pub role_by_email : String → Store D F → Option String
  role_by_email email s = last_role email none s.users
