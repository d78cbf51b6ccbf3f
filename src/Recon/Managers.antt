-- ===== src/Recon/Managers.antt =====
-- `managerOwnedSessions` of internal/services/inventory_reconcile_processing.go. The policy engine
-- (github.com/casbin/casbin) is the parameter `enforce`: subject, resource, action; `none` is an error.
use cim_backend.Prelude.{
  ℕ, String, Bool, false, ◌==◌, Option, none, some, List, [], ◌∷◌, any, str_eq, Outcome, ok, err,
  and_then, if◌then◌else◌,
}
use cim_backend.Errors.{AppError, enforce_failed}
use cim_backend.Caller.{resource_inventory_submissions, action_recon_manage}
use cim_backend.Models.Session.{ReconciliationRequestItem}
use cim_backend.Store.{Store}
use cim_backend.Store.Sessions.{role_by_email}

abbrev pub Enforce : Type 0
Enforce = String → String → String → Option Bool

-- An empty creator is not looked up.
abbrev pub creator_role : {D F : Type 0} → Store D F → String → Option String
creator_role s email = if str_eq email "" then none else role_by_email email s

abbrev pub role_manages : Enforce → Option String → Outcome AppError Bool
role_manages enforce none = ok false
role_manages enforce (some role) =
    elim (enforce role resource_inventory_submissions action_recon_manage) [
      | none ↦ err enforce_failed
      | some manages ↦ ok manages
    ]

-- The ids of the sessions whose creator may manage reconciliations.
unfoldable pub manager_owned_sessions :
    {D F : Type 0}
    → Enforce
    → Store D F
    → List (ReconciliationRequestItem D)
    → Outcome AppError (List ℕ)
manager_owned_sessions enforce s [] = ok []
manager_owned_sessions enforce s (row ∷ rows) =
    and_then (role_manages enforce (creator_role s row.created_by)) (λ manages.
      and_then (manager_owned_sessions enforce s rows)
        (λ ids. ok (if manages then row.id ∷ ids else ids)))

abbrev pub owned : List ℕ → ℕ → Bool
owned ids id = any (λ j. j == id) ids
