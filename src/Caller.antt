-- ===== src/Caller.antt =====
-- pkg/auth.go: the user that a request's context carries.
use cim_backend.Prelude.{String, Bool, false, ◌&&◌, Option, none, some, List, any, str_eq}

pub record Permission : Type 0 where
  pub resource : String
  pub action : String

-- A missing value is `none`.
pub record Caller : Type 0 where
  pub user_email : Option String
  pub permissions : Option (List Permission)

abbrev pub resource_inventory_submissions : String
resource_inventory_submissions = "inventory-submissions"

abbrev pub action_approve : String
action_approve = "approve"

abbrev pub action_initiate_reconciliation : String
action_initiate_reconciliation = "initiate_reconciliation"

abbrev pub action_recon_manage : String
action_recon_manage = "recon_manage"

-- `HasPermission`
unfoldable pub has_permission : Caller → String → String → Bool
has_permission ctx resource action = elim ctx.permissions [
  | none ↦ false
  | some permissions ↦ any (λ p. str_eq p.resource resource && str_eq p.action action) permissions
]
