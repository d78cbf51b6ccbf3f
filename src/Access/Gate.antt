-- ===== src/Access/Gate.antt =====
-- `AuthorizationMiddleware` of internal/middleware/authorization.go, with the subject of
-- internal/auth/casbin_service.go. The casbin library's enforcer is the parameter `Casbin`.
use cim_backend.Prelude.{
  ℕ, String, Bool, ◌||◌, not, Option, none, some, List, [], ◌∷◌, Text, any, find, map, str_eq,
  if◌then◌else◌, Outcome, ok, err, and_then,
}
use cim_backend.Access.Routes.{Resource, is_empty_resource, extract_resource_and_action}

-- The enforcer: its answer, or none where it fails, and the rows of a subject.
pub record Casbin : Type 0 where
  pub enforce : String → Resource → String → Option Bool
  pub implicit_permissions : String → Option (List (List String))
  pub policy_bound_subjects : List String

-- A row of the users that are not deleted.
pub record Account : Type 0 where
  pub email : String
  pub uid : String
  pub role : String
  pub status : String

-- What the authentication put into the request's context, with its method and path.
pub record Request : Type 0 where
  pub user_id : String
  pub user_role : Option String
  pub user_email : Option String
  pub method : String
  pub path : Text

-- What the next handler finds in the context. `permissions` is none where reading them failed.
pub record Granted : Type 0 where
  pub role : String
  pub subject : String
  pub permissions : Option (List (String × String))

-- The replies that end a request here, by their HTTP status.
pub data Denial : Type 0 where
  no_user_id no_user_email user_not_found user_inactive user_pending : Denial
  no_resource enforcement_failed access_denied : Denial

abbrev pub status_code : Denial → ℕ
status_code no_user_id = 401
status_code no_user_email = 401
status_code user_not_found = 403
status_code user_inactive = 403
status_code user_pending = 403
status_code no_resource = 400
status_code enforcement_failed = 500
status_code access_denied = 403

-- `EnforcementSubject`
unfoldable pub enforcement_subject : Casbin → String → String → String
enforcement_subject casbin uid role =
    if any (str_eq uid) casbin.policy_bound_subjects then uid else role

-- `getUserPermissions`: the rows with a resource and an action.
unfoldable pub policy_permissions : List (List String) → List (String × String)
policy_permissions ((role ∷ resource ∷ action ∷ _) ∷ policies) =
    (resource, action) ∷ policy_permissions policies
policy_permissions (_ ∷ policies) = policy_permissions policies
policy_permissions [] = []

unfoldable pub get_user_permissions : Casbin → String → Option (List (String × String))
get_user_permissions casbin subject = elim (casbin.implicit_permissions subject) [
  | none ↦ none
  | some policies ↦ some (policy_permissions policies)
]

-- `GetByEmail`
abbrev pub account_by_email : String → List Account → Option Account
account_by_email email accounts = find (λ a. str_eq a.email email) accounts

-- `UpdateUserUID`; an error of it is only printed.
abbrev pub update_user_uid : String → String → List Account → List Account
update_user_uid email uid accounts =
    map (λ a. if str_eq a.email email then record a { uid = uid } else a) accounts

abbrev pub present : Option String → Option String
present none = none
present (some s) = if str_eq s "" then none else some s

-- The role of the caller, from the context or the users; the row's UID is repointed.
unfoldable pub resolve_role : Request → List Account → Outcome Denial String × List Account
resolve_role req accounts = elim (present req.user_role) [
  | some role ↦ (ok role, accounts)
  | none ↦ elim (present req.user_email) [
    | none ↦ (err no_user_email, accounts)
    | some email ↦ elim (account_by_email email accounts) [
      | none ↦ (err user_not_found, accounts)
      | some account ↦
          if str_eq account.status "inactive"
          then (err user_inactive, accounts)
          else if str_eq account.status "pending"
          then (err user_pending, accounts)
          else (ok account.role, update_user_uid email req.user_id accounts)
    ]
  ]
]

-- From the role on: the resource, the enforcer, and what the handler may read.
unfoldable pub enforce_route : Casbin → Request → String → Outcome Denial Granted
enforce_route casbin req role =
    let target = extract_resource_and_action req.method req.path in
    let subject = enforcement_subject casbin req.user_id role in
    let granted : Granted = record {
      role = role;
      subject = subject;
      permissions = get_user_permissions casbin subject;
    } in
    if is_empty_resource target.0 || str_eq target.1 ""
    then err no_resource
    else elim (casbin.enforce subject target.0 target.1) [
      | none ↦ err enforcement_failed
      | some allowed ↦ if not allowed then err access_denied else ok granted
    ]

-- `AuthorizationMiddleware`: a reply, or what the next handler is called with.
unfoldable pub authorize : Casbin → Request → List Account → Outcome Denial Granted × List Account
authorize casbin req accounts =
    let resolved = resolve_role req accounts in
    if str_eq req.user_id ""
    then (err no_user_id, accounts)
    else (and_then resolved.0 (enforce_route casbin req), resolved.1)
