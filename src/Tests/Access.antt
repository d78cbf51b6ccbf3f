-- ===== src/Tests/Access.antt =====
-- Requests at the middleware.
use cim_backend.Prelude.{split, ◌≡◌, ◌↔◌, refl, true, none, some, List, [], ◌∷◌, ok, ◌&&◌, str_eq}
use cim_backend.Access.Paths.{
  points, slash, trim_slashes, trim_prefix, match_parts, match_path_pattern,
}
use cim_backend.Access.Routes.{
  custom_route_mappings, match_route_mapping, method_to_action, path_to_resource,
  extract_resource_and_action, named,
}
use cim_backend.Access.Gate.{
  Casbin, Account, Request, Granted, enforcement_subject, get_user_permissions, resolve_role,
  enforce_route, authorize,
}
use cim_backend.Access.Matching.{Matches, match_path_pattern_iff}
use cim_backend.Access.Allowed.{Allowed, authorize-Allowed}

-- The route that starts a reconciliation comes before the broader one.
initiate_route :
    extract_resource_and_action "POST" (points "/api/v1/inventories/3/reconcile/initiate")
    ≡ (named "inventory-submissions", "initiate_reconciliation")
unfolding extract_resource_and_action trim_prefix custom_route_mappings match_route_mapping
    match_path_pattern trim_slashes split match_parts path_to_resource
initiate_route = refl

reconcile_route :
    extract_resource_and_action "POST" (points "/api/v1/inventories/3/reconcile")
    ≡ (named "inventory-submissions", "create")
unfolding extract_resource_and_action trim_prefix custom_route_mappings match_route_mapping
    match_path_pattern trim_slashes split match_parts path_to_resource method_to_action
reconcile_route = refl

abbrev staff_may_start : Casbin
staff_may_start = record {
  enforce = λ subject resource action.
      some (str_eq subject "staff" && str_eq action "initiate_reconciliation");
  implicit_permissions = λ subject. none;
  policy_bound_subjects = [];
}

abbrev ann : Request
ann = record {
  user_id = "u1";
  user_role = none;
  user_email = some "ann@example.com";
  method = "POST";
  path = points "/api/v1/inventories/3/reconcile/initiate";
}

abbrev accounts : List Account
accounts = record { email = "ann@example.com"; uid = "u1"; role = "staff"; status = "active" } ∷ []

abbrev granted_to_ann : Granted
granted_to_ann = record { role = "staff"; subject = "staff"; permissions = none }

ann_passes : authorize staff_may_start ann accounts ≡ (ok granted_to_ann, accounts)
unfolding authorize resolve_role enforce_route enforcement_subject get_user_permissions
    extract_resource_and_action trim_prefix custom_route_mappings match_route_mapping
    match_path_pattern trim_slashes split match_parts path_to_resource
ann_passes = refl

authorize-Allowed_example : Allowed staff_may_start ann accounts granted_to_ann
authorize-Allowed_example =
    authorize-Allowed staff_may_start ann accounts accounts granted_to_ann ann_passes

match_path_pattern_iff_example :
    (match_path_pattern (points "/users/7/") (points "/users/*") ≡ true)
    ↔ Matches
        (split slash (trim_slashes (points "/users/7/")))
        (split slash (trim_slashes (points "/users/*")))
match_path_pattern_iff_example = match_path_pattern_iff (points "/users/7/") (points "/users/*")
