-- ===== src/Access/Routes.antt =====
-- The route table of internal/middleware/authorization.go, and what it makes of a request.
use cim_backend.Prelude.{
  split, String, Bool, true, false, ◌&&◌, ◌||◌, leb, none, some, List, [], ◌∷◌, Text, text_eq,
  length, find, str_eq, if◌then◌else◌,
}
use cim_backend.Access.Paths.{points, slash, trim_prefix, match_path_pattern}

-- An empty action stands for the one of the method.
pub record RouteMapping : Type 0 where
  pub method : String
  pub path_pattern : String
  pub resource : String
  pub action : String

abbrev route : String → String → String → String → RouteMapping
route method path_pattern resource action = record {
  method = method;
  path_pattern = path_pattern;
  resource = resource;
  action = action;
}

unfoldable pub custom_route_mappings : List RouteMapping
custom_route_mappings =
    route "POST" "/purchase-orders/upload" "purchase-orders" "import"
    ∷ route "POST" "/purchase-orders/upload-files/*/process" "purchase-orders" "import"
    ∷ route "POST" "/payment-receipt-forms/*/submit" "payment-receipt-forms" "submit"
    ∷ route "GET" "/payment-receipt-forms/pending" "payment-receipt-forms" "view-pending"
    ∷ route "POST" "/inventories/*/reconcile/initiate" "inventory-submissions"
        "initiate_reconciliation"
    ∷ route "*" "/inventories/*/reconcile" "inventory-submissions" ""
    ∷ route "POST" "/inventories/submissions/*/close" "inventory-submissions" "recon_manage"
    ∷ route "POST" "/inventories/submissions/*/reopen" "inventory-submissions" "recon_manage"
    ∷ route "POST" "/inventories/submissions/*/start-processing" "inventory-submissions"
        "recon_manage"
    ∷ route "POST" "/inventories/submissions/*/cancel" "inventory-submissions" "recon_manage"
    ∷ route "POST" "/inventories/submissions/*/reconciliation-items/*/review-label"
        "inventory-submissions" "recon_item_update"
    ∷ route "PUT" "/inventories/submissions/*/reconciliation-items/*" "inventory-submissions"
        "recon_item_update"
    ∷ route "DELETE" "/inventories/submissions/*/reconciliation-items/*" "inventory-submissions"
        "recon_item_delete"
    ∷ route "POST" "/inventories/submissions/*/reconciliation-items" "inventory-submissions"
        "recon_item_create"
    ∷ route "GET" "/inventories/submissions/*/reconciliation-items" "inventory-submissions"
        "recon_item_view"
    ∷ route "GET" "/inventories/submissions/*" "inventory-submissions" "recon_item_view"
    ∷ route "*" "/inventories/*/dispose" "inventory-submissions" ""
    ∷ route "*" "/inventories/transfer" "inventory-submissions" ""
    ∷ route "GET" "/inventories/*/export/inventory-in-out" "inventory-export" "view"
    ∷ route "PUT" "/purchase-orders/*/receive" "purchase-orders" "confirm"
    ∷ route "POST" "/purchase-orders/*/revenue-expense/retry" "purchase-orders" "retry_excel"
    ∷ route "PUT" "/sale-orders/*/status" "sale-orders" "update_status"
    ∷ route "GET" "/revenue-expenses/finalize" "revenue-expenses" "view"
    ∷ route "POST" "/revenue-expenses/finalize" "revenue-expenses" "create"
    ∷ route "GET" "/tools/inventories" "initial-stock-import" "import"
    ∷ route "POST" "/tools/initial-stock/sheets" "initial-stock-import" "import"
    ∷ route "POST" "/tools/initial-stock/import" "initial-stock-import" "import"
    ∷ []

unfoldable pub match_route_mapping : String → Text → RouteMapping → Bool
match_route_mapping method path mapping =
    (str_eq mapping.method "*" || str_eq mapping.method method)
    && match_path_pattern path (points mapping.path_pattern)

unfoldable pub method_to_action : String → String
method_to_action method =
    if str_eq method "GET"
    then "view"
    else if str_eq method "POST"
    then "create"
    else if str_eq method "PUT" || str_eq method "PATCH"
    then "update"
    else if str_eq method "DELETE"
    then "delete"
    else ""

-- A resource that the path names itself.
pub data Resource : Type 0 where
  named : String → Resource
  segment : Text → Resource

abbrev second_is : Text → List Text → Bool
second_is word (_ ∷ part ∷ _) = text_eq part word
second_is word _ = false

abbrev first_part : List Text → Text
first_part [] = []
first_part (part ∷ parts) = part

unfoldable pub path_to_resource : Text → Resource
path_to_resource path =
    let segments = split slash (trim_prefix (slash ∷ []) path) in
    let resource = first_part segments in
    if text_eq resource (points "inventories") && leb 3 (length segments)
    then named "inventory-items"
    else if text_eq resource (points "users") && second_is (points "permissions") segments
    then named "permissions"
    else segment resource

abbrev pub is_empty_resource : Resource → Bool
is_empty_resource (named r) = str_eq r ""
is_empty_resource (segment []) = true
is_empty_resource (segment (c ∷ cs)) = false

abbrev pub or_method : String → String → String
or_method action method = if str_eq action "" then method_to_action method else action

-- `extractResourceAndAction`: the first mapping that matches, and otherwise the path's own resource.
unfoldable pub extract_resource_and_action : String → Text → Resource × String
unfolding method_to_action
extract_resource_and_action method full_path =
    let path = trim_prefix (points "/api/v1") full_path in
    let resource = path_to_resource path in
    elim (find (match_route_mapping method path) custom_route_mappings) [
      | some mapping ↦ (named mapping.resource, or_method mapping.action method)
      | none ↦
          if is_empty_resource resource then (named "", "") else (resource, method_to_action method)
    ]
