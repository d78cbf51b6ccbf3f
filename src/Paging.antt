-- ===== src/Paging.antt =====
-- internal/models/pagination.go, and the page walk of GetInventoryTimeline in
-- internal/services/inventory_timeline_service.go: page numbers start at 1.
pub mod Bounds
use cim_backend.Prelude.{
  ℕ, ◌+◌, ◌-◌, ◌*◌, String, ℤ, pos, negsuc, Bool, ◌&&◌, ◌||◌, not, ltb, ◌==◌, Option, none, some,
  str_eq, if◌then◌else◌,
}
use Prim.Native.Nat.{◌/◌, ◌%◌, ◌^◌}

abbrev pub default_page : ℕ
default_page = 1

abbrev pub default_limit : ℕ
default_limit = 20

abbrev pub max_limit : ℕ
max_limit = 100

-- A number that is not positive is replaced by the default.
abbrev pub positive_or : ℕ → ℤ → ℕ
positive_or default (pos n) = if n == 0 then default else n
positive_or default (negsuc n) = default

abbrev pub capped : ℕ → ℕ → ℕ
capped most n = if ltb most n then most else n

-- The fields of `ListParams` that paginate, as they are requested.
pub record ListParams : Type 0 where
  pub page : ℤ
  pub limit : ℤ
  pub order : String

-- The fields after `ValidateAndSetDefaults`.
pub record Page : Type 0 where
  pub page : ℕ
  pub limit : ℕ
  pub order : String

unfoldable pub validate_and_set_defaults : ListParams → Page
validate_and_set_defaults p = record {
  page = positive_or default_page p.page;
  limit = capped max_limit (positive_or default_limit p.limit);
  order = if not (str_eq p.order "asc") && not (str_eq p.order "desc") then "desc" else p.order;
}

-- A result of arithmetic on `int`, of 64 bits.
unfoldable pub int64 : ℕ → ℤ
int64 n = let low = n % 2 ^ 64 in if ltb low (2 ^ 63) then pos low else negsuc (2 ^ 64 - 1 - low)

-- `GetOffset`
unfoldable pub get_offset : Page → ℤ
get_offset p = int64 ((p.page - 1) * p.limit)

-- The `TotalPages` of `NewPaginationResult`, and of the timeline.
unfoldable pub total_pages : ℕ → ℕ → ℕ
total_pages total limit = (total + limit - 1) / limit

abbrev pub default_timeline_page_limit : ℕ
default_timeline_page_limit = 50

abbrev pub max_timeline_page_limit : ℕ
max_timeline_page_limit = 200

-- `normalizePageLimit`
unfoldable pub normalize_page_limit : ℤ → ℤ → ℕ × ℕ
normalize_page_limit page limit = (
  positive_or 1 page,
  capped max_timeline_page_limit (positive_or default_timeline_page_limit limit),
)

-- The offset and limit of the query of a timeline, or none where the page is empty.
unfoldable pub timeline_window : ℤ → ℤ → ℕ → Option (ℕ × ℕ)
timeline_window requested_page requested_limit total =
    let (page, limit) = normalize_page_limit requested_page requested_limit in
    if total == 0 || ltb (total_pages total limit) page
    then none
    else some ((page - 1) * limit, limit)
