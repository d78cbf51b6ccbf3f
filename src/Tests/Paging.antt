-- ===== src/Tests/Paging.antt =====
-- Pages of a timeline.
use cim_backend.Prelude.{ℕ, ◌+◌, ◌≡◌, ◌≤◌, ◌<◌, refl, arith, pos, negsuc, some}
use cim_backend.Paging.{ListParams, total_pages, normalize_page_limit, timeline_window}
use cim_backend.Paging.Bounds.{timeline_window-bounds, timeline_window-covers}

-- Page 3 of 25 rows in pages of 10.
third_page : timeline_window (pos 3) (pos 10) 25 ≡ some (20, 10)
unfolding timeline_window normalize_page_limit total_pages
third_page = refl

timeline_window-bounds_example : (20 < 25) × (1 ≤ 10) × (10 ≤ 200)
timeline_window-bounds_example = timeline_window-bounds (pos 3) (pos 10) 25 20 10 third_page

timeline_window-covers_example :
    (page : ℕ) × (offset : ℕ) × (count : ℕ) × (timeline_window (pos page) (negsuc 4) 120
      ≡ some (offset, count))
    × (offset ≤ 119)
    × (119 < offset + count)
timeline_window-covers_example = timeline_window-covers (negsuc 4) 120 119 (omega arith)

abbrev asked : ListParams
asked = record { page = pos 3; limit = pos 500; order = "up" }
