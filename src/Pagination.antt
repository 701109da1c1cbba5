-- ===== src/Pagination.antt =====
-- apps/api/billcommons_api/pagination.py and the slice that the list endpoints take. FastAPI refuses a
-- page outside 1 to MAX_PAGE and a page size below 1, so the numbers are natural.
pub mod Pages
mod Examples
use billcommons.Base.{
  ℕ, ◌+◌, ◌-◌, ◌*◌, ◌/◌, min, max, Option, none, some, List, take, drop, ltb, if◌then◌else◌,
}

abbrev pub max_per_page : ℕ
max_per_page = 50

abbrev pub max_result_window : ℕ
max_result_window = 50000

abbrev pub max_page : ℕ
max_page = max_result_window / max_per_page

abbrev pub clamp_per_page : ℕ → ℕ → ℕ
clamp_per_page per_page maximum = max 1 (min per_page maximum)

unfoldable pub total_pages : ℕ → ℕ → ℕ
total_pages total per_page = if ltb 0 total then (total + per_page - 1) / per_page else 0

abbrev pub offset_of : ℕ → ℕ → ℕ
offset_of page per_page = (page - 1) * per_page

-- stmt.offset((page - 1) * per_page).limit(per_page)
abbrev pub page_rows {ℓ} : {A : Type ℓ} → ℕ → ℕ → List A → List A
page_rows page per_page rows = take per_page (drop (offset_of page per_page) rows)

-- The offset that bad_request reports.
unfoldable pub enforce_result_window : ℕ → ℕ → Option ℕ
enforce_result_window page per_page =
    if ltb max_result_window (offset_of page per_page) then some (offset_of page per_page) else none
