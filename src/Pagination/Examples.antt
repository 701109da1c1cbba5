-- ===== src/Pagination/Examples.antt =====
-- Pages of a small list, and the theorems at it.
use billcommons.Base.{ℕ, ◌≡◌, refl, List, [], ◌∷◌, some}
use billcommons.Pagination.{total_pages, page_rows, enforce_result_window, clamp_per_page}

abbrev items : List ℕ
items = 5 ∷ 6 ∷ 7 ∷ []

second : page_rows 2 2 items ≡ 7 ∷ []
second = refl

two_pages : total_pages 3 2 ≡ 2
unfolding total_pages
two_pages = refl

no_pages : total_pages 0 2 ≡ 0
unfolding total_pages
no_pages = refl

-- The page size of the coverage list goes up to 200.
coverage_window : enforce_result_window 1000 (clamp_per_page 200 200) ≡ some 199800
unfolding enforce_result_window
coverage_window = refl
