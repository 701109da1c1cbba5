-- ===== src/Pagination/Pages.antt =====
-- The pages of a list, one after the other, and how deep they reach.
use native.Mathlib.Nat.{lt-div-mul-add, suc-mul, mul-le-mul}
use billcommons.Base.{
  ℕ, zero, suc, ◌+◌, ◌-◌, ◌*◌, ◌/◌, ◌≤◌, ◌<◌, ◌≡◌, refl, sym, ◌∙◌, ap, none, List, [], ◌∷◌, ◌++◌,
  take, drop, length, arith,
}
use billcommons.Pagination.{
  max_per_page, max_page, clamp_per_page, total_pages, page_rows, enforce_result_window,
}

module _ {ℓ} {A : Type ℓ} where
  -- The first pages, in order.
  unfoldable pub pages : ℕ → ℕ → List A → List A
  pages zero per_page rows = []
  pages (suc n) per_page rows = pages n per_page rows ++ page_rows (suc n) per_page rows

  take-nil : (n : ℕ) → take {A = A} n [] ≡ []
  take-nil zero = refl
  take-nil (suc n) = refl

  take-add : (m n : ℕ) (xs : List A) → take m xs ++ take n (drop m xs) ≡ take (m + n) xs
  take-add zero n xs = ap (λ k. take k xs) (omega arith)
  take-add (suc m) n [] = take-nil n ∙ sym (take-nil (suc m + n))
  take-add (suc m) n (x ∷ xs) =
      let shift : suc (m + n) ≡ suc m + n = omega arith in
      ap (λ ys. x ∷ ys) (take-add m n xs) ∙ ap (λ k. take k (x ∷ xs)) shift

  take-all : (n : ℕ) (xs : List A) → length xs ≤ n → take n xs ≡ xs
  take-all zero [] h = refl
  take-all zero (x ∷ xs) h = ground (arith, h)
  take-all (suc n) [] h = refl
  take-all (suc n) (x ∷ xs) h = ap (λ ys. x ∷ ys) (take-all n xs (omega (arith, h)))

  pages-take : (n per_page : ℕ) (rows : List A) → pages n per_page rows ≡ take (n * per_page) rows
  unfolding pages
  pages-take zero per_page rows =
      let none_yet : 0 ≡ 0 * per_page = omega arith in ap (λ k. take k rows) none_yet
  pages-take (suc n) per_page rows =
      let back : suc n - 1 ≡ n = omega arith in
      let grown : n * per_page + per_page ≡ suc n * per_page = sym (suc-mul n per_page) in
      ap (λ ys. ys ++ page_rows (suc n) per_page rows) (pages-take n per_page rows)
      ∙ ap (λ k. take (n * per_page) rows ++ take per_page (drop (k * per_page) rows)) back
      ∙ take-add (n * per_page) per_page rows
      ∙ ap (λ k. take k rows) grown

-- The pages are enough for the rows.
total_pages-enough :
    (total per_page : ℕ) → 1 ≤ per_page → total ≤ total_pages total per_page * per_page
unfolding total_pages
total_pages-enough total per_page h =
    let reach : total + per_page - 1 < (total + per_page - 1) / per_page * per_page + per_page =
      lt-div-mul-add h in
    ground (arith, h, reach)

-- The pages from 1 to `total_pages` of the number of rows are the rows, each once and in order.
pub pages-total_pages {ℓ} :
    {A : Type ℓ} (per_page : ℕ) (rows : List A)
    → 1 ≤ per_page
    → pages (total_pages (length rows) per_page) per_page rows ≡ rows
pages-total_pages per_page rows h =
    pages-take (total_pages (length rows) per_page) per_page rows
    ∙ take-all _ rows (total_pages-enough (length rows) per_page h)

-- No page up to MAX_PAGE, whatever the page size that is asked for, is outside the result window when
-- the size is clamped to MAX_PER_PAGE.
pub enforce_result_window-clamped :
    (page per_page : ℕ)
    → page ≤ max_page
    → enforce_result_window page (clamp_per_page per_page max_per_page) ≡ none
unfolding enforce_result_window
enforce_result_window-clamped page per_page h =
    let deep : (page - 1) * clamp_per_page per_page max_per_page ≤ 999 * 50 =
      mul-le-mul {n₂ = 999} {m₂ = 50} (omega (arith, h)) (omega arith) in
    ground (arith, deep)
