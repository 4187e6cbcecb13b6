-- ===== src/Pagination.antt =====
-- web/src/components/ui/pagination.tsx: the offset-pagination toolbar, less its markup. The page
-- size is positive: the selector offers `page_size_options`.
pub mod Window
pub mod Buttons
mod Tests
use voxeltoad.Common.{
  ℕ, zero, suc, ◌+◌, ◌-◌, ◌*◌, ◌/◌, min, max, Bool, Option, none, some, List, [], ◌∷◌, ◌++◌, leb,
  ltb, if◌then◌else◌,
}

abbrev pub page_size_options : List ℕ
page_size_options = 10 ∷ 20 ∷ 50 ∷ 100 ∷ []

-- An element of the page list: a page number or "…".
pub data Slot : Type 0 where
  page : ℕ → Slot
  gap : Slot

-- `for (let p = start; …; p++) window.push(p)`, with the number of rounds.
unfoldable pub pages_from : ℕ → ℕ → List Slot
pages_from start zero = []
pages_from start (suc count) = page start ∷ pages_from (start + 1) count

-- `if (test) window.push("…")`
abbrev pub gap_if : Bool → List Slot
gap_if test = if test then gap ∷ [] else []

unfoldable pub build_page_window : ℕ → ℕ → List Slot
build_page_window current total =
    let radius : ℕ = 2 in
    let start = max 2 (current - radius) in
    let end = min (total - 1) (current + radius) in
    if leb total 7
    then pages_from 1 total
    else page 1
      ∷ (gap_if (ltb 2 start)
          ++ (pages_from start (end + 1 - start)
              ++ (gap_if (ltb end (total - 1)) ++ page total ∷ [])))

-- `Math.max(1, Math.min(Math.ceil(total / pageSize), maxPage))`, for a page size that is not zero: the
-- source divides by zero to NaN or Infinity
unfoldable pub total_pages : ℕ → ℕ → ℕ → ℕ
total_pages total page_size max_page = max 1 (min ((total + page_size - 1) / page_size) max_page)

-- What the component computes from its props: the page that it shows as current, the page list and
-- the page that each button asks for, if it is enabled.
pub record Toolbar : Type 0 where
  pub pages_total : ℕ
  pub safe_page : ℕ
  pub pages : List Slot
  pub on_first : Option ℕ
  pub on_prev : Option ℕ
  pub on_next : Option ℕ
  pub on_last : Option ℕ

unfoldable pub toolbar : ℕ → ℕ → ℕ → ℕ → Toolbar
toolbar current page_size total max_page =
    let last = total_pages total page_size max_page in
    let safe = min (max current 1) last in
    record {
      pages_total = last;
      safe_page = safe;
      pages = build_page_window safe last;
      on_first = if ltb 1 safe then some 1 else none;
      on_prev = if ltb 1 safe then some (safe - 1) else none;
      on_next = if ltb safe last then some (safe + 1) else none;
      on_last = if ltb safe last then some last else none;
    }
