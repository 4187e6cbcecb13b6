-- ===== src/Pagination/Buttons.antt =====
-- What the toolbar shows and asks for, for every combination of its props.
use voxeltoad.Common.{
  ℕ, zero, suc, ◌+◌, ◌-◌, ◌*◌, ◌/◌, ◌%◌, ◌≤◌, ◌<◌, min, max, ◌≡◌, Option, none, some, arith, length,
}
use voxeltoad.Pagination.{total_pages, toolbar, Toolbar}
use voxeltoad.Pagination.Window.{
  Spans, shows, build_page_window-Spans, build_page_window-shows, length-build_page_window,
}
use voxeltoad.Common.{true}

-- The page that a button asks for, if any, lies between the first and the last page.
abbrev pub InRange : ℕ → Option ℕ → Type 0
InRange last none = Unit
InRange last (some p) = (1 ≤ p) × (p ≤ last)

-- The toolbar is sound: the shown page is a page, the page list spans all pages, shows that page
-- and is short, and no button leads out of range.
pub record IsSound (t : Toolbar) : Type 0 where
  pub some_page : 1 ≤ t.pages_total
  pub page_low : 1 ≤ t.safe_page
  pub page_high : t.safe_page ≤ t.pages_total
  pub spans : Spans t.pages_total t.pages
  pub shown : shows t.safe_page t.pages ≡ true
  pub short : length t.pages ≤ 9
  pub first : InRange t.pages_total t.on_first
  pub prev : InRange t.pages_total t.on_prev
  pub next : InRange t.pages_total t.on_next
  pub last : InRange t.pages_total t.on_last

total_pages-pos : (total size most : ℕ) → 1 ≤ total_pages total size most
unfolding total_pages
total_pages-pos total size most = omega arith

-- For every page, total and cap, and every page size that is not zero, the toolbar is sound.
pub toolbar-IsSound :
    (current size total most : ℕ) → 0 < size → IsSound (toolbar current size total most)
unfolding toolbar
toolbar-IsSound current size total most positive =
    let pos = total_pages-pos total size most in
    let low : 1 ≤ min (max current 1) (total_pages total size most) = omega arith in
    let high : min (max current 1) (total_pages total size most) ≤ total_pages total size most =
      omega arith in
    record {
      some_page = pos;
      page_low = low;
      page_high = high;
      spans = build_page_window-Spans _ _ low high;
      shown = build_page_window-shows _ _ low high;
      short = length-build_page_window _ _;
      first = ground arith;
      prev = ground arith;
      next = ground arith;
      last = ground arith;
    }

-- The quotient rounded up, by its defining inequalities.
module _ (total size : ℕ) (h : 0 < size) (pos : 0 < total) where
  ceil_bounds :
      (q r : ℕ)
      → q * size + r ≡ total + size - 1
      → r < size
      → (1 ≤ q) × ((q - 1) * size < total) × (total ≤ q * size)
  ceil_bounds zero r e k = absurd (omega arith)
  ceil_bounds (suc q) r e k = (omega arith, grind arith, grind arith)

  ceil_most : (q r most : ℕ) → q * size + r ≡ total + size - 1 → total ≤ most * size → q ≤ most
  ceil_most q r most e fits = grind arith

-- With a positive page size and no more pages than the cap, the last page is the one that holds the
-- last record: the pages before it do not hold all records, and all pages together do.
pub total_pages_exact :
    (total size most : ℕ)
    → 0 < size
    → 0 < total
    → total ≤ most * size
    → ((total_pages total size most - 1) * size < total)
      × (total ≤ total_pages total size most * size)
unfolding total_pages
total_pages_exact total size most h pos fits =
    let q = (total + size - 1) / size in
    let e : q * size + (total + size - 1) % size ≡ total + size - 1 = omega arith in
    let (one, below, above) = ceil_bounds total size h pos q _ e (omega arith) in
    let low = ceil_most total size h pos q _ most e fits in
    let same : max 1 (min q most) ≡ q = omega arith in rw same (below, above)
