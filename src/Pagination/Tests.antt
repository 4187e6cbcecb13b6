-- ===== src/Pagination/Tests.antt =====
-- Runs of the toolbar, and the theorems at concrete props.
use voxeltoad.Common.{◌≡◌, refl, ◌≤◌, ◌<◌, ◌*◌, ◌-◌, none, some, [], ◌∷◌, length, arith}
use voxeltoad.Pagination.{page, gap, pages_from, build_page_window, toolbar, total_pages}
use voxeltoad.Pagination.Window.{Spans, build_page_window-Spans, length-build_page_window}
use voxeltoad.Pagination.Buttons.{IsSound, toolbar-IsSound, total_pages_exact}

window_middle :
    build_page_window 7 20
    ≡ page 1 ∷ gap ∷ page 5 ∷ page 6 ∷ page 7 ∷ page 8 ∷ page 9 ∷ gap ∷ page 20 ∷ []
unfolding build_page_window pages_from
window_middle = refl

buttons_first : ((toolbar 1 10 25 500).on_prev ≡ none) × ((toolbar 1 10 25 500).on_last ≡ some 3)
unfolding toolbar total_pages
buttons_first = (refl, refl)

build_page_window-Spans_example : Spans 20 (build_page_window 7 20)
build_page_window-Spans_example = build_page_window-Spans 7 20 (omega arith) (omega arith)

length-build_page_window_example : length (build_page_window 7 20) ≤ 9
length-build_page_window_example = length-build_page_window 7 20

toolbar-IsSound_example : IsSound (toolbar 7 10 1000 50)
toolbar-IsSound_example = toolbar-IsSound 7 10 1000 50 (omega arith)

total_pages_exact_example :
    ((total_pages 25 10 500 - 1) * 10 < 25) × (25 ≤ total_pages 25 10 500 * 10)
total_pages_exact_example = total_pages_exact 25 10 500 (omega arith) (omega arith) (omega arith)
