-- ===== src/Desktop/Viewer/Tests.antt =====
-- The viewer on a session of two rows, and the theorems at it.
use voxeltoad.Common.{
  ℕ, zero, suc, ◌≡◌, ◌≤◌, refl, ap, inl, inr, true, false, length, none, some, List, [], ◌∷◌, arith,
}
use voxeltoad.Js.Exception.{Outcome, returned, threw, other_error, error_message}
use voxeltoad.Js.Samples.{plain_runtime}
use voxeltoad.Trace.{TraceDetailLike, pick_baseline, messages_of}
use voxeltoad.Desktop.Viewer.Page.{
  TraceSummary, State, Event, listed, clicked, replied, find_index, find_row, prev_ids, new_run,
  run_effect, start, verdict, can_select,
}
use voxeltoad.Desktop.Viewer.Steps.{fill_slot, cache_slot, fill, cache_reply, settle, step, run}
use voxeltoad.Desktop.Viewer.Window.{prev_ids-nearest}
use voxeltoad.Desktop.Viewer.Shown.{ShowsRow, run-ShowsRow_selected}
use voxeltoad.Desktop.Viewer.Settling.{replies, Answers, run-loads}
use voxeltoad.Desktop.Viewer.Closed.{IsError, run-IsError}

-- A row's details, which name the row.
record Row : Type 0 where
  number : ℕ

abbrev plain : Row → TraceDetailLike
plain r = record { messages = none; request_raw = none; response_raw = none }

-- The API answers each request with the row, save those of moment zero, which fail.
abbrev answer : ℕ → ℕ → Outcome Row
answer i zero = threw (other_error "Error" "offline")
answer i (suc m) = returned (record { number = i })

abbrev row : ℕ → TraceSummary
row i = record { id = i }

-- The first row's answer comes after a click on the second row, whose own answers come last.
abbrev waiting_session : List Event
waiting_session =
    listed (returned (row 7 ∷ row 8 ∷ [])) ∷ clicked 8 ∷ replied 1 0 1 ∷ replied 0 1 1 ∷ []

abbrev session : List Event
session =
    listed (returned (row 7 ∷ row 8 ∷ []))
    ∷ clicked 8
    ∷ replied 1 0 1
    ∷ replied 0 1 1
    ∷ replied 0 0 1
    ∷ []

abbrev view : State Row
view = run plain_runtime plain answer start session

abbrev waiting_view : State Row
waiting_view = run plain_runtime plain answer start waiting_session

late_answer_test : (waiting_view.detail ≡ none) × (waiting_view.loading_detail ≡ true)
unfolding run step start run_effect can_select new_run prev_ids find_index find_row fill fill_slot
    cache_slot cache_reply verdict settle pick_baseline messages_of
late_answer_test = (refl, refl)

view-selected : view.selected ≡ some 8
unfolding run step start run_effect can_select new_run prev_ids find_index find_row fill fill_slot
    cache_slot cache_reply verdict settle pick_baseline messages_of
view-selected = refl

view-loaded : view.loading_detail ≡ false
unfolding run step start run_effect can_select new_run prev_ids find_index find_row fill fill_slot
    cache_slot cache_reply verdict settle pick_baseline messages_of
view-loaded = refl

view-fine : view.error ≡ none
unfolding run step start run_effect can_select new_run prev_ids find_index find_row fill fill_slot
    cache_slot cache_reply verdict settle pick_baseline messages_of
view-fine = refl

run-ShowsRow_selected_example : ShowsRow plain_runtime plain answer 8 view
run-ShowsRow_selected_example =
    run-ShowsRow_selected plain_runtime plain answer session 8 view-selected view-loaded view-fine

waiting_view-selected : waiting_view.selected ≡ some 8
unfolding run step start run_effect can_select new_run prev_ids find_index find_row fill fill_slot
    cache_slot cache_reply verdict settle pick_baseline messages_of
waiting_view-selected = refl

waiting_view-above : prev_ids waiting_view.timeline (some 8) ≡ 7 ∷ []
unfolding run step start run_effect can_select new_run prev_ids find_index find_row fill fill_slot
    cache_slot cache_reply verdict settle pick_baseline messages_of
waiting_view-above = refl

all_answered :
    (j : ℕ)
    → j ≤ length (prev_ids waiting_view.timeline (some 8))
    → Answers ((1, 0) ∷ (0, 1) ∷ []) j
all_answered zero h = inr (inl refl)
all_answered (suc zero) h = inl refl
all_answered (suc (suc j)) h = absurd (omega (arith, ap length waiting_view-above))

run-loads_example :
    (run plain_runtime plain answer waiting_view (replies ((1, 0) ∷ (0, 1) ∷ []))).loading_detail
    ≡ false
run-loads_example =
    run-loads plain_runtime plain answer waiting_session 8 ((1, 0) ∷ (0, 1) ∷ [])
      waiting_view-selected all_answered

prev_ids-nearest_example : prev_ids (row 1 ∷ row 2 ∷ row 3 ∷ row 4 ∷ []) (some 3) ≡ 2 ∷ 1 ∷ []
prev_ids-nearest_example =
    prev_ids-nearest (row 1 ∷ row 2 ∷ []) (row 4 ∷ []) (row 3)
      (λ e. omega arith, (λ e. omega arith, tt))

-- The request for the first row fails.
abbrev broken_view : State Row
broken_view =
    run plain_runtime plain answer start
      (listed (returned (row 7 ∷ row 8 ∷ [])) ∷ replied 0 0 0 ∷ [])

broken_view-IsError : IsError broken_view.error
unfolding run step start run_effect can_select new_run prev_ids find_index find_row fill fill_slot
    cache_slot cache_reply verdict settle pick_baseline messages_of error_message
broken_view-IsError = tt

run-IsError_example :
    IsError (run plain_runtime plain answer broken_view (clicked 8 ∷ [])).error
    × ((i : ℕ)
        → step plain_runtime plain answer
            (run plain_runtime plain answer broken_view (clicked 8 ∷ []))
            (clicked i)
          ≡ run plain_runtime plain answer broken_view (clicked 8 ∷ []))
run-IsError_example =
    run-IsError plain_runtime plain answer broken_view (clicked 8 ∷ []) broken_view-IsError
