-- ===== src/Desktop/Logs/Tests.antt =====
-- The request logs while a filter is typed, and the theorem there.
use voxeltoad.Common.{ℕ, ◌≡◌, refl, List, [], ◌∷◌, length}
use voxeltoad.Js.Exception.{Outcome, returned}
use voxeltoad.Desktop.Logs.{
  Query, Envelope, State, Event, typed, paged, replied, provider_field, fetch, start, show, step,
  run,
}
use voxeltoad.Desktop.Logs.Latest.{IsCurrent, ShowsRows, run-ShowsRows}

-- The API answers with the moment as the one row.
abbrev answer : Query → ℕ → Outcome (Envelope ℕ)
answer query m = returned (record { rows = m ∷ []; total = 1 })

abbrev changes : List Event
changes = replied 0 0 ∷ paged 2 ∷ typed provider_field "a" ∷ []

abbrev page : State ℕ
page = run answer start changes

page_one_test : (page.page ≡ 1) × (length page.requests ≡ 3)
unfolding run step start fetch show
page_one_test = (refl, refl)

-- A late answer to an earlier request replaces the rows of the last one.
late_answer_test :
    (run answer start (typed provider_field "a" ∷ replied 0 5 ∷ replied 1 9 ∷ [])).rows ≡ 9 ∷ []
unfolding run step start fetch show
late_answer_test = refl

run-ShowsRows_example :
    IsCurrent page
    × ShowsRows answer (record { rows = 5 ∷ []; total = 1 }) (step answer page (replied 0 5))
run-ShowsRows_example =
    run-ShowsRows answer changes 5 (record { rows = 5 ∷ []; total = 1 })
      (unfold run step start fetch show in refl) refl
