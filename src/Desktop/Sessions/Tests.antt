-- ===== src/Desktop/Sessions/Tests.antt =====
-- A favorite and a deletion, and the theorem there.
use voxeltoad.Common.{ℕ, ◌≡◌, refl, false, none, List, [], ◌∷◌, length}
use voxeltoad.Js.Exception.{Outcome, returned, threw, other_error}
use voxeltoad.Desktop.Logs.{Query, Envelope}
use voxeltoad.Desktop.Sessions.{
  Session, Write, favorite, unfavorite, delete, State, Event, starred, binned, confirmed, listed,
  written, fetch, start, show, toggle_favorite, confirm, finish, step, run,
}
use voxeltoad.Desktop.Sessions.Fresh.{IsFresh, run-IsFresh}

-- The API lists one session. It accepts favorites and deletions, and refuses to take a favorite back.
abbrev list : Query → ℕ → Outcome (Envelope Session)
list query m =
    returned (record { rows = record { session_id = "a"; favorited = false } ∷ []; total = 1 })

abbrev write : Write → ℕ → Outcome ℕ
write (favorite id) m = returned 0
write (unfavorite id) m = threw (other_error "Error" "refused")
write (delete id) m = returned 3

abbrev events : List Event
events = listed 0 0 ∷ starred 0 ∷ binned 0 ∷ confirmed ∷ written 1 1 ∷ written 0 2 ∷ listed 0 3 ∷ []

abbrev page : State
page = run list write (start "codex") events

page_test :
    (page.tick ≡ 2) × (length page.listings ≡ 3) × (page.deleting ≡ none) × (length page.toasts ≡ 1)
unfolding run step start fetch show toggle_favorite confirm finish
page_test = (refl, refl, refl, refl)

run-IsFresh_example : IsFresh page
run-IsFresh_example = run-IsFresh list write "codex" events
