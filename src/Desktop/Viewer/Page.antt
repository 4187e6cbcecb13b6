-- ===== src/Desktop/Viewer/Page.antt =====
-- The state of the viewer, and the effect that a selection triggers.
use Prim.Native.String.{String}
use mathlib.Core.List.{reverse}
use voxeltoad.Common.{
  ℕ, zero, suc, ◌-◌, Bool, true, false, not, ◌&&◌, Option, none, some, List, [], ◌∷◌, map, ◌==◌,
  if◌then◌else◌, take, drop,
}
use voxeltoad.Js.Exception.{Exception, Outcome, returned, threw}

-- `TraceSummary`, less the fields that are only shown
pub record TraceSummary : Type 0 where
  pub id : ℕ

abbrev pub baseline_window : ℕ
baseline_window = 10

abbrev pub map_suc : Option ℕ → Option ℕ
map_suc none = none
map_suc (some n) = some (suc n)

-- `timeline.findIndex((t) => t.id === id)`; `none` for -1
unfoldable pub find_index : ℕ → List TraceSummary → Option ℕ
find_index i [] = none
find_index i (t ∷ ts) = if t.id == i then some 0 else map_suc (find_index i ts)

abbrev pub rows_above : List TraceSummary → Option ℕ → List ℕ
rows_above timeline none = []
rows_above timeline (some zero) = []
rows_above timeline (some (suc i)) =
    let start = suc i - baseline_window in
    reverse (map (λ (t : TraceSummary). t.id) (take (suc i - start) (drop start timeline)))

-- `prevIds`
unfoldable pub prev_ids : List TraceSummary → Option ℕ → List ℕ
prev_ids timeline none = []
prev_ids timeline (some i) = rows_above timeline (find_index i timeline)

-- One of the promises `candPs`: the row, and what the promise comes to once it is settled.
pub data Slot (D : Type 0) : Type 0 where
  waiting : ℕ → Slot D
  arrived : ℕ → Option D → Slot D

-- What one run of the effect keeps: its row, its flag `cancelled`, `currentP` and `candPs`.
pub record Run (D : Type 0) : Type 0 where
  pub row : ℕ
  pub cancelled : Bool
  pub current : Option (Outcome D)
  pub candidates : List (Slot D)

pub record State (D : Type 0) : Type 0 where
  pub timeline : List TraceSummary
  pub selected : Option ℕ
  pub detail : Option D
  pub prev_detail : Option D
  pub loading : Bool
  pub loading_detail : Bool
  pub error : Option String
  pub active_tab : String
  -- `rowCache`, the entries set last first
  pub cache : List (ℕ × D)
  -- the runs of the effect, the last one first
  pub runs : List (Run D)

-- What `Promise.all` has come to.
pub data Verdict (D : Type 0) : Type 0 where
  open_ : Verdict D
  failed : Exception → Verdict D
  done : D → List (Option D) → Verdict D

pub data Event : Type 0 where
  -- the request for the list is answered
  listed : Outcome (List TraceSummary) → Event
  -- a click on the row with this id
  clicked : ℕ → Event
  -- `replied k j m`: run `k`, counted from the last one, gets the answer of moment `m` to its
  -- request for the selected row (`j = 0`) or for the candidate before `j`
  replied : ℕ → ℕ → ℕ → Event
  -- `onTabChange`
  tab_chosen : String → Event

abbrev pub first_id : List TraceSummary → Option ℕ
first_id [] = none
first_id (t ∷ ts) = some t.id

abbrev pub is_selected : Option ℕ → ℕ → Bool
is_selected none i = false
is_selected (some j) i = j == i

abbrev pub is_row : ℕ → List TraceSummary → Bool
is_row i [] = false
is_row i (t ∷ ts) = if t.id == i then true else is_row i ts

abbrev pub is_none {ℓ} : {A : Type ℓ} → Option A → Bool
is_none none = true
is_none (some a) = false

module _ {D : Type 0} where
  unfoldable pub find_row : ℕ → List (ℕ × D) → Option D
  find_row i [] = none
  find_row i ((j, d) ∷ cache) = if j == i then some d else find_row i cache

  abbrev pub slot : ℕ → Option D → Slot D
  slot i none = waiting i
  slot i (some hit) = arrived i (some hit)

  abbrev pub cancel : Run D → Run D
  cancel r = record r { cancelled = true }

  -- the cleanup of the last run of the effect
  abbrev pub cancel_last : List (Run D) → List (Run D)
  cancel_last [] = []
  cancel_last (r ∷ rs) = cancel r ∷ rs

  unfoldable pub new_run : ℕ → List ℕ → List (ℕ × D) → Run D
  new_run i prev cache = record {
    row = i;
    cancelled = false;
    current = none;
    candidates = map (λ j. slot j (find_row j cache)) prev;
  }

  abbrev pub effect_for : Option ℕ → State D → State D
  effect_for none s = record s { detail = none; prev_detail = none; runs = cancel_last s.runs }
  effect_for (some i) s = record s {
    loading_detail = true;
    active_tab = "messages";
    runs = new_run i (prev_ids s.timeline (some i)) s.cache ∷ cancel_last s.runs;
  }

  -- the cleanup of the effect and its next run
  unfoldable pub run_effect : State D → State D
  run_effect s = effect_for s.selected s

  unfoldable pub start : State D
  start = record {
    timeline = [];
    selected = none;
    detail = none;
    prev_detail = none;
    loading = true;
    loading_detail = false;
    error = none;
    active_tab = "messages";
    cache = [];
    runs = [];
  }

  -- `.catch(() => null)`
  abbrev pub or_null : Outcome D → Option D
  or_null (returned d) = some d
  or_null (threw e) = none

  abbrev pub store : ℕ → Outcome D → List (ℕ × D) → List (ℕ × D)
  store i (returned d) cache = (i, d) ∷ cache
  store i (threw e) cache = cache

  -- The values of the promises `candPs` once all are settled.
  abbrev pub with_answer : Option D → Option (List (Option D)) → Option (List (Option D))
  with_answer o none = none
  with_answer o (some os) = some (o ∷ os)

  abbrev pub answers : List (Slot D) → Option (List (Option D))
  answers [] = some []
  answers (waiting i ∷ ss) = none
  answers (arrived i o ∷ ss) = with_answer o (answers ss)

  abbrev pub verdict_of : D → Option (List (Option D)) → Verdict D
  verdict_of d none = open_
  verdict_of d (some os) = done d os

  unfoldable pub verdict : Option (Outcome D) → List (Slot D) → Verdict D
  verdict none ss = open_
  verdict (some (threw e)) ss = failed e
  verdict (some (returned d)) ss = verdict_of d (answers ss)

  abbrev pub is_open : Verdict D → Bool
  is_open open_ = true
  is_open (failed e) = false
  is_open (done d os) = false

  -- `cands.filter((c) => c != null)`
  abbrev pub present : List (Option D) → List D
  present [] = []
  present (none ∷ os) = present os
  present (some d ∷ os) = d ∷ present os

  -- The rows are on the page, and the row with the id is one of them that is not selected yet.
  unfoldable pub can_select : State D → ℕ → Bool
  can_select s i =
      not s.loading && is_none s.error && is_row i s.timeline && not (is_selected s.selected i)

-- `answer i m` is what the API answers at moment `m` to the request for row `i`.
