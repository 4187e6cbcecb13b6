-- ===== src/Desktop/Logs.antt =====
-- `RequestLogs` of desktop-ui/src/pages/RequestLogs.tsx as a state machine: the filters, the page and
-- the requests that their changes trigger. An answer is one event, and so are a change and the request
-- that it triggers. No request is cancelled.
pub mod Latest
mod Tests
use Prim.Native.String.{String, [], ◌∷◌}
use voxeltoad.Common.{
  ℕ, zero, suc, Bool, true, false, not, ◌&&◌, Option, none, some, List, [], ◌∷◌, str_eq, ◌<>◌, ◌==◌,
  if◌then◌else◌, get_elem?, set,
}
use voxeltoad.Js.Exception.{Outcome, returned, threw, error_message}
use voxeltoad.Desktop.Client.{Param, missing, word, number}

-- `toRFC3339(date, endOfDay)`
unfoldable pub to_rfc3339 : String → Bool → Param
to_rfc3339 [] end_of_day = missing
to_rfc3339 (c ∷ s) end_of_day =
    word ((c ∷ s) <> "T" <> (if end_of_day then "23:59:59" else "00:00:00") <> "Z")

pub record Filters : Type 0 where
  pub agent : String
  pub provider : String
  pub model : String
  pub error_type : String
  pub session_id : String
  pub request_id : String
  pub from : String
  pub to : String

pub data Field : Type 0 where
  agent_field provider_field model_field error_type_field : Field
  session_id_field request_id_field from_field to_field : Field

abbrev pub field_text : Filters → Field → String
field_text f agent_field = f.agent
field_text f provider_field = f.provider
field_text f model_field = f.model
field_text f error_type_field = f.error_type
field_text f session_id_field = f.session_id
field_text f request_id_field = f.request_id
field_text f from_field = f.from
field_text f to_field = f.to

abbrev pub set_field : Filters → Field → String → Filters
set_field f agent_field v = record f { agent = v }
set_field f provider_field v = record f { provider = v }
set_field f model_field v = record f { model = v }
set_field f error_type_field v = record f { error_type = v }
set_field f session_id_field v = record f { session_id = v }
set_field f request_id_field v = record f { request_id = v }
set_field f from_field v = record f { from = v }
set_field f to_field v = record f { to = v }

abbrev pub Query : Type 0
Query = List (String × Param)

-- The argument of `listRequestLogs`.
unfoldable pub query_for : Filters → ℕ → ℕ → Query
query_for f page page_size =
    ("agent_type", word f.agent)
    ∷ ("provider", word f.provider)
    ∷ ("model_requested", word f.model)
    ∷ ("error_type", word f.error_type)
    ∷ ("session_id", word f.session_id)
    ∷ ("request_id", word f.request_id)
    ∷ ("from", to_rfc3339 f.from false)
    ∷ ("to", to_rfc3339 f.to true)
    ∷ ("page", number page)
    ∷ ("page_size", number page_size)
    ∷ []

-- `OffsetEnvelope`, less its echo of the page
pub record Envelope (R : Type 0) : Type 0 where
  pub rows : List R
  pub total : ℕ

-- A request under way, or an answered one.
pub record Asked : Type 0 where
  pub query : Query
  pub is_answered : Bool

pub record State (R : Type 0) : Type 0 where
  pub filters : Filters
  pub rows : List R
  pub total : ℕ
  pub page : ℕ
  pub page_size : ℕ
  pub loading : Bool
  pub error : Option String
  -- the requests, the last one first
  pub requests : List Asked

pub data Event : Type 0 where
  -- a new text of a filter
  typed : Field → String → Event
  -- `onPage` and `onPageSize` of the pagination, which is not there while the list is loading
  paged : ℕ → Event
  sized : ℕ → Event
  -- `replied k m`: request `k`, counted from the last one, gets the answer of moment `m`
  replied : ℕ → ℕ → Event

abbrev no_filters : Filters
no_filters = record {
  agent = "";
  provider = "";
  model = "";
  error_type = "";
  session_id = "";
  request_id = "";
  from = "";
  to = "";
}

module _ {R : Type 0} where
  abbrev pub current_query : State R → Query
  current_query s = query_for s.filters s.page s.page_size

  -- the effect
  unfoldable pub fetch : State R → State R
  fetch s = record s {
    loading = true;
    requests = record { query = current_query s; is_answered = false } ∷ s.requests;
  }

  unfoldable pub start : State R
  start = fetch (record {
    filters = no_filters;
    rows = [];
    total = 0;
    page = 1;
    page_size = 20;
    loading = true;
    error = none;
    requests = [];
  })

  -- the callbacks on the answer
  unfoldable pub show : Outcome (Envelope R) → State R → State R
  show (returned r) s = record s { rows = r.rows; total = r.total; error = none; loading = false }
  show (threw e) s = record s { error = some (error_message e); loading = false }

  -- The effect runs again if one of its dependencies has changed.
  abbrev pub fetch_if : Bool → State R → State R → State R
  fetch_if true s s' = fetch s'
  fetch_if false s s' = s

module _ {R : Type 0} (answer : Query → ℕ → Outcome (Envelope R)) where
  abbrev pub reply_to : Option Asked → ℕ → ℕ → State R → State R
  reply_to none k m s = s
  reply_to (some a) k m s =
      let after =
        show (answer a.query m)
          (record s { requests = set s.requests k (record a { is_answered = true }) }) in
      if a.is_answered then s else after

  unfoldable pub step : State R → Event → State R
  step s (typed f v) =
      fetch_if (not (str_eq (field_text s.filters f) v && s.page == 1)) s
        (record s { filters = set_field s.filters f v; page = 1 })
  step s (paged p) = fetch_if (not s.loading && not (s.page == p)) s (record s { page = p })
  step s (sized n) =
      fetch_if (not s.loading && not (s.page_size == n && s.page == 1)) s
        (record s { page = 1; page_size = n })
  step s (replied k m) = reply_to (get_elem? s.requests k) k m s

  unfoldable pub run : State R → List Event → State R
  run s [] = s
  run s (e ∷ es) = run (step s e) es
