-- ===== src/Desktop/Sessions.antt =====
-- `Sessions` of desktop-ui/src/pages/Sessions.tsx as a state machine: the filters and the page, the
-- favorites, the deletion behind a question, and the requests for the list that all of these trigger.
-- An answer is one event, with the callbacks and the effect that it completes. The answers come in any
-- order, and no request is cancelled.
pub mod Fresh
mod Tests
use Prim.Native.String.{String, [], ◌∷◌}
use voxeltoad.Common.{
  ℕ, zero, suc, Bool, true, false, not, ◌&&◌, Option, none, some, List, [], ◌∷◌, ◌++◌, str_eq, ◌<>◌,
  ◌==◌, if◌then◌else◌, get_elem?, set,
}
use voxeltoad.Js.Exception.{Outcome, returned, threw, error_message}
use voxeltoad.Js.Decimal.{decimal}
use voxeltoad.Desktop.Client.{Param, missing, word, number}
use voxeltoad.Desktop.Logs.{Query, Envelope, to_rfc3339}

-- What the handlers read of a `SessionSummary`
pub record Session : Type 0 where
  pub session_id : String
  pub favorited : Bool

-- `favoriteSession`, `unfavoriteSession` and `deleteSession`, each with its session
pub data Write : Type 0 where
  favorite : String → Write
  unfavorite : String → Write
  delete : String → Write

-- A write that was sent, and its answer: the count `deleted`, which only a deletion reads.
pub record Sent : Type 0 where
  pub write : Write
  pub outcome : Option (Outcome ℕ)

-- A run of the effect: what it asks for, the tick that it ran for, and whether it is answered.
pub record Listing : Type 0 where
  pub query : Query
  pub for_tick : ℕ
  pub is_answered : Bool

pub data Toast : Type 0 where
  success : String → Toast
  failure : String → Toast

pub record State : Type 0 where
  pub agent : String
  pub from : String
  pub to : String
  pub rows : List Session
  pub total : ℕ
  pub page : ℕ
  pub page_size : ℕ
  pub loading : Bool
  pub error : Option String
  pub deleting : Option String
  pub tick : ℕ
  -- the requests for the list, the last one first; the writes in their order; the toasts in theirs
  pub listings : List Listing
  pub writes : List Sent
  pub toasts : List Toast

pub data Field : Type 0 where
  agent_field from_field to_field : Field

pub data Event : Type 0 where
  typed : Field → String → Event
  -- `onPage` and `onPageSize` of the pagination, which is not there while the list is loading
  paged : ℕ → Event
  sized : ℕ → Event
  -- the star and the bin of the row with this number
  starred : ℕ → Event
  binned : ℕ → Event
  -- the buttons of the question
  cancelled : Event
  confirmed : Event
  -- `listed k m`: request `k` for the list, counted from the last one, is answered at moment `m`
  listed : ℕ → ℕ → Event
  -- `written k m`: write `k`, counted from the first one, is answered at moment `m`
  written : ℕ → ℕ → Event

abbrev pub query_for : State → Query
query_for s =
    ("agent_type", word s.agent)
    ∷ ("from", to_rfc3339 s.from false)
    ∷ ("to", to_rfc3339 s.to true)
    ∷ ("page", number s.page)
    ∷ ("page_size", number s.page_size)
    ∷ []

-- the effect
unfoldable pub fetch : State → State
fetch s = record s {
  loading = true;
  listings = record { query = query_for s; for_tick = s.tick; is_answered = false } ∷ s.listings;
}

-- The page as it opens, with the agent of its address.
unfoldable pub start : String → State
start agent = fetch (record {
  agent = agent;
  from = "";
  to = "";
  rows = [];
  total = 0;
  page = 1;
  page_size = 20;
  loading = true;
  error = none;
  deleting = none;
  tick = 0;
  listings = [];
  writes = [];
  toasts = [];
})

abbrev field_text : State → Field → String
field_text s agent_field = s.agent
field_text s from_field = s.from
field_text s to_field = s.to

abbrev set_field : State → Field → String → State
set_field s agent_field v = record s { agent = v; page = 1 }
set_field s from_field v = record s { from = v; page = 1 }
set_field s to_field v = record s { to = v; page = 1 }

-- The effect runs again if one of its dependencies has changed.
abbrev pub fetch_if : Bool → State → State → State
fetch_if true s s' = fetch s'
fetch_if false s s' = s

-- the callbacks on the answer of `listSessions`
unfoldable pub show : Outcome (Envelope Session) → State → State
show (returned r) s = record s { rows = r.rows; total = r.total; error = none; loading = false }
show (threw e) s = record s { error = some (error_message e); loading = false }

abbrev pub send : Write → State → State
send w s = record s { writes = s.writes ++ record { write = w; outcome = none } ∷ [] }

-- `toggleFavorite(s)`
unfoldable pub toggle_favorite : Session → State → State
toggle_favorite r s =
    send (if r.favorited then unfavorite r.session_id else favorite r.session_id) s

-- The table is not there while the list is loading.
abbrev pub clicked : Bool → Option Session → (Session → State → State) → State → State
clicked false (some r) act s = act r s
clicked false none act s = s
clicked true row act s = s

-- `if (deleting === null) return; … deleteSession(deleting)`
unfoldable pub confirm : Option String → State → State
confirm none s = s
confirm (some id) s = send (delete id) s

-- `setTick((t) => t + 1)`, with the effect
abbrev pub next_tick : State → State
next_tick s = fetch (record s { tick = suc s.tick })

abbrev toasted : Toast → State → State
toasted t s = record s { toasts = s.toasts ++ t ∷ [] }

-- The callbacks on the answer of a write: those of `toggleFavorite`, and the rest of `onConfirm`.
unfoldable pub finish : Write → Outcome ℕ → State → State
finish (favorite id) (returned n) s = next_tick s
finish (favorite id) (threw e) s = toasted (failure (error_message e)) s
finish (unfavorite id) (returned n) s = next_tick s
finish (unfavorite id) (threw e) s = toasted (failure (error_message e)) s
finish (delete id) (returned n) s =
    next_tick (toasted (success ("已删除 " <> decimal n <> " 条观测记录。")) (record s { deleting = none }))
finish (delete id) (threw e) s = toasted (failure (error_message e)) (record s { deleting = none })

module _ (list : Query → ℕ → Outcome (Envelope Session)) (write : Write → ℕ → Outcome ℕ) where
  abbrev pub reply_to : Option Listing → ℕ → ℕ → State → State
  reply_to none k m s = s
  reply_to (some a) k m s =
      let after =
        show (list a.query m)
          (record s { listings = set s.listings k (record a { is_answered = true }) }) in
      if a.is_answered then s else after

  abbrev pub settle_sent : Option (Outcome ℕ) → Write → ℕ → ℕ → State → State
  settle_sent (some o) w k m s = s
  settle_sent none w k m s =
      finish w (write w m)
        (record s { writes = set s.writes k (record { write = w; outcome = some (write w m) }) })

  abbrev pub settle : Option Sent → ℕ → ℕ → State → State
  settle none k m s = s
  settle (some a) k m s = settle_sent a.outcome a.write k m s

  unfoldable pub step : State → Event → State
  step s (typed f v) = fetch_if (not (str_eq (field_text s f) v && s.page == 1)) s (set_field s f v)
  step s (paged p) = fetch_if (not s.loading && not (s.page == p)) s (record s { page = p })
  step s (sized n) =
      fetch_if (not s.loading && not (s.page_size == n && s.page == 1)) s
        (record s { page = 1; page_size = n })
  step s (starred k) = clicked s.loading (get_elem? s.rows k) toggle_favorite s
  step s (binned k) =
      clicked s.loading (get_elem? s.rows k) (λ r s. record s { deleting = some r.session_id }) s
  step s cancelled = record s { deleting = none }
  step s confirmed = confirm s.deleting s
  step s (listed k m) = reply_to (get_elem? s.listings k) k m s
  step s (written k m) = settle (get_elem? s.writes k) k m s

  unfoldable pub run : State → List Event → State
  run s [] = s
  run s (e ∷ es) = run (step s e) es
