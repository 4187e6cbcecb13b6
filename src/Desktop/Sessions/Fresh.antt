-- ===== src/Desktop/Sessions/Fresh.antt =====
-- The last request for the list follows the last write that succeeded.
use Prim.Native.String.{String}
use voxeltoad.Common.{
  ℕ, zero, suc, ◌≡◌, refl, ap, sym, ◌∙◌, Bool, true, false, Option, none, some, List, [], ◌∷◌, ◌++◌,
  ◌+◌, if◌then◌else◌, arith, get_elem?, set,
}
use voxeltoad.Js.Exception.{Outcome, returned, threw}
use voxeltoad.Desktop.Logs.{Query, Envelope}
use voxeltoad.Desktop.Sessions.{
  Session, Write, favorite, unfavorite, delete, Sent, Listing, State, Field, agent_field,
  from_field, to_field, Event, typed, paged, sized, starred, binned, cancelled, confirmed, listed,
  written, query_for, fetch, start, fetch_if, show, send, toggle_favorite, clicked, confirm,
  next_tick, finish, reply_to, settle_sent, settle, step, run,
}

abbrev success_of : Option (Outcome ℕ) → ℕ
success_of none = 0
success_of (some (returned n)) = 1
success_of (some (threw e)) = 0

-- How many of the writes have succeeded.
abbrev pub successes : List Sent → ℕ
successes [] = 0
successes (w ∷ ws) = success_of w.outcome + successes ws

-- The last request is for this query and this tick.
abbrev pub LastIs : List Listing → Query → ℕ → Type 0
LastIs [] q n = ⊥
LastIs (a ∷ rs) q n = (a.query ≡ q) × (a.for_tick ≡ n)

-- The last request is for the filters, the page and the page size that the page shows and for its
-- tick, which counts the writes that have succeeded.
pub record IsFresh (s : State) : Type 0 where
  pub last : LastIs s.listings (query_for s) s.tick
  pub counted : s.tick ≡ successes s.writes

successes-send :
    (ws : List Sent) (w : Write)
    → successes (ws ++ record { write = w; outcome = none } ∷ []) ≡ successes ws
successes-send [] w = refl
successes-send (v ∷ ws) w = ap (λ n. success_of v.outcome + n) (successes-send ws w)

successes-set :
    (ws : List Sent) (k : ℕ) (a : Sent) (o : Outcome ℕ)
    → get_elem? ws k ≡ some a
    → a.outcome ≡ none
    → successes (set ws k (record { write = a.write; outcome = some o }))
      ≡ success_of (some o) + successes ws
successes-set [] k a o e h = cc
successes-set (v ∷ ws) zero a o e h =
    let same : v ≡ a = cc in
    let idle : success_of v.outcome ≡ 0 = ap success_of (ap (λ (a : Sent). a.outcome) same ∙ h) in
    omega arith
successes-set (v ∷ ws) (suc k) a o e h = let rest = successes-set ws k a o e h in omega arith

set-LastIs :
    (rs : List Listing) (k : ℕ) (a : Listing) (q : Query) (n : ℕ)
    → get_elem? rs k ≡ some a
    → LastIs rs q n
    → LastIs (set rs k (record a { is_answered = true })) q n
set-LastIs [] k a q n e h = h
set-LastIs (b ∷ rs) zero a q n e h =
    let same : b ≡ a = cc in
    (
      ap (λ (a : Listing). a.query) (sym same) ∙ h.0,
      ap (λ (a : Listing). a.for_tick) (sym same) ∙ h.1,
    )
set-LastIs (b ∷ rs) (suc k) a q n e h = h

fetch-IsFresh : (s : State) → s.tick ≡ successes s.writes → IsFresh (fetch s)
unfolding fetch
fetch-IsFresh s h = record { last = (refl, refl); counted = h }

fetch_if-IsFresh :
    (b : Bool) (s s' : State)
    → IsFresh s
    → s'.tick ≡ successes s'.writes
    → IsFresh (fetch_if b s s')
fetch_if-IsFresh true s s' h e = fetch-IsFresh s' e
fetch_if-IsFresh false s s' h e = h

show-IsFresh : (o : Outcome (Envelope Session)) (s : State) → IsFresh s → IsFresh (show o s)
unfolding show
show-IsFresh (returned r) s h = record { last = h.last; counted = h.counted }
show-IsFresh (threw e) s h = record { last = h.last; counted = h.counted }

if-IsFresh : (b : Bool) (s t : State) → IsFresh s → IsFresh t → IsFresh (if b then s else t)
if-IsFresh true s t h k = h
if-IsFresh false s t h k = k

send-IsFresh : (w : Write) (s : State) → IsFresh s → IsFresh (send w s)
send-IsFresh w s h = record { last = h.last; counted = h.counted ∙ sym (successes-send s.writes w) }

clicked-IsFresh :
    (b : Bool) (o : Option Session) (act : Session → State → State) (s : State)
    → ((r : Session) → IsFresh (act r s))
    → IsFresh s
    → IsFresh (clicked b o act s)
clicked-IsFresh false (some r) act s f h = f r
clicked-IsFresh false none act s f h = h
clicked-IsFresh true o act s f h = h

confirm-IsFresh : (o : Option String) (s : State) → IsFresh s → IsFresh (confirm o s)
unfolding confirm
confirm-IsFresh none s h = h
confirm-IsFresh (some id) s h = send-IsFresh (delete id) s h

next_tick-IsFresh : (s : State) → 1 + s.tick ≡ successes s.writes → IsFresh (next_tick s)
next_tick-IsFresh s e = fetch-IsFresh (record s { tick = suc s.tick }) (omega arith)

-- The write is marked as answered with `o`, and the callbacks are still to come.
finish-IsFresh :
    (w : Write) (o : Outcome ℕ) (s : State)
    → LastIs s.listings (query_for s) s.tick
    → success_of (some o) + s.tick ≡ successes s.writes
    → IsFresh (finish w o s)
unfolding finish
finish-IsFresh (favorite id) (returned n) s l e = next_tick-IsFresh _ e
finish-IsFresh (favorite id) (threw x) s l e = record { last = l; counted = omega arith }
finish-IsFresh (unfavorite id) (returned n) s l e = next_tick-IsFresh _ e
finish-IsFresh (unfavorite id) (threw x) s l e = record { last = l; counted = omega arith }
finish-IsFresh (delete id) (returned n) s l e = next_tick-IsFresh _ e
finish-IsFresh (delete id) (threw x) s l e = record { last = l; counted = omega arith }

module _ (list : Query → ℕ → Outcome (Envelope Session)) (write : Write → ℕ → Outcome ℕ) where
  reply_to-IsFresh :
      (o : Option Listing) (k m : ℕ) (s : State)
      → get_elem? s.listings k ≡ o
      → IsFresh s
      → IsFresh (reply_to list write o k m s)
  reply_to-IsFresh none k m s e h = h
  reply_to-IsFresh (some a) k m s e h = if-IsFresh a.is_answered _ _ h (
      show-IsFresh (list a.query m) _ (record {
        last = set-LastIs s.listings k a (query_for s) s.tick e h.last;
        counted = h.counted;
      }))

  settle_sent-IsFresh :
      (a : Sent) (o : Option (Outcome ℕ)) (k m : ℕ) (s : State)
      → get_elem? s.writes k ≡ some a
      → a.outcome ≡ o
      → IsFresh s
      → IsFresh (settle_sent list write o a.write k m s)
  settle_sent-IsFresh a (some x) k m s e i h = h
  settle_sent-IsFresh a none k m s e i h =
      let o = write a.write m in
      finish-IsFresh a.write o _ h.last
        (ap (λ n. success_of (some o) + n) h.counted ∙ sym (successes-set s.writes k a o e i))

  settle-IsFresh :
      (o : Option Sent) (k m : ℕ) (s : State)
      → get_elem? s.writes k ≡ o
      → IsFresh s
      → IsFresh (settle list write o k m s)
  settle-IsFresh none k m s e h = h
  settle-IsFresh (some a) k m s e h = settle_sent-IsFresh a a.outcome k m s e refl h

  typed-IsFresh :
      (s : State) (f : Field) (v : String) → IsFresh s → IsFresh (step list write s (typed f v))
  unfolding step
  typed-IsFresh s agent_field v h = fetch_if-IsFresh _ s _ h h.counted
  typed-IsFresh s from_field v h = fetch_if-IsFresh _ s _ h h.counted
  typed-IsFresh s to_field v h = fetch_if-IsFresh _ s _ h h.counted

  step-IsFresh : (s : State) (e : Event) → IsFresh s → IsFresh (step list write s e)
  unfolding step
  step-IsFresh s (typed f v) h = typed-IsFresh s f v h
  step-IsFresh s (paged p) h = fetch_if-IsFresh _ s _ h h.counted
  step-IsFresh s (sized n) h = fetch_if-IsFresh _ s _ h h.counted
  step-IsFresh s (starred k) h =
      clicked-IsFresh s.loading (get_elem? s.rows k) toggle_favorite s
        (λ r. unfold toggle_favorite in send-IsFresh _ s h) h
  step-IsFresh s (binned k) h =
      clicked-IsFresh s.loading (get_elem? s.rows k) _ s
        (λ r. record { last = h.last; counted = h.counted }) h
  step-IsFresh s cancelled h = record { last = h.last; counted = h.counted }
  step-IsFresh s confirmed h = confirm-IsFresh s.deleting s h
  step-IsFresh s (listed k m) h = reply_to-IsFresh (get_elem? s.listings k) k m s refl h
  step-IsFresh s (written k m) h = settle-IsFresh (get_elem? s.writes k) k m s refl h

  run_from-IsFresh : (s : State) (es : List Event) → IsFresh s → IsFresh (run list write s es)
  unfolding run
  run_from-IsFresh s [] h = h
  run_from-IsFresh s (e ∷ es) h = run_from-IsFresh (step list write s e) es (step-IsFresh s e h)

  start-IsFresh : (agent : String) → IsFresh (start agent)
  unfolding start
  start-IsFresh agent = fetch-IsFresh _ refl

  -- From the page as it opens, after any events, with answers that come in any order: the last request
  -- for the list is for the filters, the page and the page size that the page shows, and it was sent
  -- for a tick that counts the favorites and deletions that have succeeded so far, so each of them was
  -- followed by a new request.
  pub run-IsFresh : (agent : String) (es : List Event) → IsFresh (run list write (start agent) es)
  run-IsFresh agent es = run_from-IsFresh (start agent) es (start-IsFresh agent)
