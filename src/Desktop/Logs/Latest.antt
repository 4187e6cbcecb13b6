-- ===== src/Desktop/Logs/Latest.antt =====
-- The last request is the one for what the page shows, and its answer is shown.
use mathlib.Core.Path.{subst}
use voxeltoad.Common.{
  ℕ, zero, suc, ◌≡◌, refl, ap, sym, ◌∙◌, Bool, true, false, Option, none, some, List, [], ◌∷◌,
  if◌then◌else◌, get_elem?, set,
}
use voxeltoad.Js.Exception.{Outcome, returned, threw}
use voxeltoad.Desktop.Logs.{
  Query, Envelope, Asked, State, Event, typed, paged, sized, replied, current_query, fetch, start,
  show, fetch_if, reply_to, step, run,
}

-- The last request is this one.
abbrev pub LastAsks : List Asked → Query → Type 0
LastAsks [] q = ⊥
LastAsks (a ∷ rs) q = a.query ≡ q

-- The last request is under way.
abbrev pub Awaited : List Asked → Type 0
Awaited [] = ⊥
Awaited (a ∷ rs) = a.is_answered ≡ false

set-LastAsks :
    (rs : List Asked) (k : ℕ) (a : Asked) (q : Query)
    → get_elem? rs k ≡ some a
    → LastAsks rs q
    → LastAsks (set rs k (record a { is_answered = true })) q
set-LastAsks [] k a q e h = h
set-LastAsks (b ∷ rs) zero a q e h =
    let same : b ≡ a = cc in ap (λ (a : Asked). a.query) (sym same) ∙ h
set-LastAsks (b ∷ rs) (suc k) a q e h = h

module _ {R : Type 0} where
  -- There is a request, and the last one is for the filters and the page on the page.
  abbrev pub IsCurrent : State R → Type 0
  IsCurrent s = LastAsks s.requests (current_query s)

  fetch-IsCurrent : (s : State R) → IsCurrent (fetch s)
  unfolding fetch
  fetch-IsCurrent s = refl

  fetch_if-IsCurrent : (b : Bool) (s s' : State R) → IsCurrent s → IsCurrent (fetch_if b s s')
  fetch_if-IsCurrent true s s' h = fetch-IsCurrent s'
  fetch_if-IsCurrent false s s' h = h

  show-IsCurrent : (o : Outcome (Envelope R)) (s : State R) → IsCurrent s → IsCurrent (show o s)
  unfolding show
  show-IsCurrent (returned r) s h = h
  show-IsCurrent (threw e) s h = h

  if-IsCurrent :
      (b : Bool) (s t : State R) → IsCurrent s → IsCurrent t → IsCurrent (if b then s else t)
  if-IsCurrent true s t h k = h
  if-IsCurrent false s t h k = k

module _ {R : Type 0} (answer : Query → ℕ → Outcome (Envelope R)) where
  reply_to-IsCurrent :
      (o : Option Asked) (k m : ℕ) (s : State R)
      → get_elem? s.requests k ≡ o
      → IsCurrent s
      → IsCurrent (reply_to answer o k m s)
  reply_to-IsCurrent none k m s e h = h
  reply_to-IsCurrent (some a) k m s e h =
      if-IsCurrent a.is_answered _ _ h
        (show-IsCurrent (answer a.query m) _ (set-LastAsks s.requests k a (current_query s) e h))

  step-IsCurrent : (s : State R) (e : Event) → IsCurrent s → IsCurrent (step answer s e)
  unfolding step
  step-IsCurrent s (typed f v) h = fetch_if-IsCurrent _ s _ h
  step-IsCurrent s (paged p) h = fetch_if-IsCurrent _ s _ h
  step-IsCurrent s (sized n) h = fetch_if-IsCurrent _ s _ h
  step-IsCurrent s (replied k m) h = reply_to-IsCurrent (get_elem? s.requests k) k m s refl h

  run-IsCurrent : (s : State R) (es : List Event) → IsCurrent s → IsCurrent (run answer s es)
  unfolding run
  run-IsCurrent s [] h = h
  run-IsCurrent s (e ∷ es) h = run-IsCurrent (step answer s e) es (step-IsCurrent s e h)

  -- The page shows the rows of an answer, and waits for nothing.
  pub record ShowsRows (r : Envelope R) (s : State R) : Type 0 where
    pub rows : s.rows ≡ r.rows
    pub total : s.total ≡ r.total
    pub no_error : s.error ≡ none
    pub loaded : s.loading ≡ false

  show-ShowsRows :
      (o : Outcome (Envelope R)) (r : Envelope R) (s : State R)
      → o ≡ returned r
      → ShowsRows r (show o s)
  unfolding show
  show-ShowsRows (returned q) r s e =
      let same : q ≡ r = cc in
      subst (λ r. ShowsRows r (show (returned q) s)) same
        (record { rows = refl; total = refl; no_error = refl; loaded = refl })
  show-ShowsRows (threw x) r s e = cc

  reply_to-ShowsRows :
      (rs : List Asked) (q : Query) (m : ℕ) (r : Envelope R) (s : State R)
      → LastAsks rs q
      → Awaited rs
      → answer q m ≡ returned r
      → ShowsRows r (reply_to answer (get_elem? rs 0) 0 m s)
  reply_to-ShowsRows [] q m r s h w e = elim h [ ]
  reply_to-ShowsRows (a ∷ rs) q m r s h w e =
      rw w (show-ShowsRows (answer a.query m) r _ (ap (λ q. answer q m) h ∙ e))

  start-IsCurrent : IsCurrent (start {R = R})
  unfolding start
  start-IsCurrent = fetch-IsCurrent _

  -- If, after any changes and answers, the last request is under way and is then answered with rows:
  -- it is the request for the filters, the page and the page size that the page shows, and with its
  -- answer these rows and their total are shown, and neither an error nor a wait.
  pub run-ShowsRows :
      (es : List Event) (m : ℕ) (r : Envelope R)
      → Awaited (run answer start es).requests
      → answer (current_query (run answer start es)) m ≡ returned r
      → IsCurrent (run answer start es)
        × ShowsRows r (step answer (run answer start es) (replied 0 m))
  unfolding step
  run-ShowsRows es m r w e =
      let current = run-IsCurrent start es start-IsCurrent in
      let s = run answer start es in
      (current, reply_to-ShowsRows s.requests (current_query s) m r s current w e)
