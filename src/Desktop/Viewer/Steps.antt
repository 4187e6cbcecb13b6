-- ===== src/Desktop/Viewer/Steps.antt =====
-- What an event does to the viewer.
use voxeltoad.Common.{
  ℕ, zero, suc, Bool, true, false, Option, none, some, List, [], ◌∷◌, if◌then◌else◌, get_elem?, set,
}
use voxeltoad.Js.Exception.{Outcome, returned, threw, error_message}
use voxeltoad.Js.Runtime.{Runtime}
use voxeltoad.Trace.{TraceDetailLike, pick_baseline}
use voxeltoad.Desktop.Viewer.Page.{
  Event, Run, Slot, State, Verdict, arrived, can_select, clicked, done, failed, first_id, is_open,
  listed, open_, or_null, present, replied, run_effect, store, tab_chosen, verdict, waiting,
}

module _ {D : Type 0} (answer : ℕ → ℕ → Outcome D) where
  unfoldable pub fill_slot : List (Slot D) → ℕ → ℕ → List (Slot D)
  fill_slot [] j m = []
  fill_slot (waiting i ∷ ss) zero m = arrived i (or_null (answer i m)) ∷ ss
  fill_slot (arrived i o ∷ ss) zero m = arrived i o ∷ ss
  fill_slot (s ∷ ss) (suc j) m = s ∷ fill_slot ss j m

  -- `cache.set(id, d)` of a candidate's request
  unfoldable pub cache_slot : List (Slot D) → ℕ → ℕ → List (ℕ × D) → List (ℕ × D)
  cache_slot [] j m cache = cache
  cache_slot (waiting i ∷ ss) zero m cache = store i (answer i m) cache
  cache_slot (arrived i o ∷ ss) zero m cache = cache
  cache_slot (s ∷ ss) (suc j) m cache = cache_slot ss j m cache

  abbrev pub fill_current : ℕ → ℕ → Option (Outcome D) → Option (Outcome D)
  fill_current i m none = some (answer i m)
  fill_current i m (some o) = some o

  abbrev pub cache_current : ℕ → ℕ → Option (Outcome D) → List (ℕ × D) → List (ℕ × D)
  cache_current i m none cache = store i (answer i m) cache
  cache_current i m (some o) cache = cache

  unfoldable pub fill : Run D → ℕ → ℕ → Run D
  fill r zero m = record r { current = fill_current r.row m r.current }
  fill r (suc j) m = record r { candidates = fill_slot r.candidates j m }

  unfoldable pub cache_reply : Run D → ℕ → ℕ → List (ℕ × D) → List (ℕ × D)
  cache_reply r zero m cache = cache_current r.row m r.current cache
  cache_reply r (suc j) m cache = cache_slot r.candidates j m cache

module _ {D : Type 0} (rt : Runtime) (like : D → TraceDetailLike) where
  abbrev pub with_baseline : D → Outcome (Option D) → State D → State D
  with_baseline cur (returned prev) s = record s {
    detail = some cur;
    prev_detail = prev;
    loading_detail = false;
  }
  with_baseline cur (threw e) s = record s {
    error = some (error_message e);
    loading_detail = false;
  }

  -- the callbacks on `Promise.all` of a run, which check its flag
  unfoldable pub settle : Bool → Verdict D → State D → State D
  settle true v s = s
  settle false open_ s = s
  settle false (failed e) s = record s { error = some (error_message e); loading_detail = false }
  settle false (done cur os) s = with_baseline cur (pick_baseline rt like (like cur) (present os)) s

  -- A promise is settled once: what arrives after that changes nothing more.
  abbrev pub advance : Run D → Run D → State D → State D
  advance r r' s =
      let after = settle r.cancelled (verdict r'.current r'.candidates) s in
      if is_open (verdict r.current r.candidates) then after else s

module _ {D : Type 0} (rt : Runtime) (like : D → TraceDetailLike) (answer : ℕ → ℕ → Outcome D) where
  abbrev pub reply_to : Option (Run D) → ℕ → ℕ → ℕ → State D → State D
  reply_to none k j m s = s
  reply_to (some r) k j m s =
      let r' = fill answer r j m in
      advance rt like r r'
        (record s { runs = set s.runs k r'; cache = cache_reply answer r j m s.cache })

  unfoldable pub step : State D → Event → State D
  step s (listed (returned rows)) =
      run_effect (record s { timeline = rows; selected = first_id rows; loading = false })
  step s (listed (threw e)) = record s { error = some (error_message e); loading = false }
  step s (clicked i) =
      let after = run_effect (record s { selected = some i }) in if can_select s i then after else s
  step s (replied k j m) = reply_to (get_elem? s.runs k) k j m s
  step s (tab_chosen v) = record s { active_tab = v }

  unfoldable pub run : State D → List Event → State D
  run s [] = s
  run s (e ∷ es) = run (step s e) es
