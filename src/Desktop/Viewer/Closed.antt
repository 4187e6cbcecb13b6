-- ===== src/Desktop/Viewer/Closed.antt =====
-- An error on the page.
use Prim.Native.String.{String}
use voxeltoad.Common.{
  ℕ, ◌≡◌, refl, Bool, true, false, not, ◌&&◌, Option, none, some, List, [], ◌∷◌, if◌then◌else◌,
  get_elem?,
}
use voxeltoad.Js.Exception.{Outcome, returned, threw}
use voxeltoad.Js.Runtime.{Runtime}
use voxeltoad.Trace.{TraceDetailLike, pick_baseline}
use voxeltoad.Desktop.Viewer.Page.{
  Run, State, Verdict, open_, failed, done, Event, listed, clicked, replied, tab_chosen, is_none,
  is_row, is_selected, can_select, effect_for, run_effect, verdict, is_open, present,
}
use voxeltoad.Desktop.Viewer.Steps.{with_baseline, settle, reply_to, step, run}

abbrev pub IsError : Option String → Type 0
IsError none = ⊥
IsError (some m) = Unit

module _ {D : Type 0} (rt : Runtime) (like : D → TraceDetailLike) (answer : ℕ → ℕ → Outcome D) where
  effect_for-IsError :
      (sel : Option ℕ) (s : State D) → IsError s.error → IsError (effect_for sel s).error
  effect_for-IsError none s h = h
  effect_for-IsError (some i) s h = h

  with_baseline-IsError :
      (d : D) (o : Outcome (Option D)) (s : State D)
      → IsError s.error
      → IsError (with_baseline rt like d o s).error
  with_baseline-IsError d (returned prev) s h = h
  with_baseline-IsError d (threw e) s h = tt

  settle-IsError :
      (b : Bool) (v : Verdict D) (s : State D)
      → IsError s.error
      → IsError (settle rt like b v s).error
  unfolding settle
  settle-IsError true v s h = h
  settle-IsError false open_ s h = h
  settle-IsError false (failed e) s h = tt
  settle-IsError false (done d os) s h =
      with_baseline-IsError d (pick_baseline rt like (like d) (present os)) s h

  if-IsError :
      (b : Bool) (s t : State D)
      → IsError s.error
      → IsError t.error
      → IsError (if b then t else s).error
  if-IsError true s t h k = k
  if-IsError false s t h k = h

  reply_to-IsError :
      (o : Option (Run D)) (k j m : ℕ) (s : State D)
      → IsError s.error
      → IsError (reply_to rt like answer o k j m s).error
  reply_to-IsError none k j m s h = h
  reply_to-IsError (some r) k j m s h =
      if-IsError (is_open (verdict r.current r.candidates)) _ _ h (settle-IsError r.cancelled _ _ h)

  step-IsError :
      (s : State D) (e : Event) → IsError s.error → IsError (step rt like answer s e).error
  unfolding step run_effect
  step-IsError s (listed (returned rows)) h = effect_for-IsError _ _ h
  step-IsError s (listed (threw e)) h = tt
  step-IsError s (clicked i) h =
      let s' : State D = record s { selected = some i } in
      if-IsError (can_select s i) s (run_effect s') h (effect_for-IsError (some i) s' h)
  step-IsError s (replied k j m) h = reply_to-IsError (get_elem? s.runs k) k j m s h
  step-IsError s (tab_chosen v) h = h

  error-can_select : (s : State D) (i : ℕ) → IsError s.error → can_select s i ≡ false
  unfolding can_select
  error-can_select s i h = closed s.loading s.error h
    where
      closed :
          (loading : Bool) (error : Option String)
          → IsError error
          → not loading && is_none error && is_row i s.timeline && not (is_selected s.selected i)
            ≡ false
      closed true error h = refl
      closed false none h = elim h [ ]
      closed false (some m) h = refl

  -- An error on the page, be it of the list or of one row, stays there after any events, and while
  -- it stands a click selects no row.
  pub run-IsError :
      (s : State D) (es : List Event)
      → IsError s.error
      → IsError (run rt like answer s es).error
        × ((i : ℕ)
            → step rt like answer (run rt like answer s es) (clicked i) ≡ run rt like answer s es)
  unfolding run step
  run-IsError s [] h = (h, λ i. rw (error-can_select s i h) refl)
  run-IsError s (e ∷ es) h = run-IsError (step rt like answer s e) es (step-IsError s e h)
