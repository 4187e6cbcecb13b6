-- ===== src/Desktop/Viewer/Settling.antt =====
-- The details of the selected row stop loading when its requests are answered, in any order.
use Prim.Native.String.{String}
use mathlib.Core.Logic.{◌⊎◌}
use mathlib.Core.Path.{subst}
use voxeltoad.Common.{
  some_inj, none_ne, ℕ, zero, suc, ◌≤◌, ◌≡◌, refl, ap, sym, ◌∙◌, inl, inr, Bool, false, Option,
  none, some, List, [], ◌∷◌, length, length-map, get_elem?, set, arith,
}
use voxeltoad.Js.Exception.{Outcome, returned, threw}
use voxeltoad.Js.Runtime.{Runtime}
use voxeltoad.Trace.{TraceDetailLike}
use voxeltoad.Desktop.Viewer.Page.{
  TraceSummary, prev_ids, Slot, waiting, arrived, Run, State, Verdict, open_, failed, done, Event,
  replied, start, answers, verdict, is_open,
}
use voxeltoad.Desktop.Viewer.Steps.{fill_slot, fill_current, fill, reply_to, step, run}
use voxeltoad.Desktop.Viewer.Answers.{row_of}
use voxeltoad.Desktop.Viewer.Guarded.{Guarded}
use voxeltoad.Desktop.Viewer.Verdicts.{Shows, LastShows, advance-Keeps}
use voxeltoad.Desktop.Viewer.Invariant.{Inv, run-Inv, step-Inv}

-- Answers to the requests of the last run: the number of each request and the moment.
abbrev pub replies : List (ℕ × ℕ) → List Event
replies [] = []
replies ((j, m) ∷ js) = replied 0 j m ∷ replies js

-- Request `j` is among the answered ones.
abbrev pub Answers : List (ℕ × ℕ) → ℕ → Type 0
Answers [] j = ⊥
Answers ((k, m) ∷ js) j = (k ≡ j) ⊎ Answers js j

-- Request `j` of a run is not answered yet.
abbrev IsWaiting : {D : Type 0} → Option (Slot D) → Type 0
IsWaiting (some (waiting i)) = Unit
IsWaiting _ = ⊥

abbrev IsPending : {D : Type 0} → Option (Outcome D) → List (Slot D) → ℕ → Type 0
IsPending c ss zero = c ≡ none
IsPending c ss (suc j) = IsWaiting (get_elem? ss j)

module _ {D : Type 0} where
  waiting-lt : (ss : List (Slot D)) (j : ℕ) → IsWaiting (get_elem? ss j) → suc j ≤ length ss
  waiting-lt [] j h = elim h [ ]
  waiting-lt (s ∷ ss) zero h = omega arith
  waiting-lt (s ∷ ss) (suc j) h = omega (arith, waiting-lt ss j h)

  pending-le :
      (c : Option (Outcome D)) (ss : List (Slot D)) (j : ℕ) → IsPending c ss j → j ≤ length ss
  pending-le c ss zero h = omega arith
  pending-le c ss (suc j) h = waiting-lt ss j h

  none_waiting :
      (ss : List (Slot D))
      → ((j : ℕ) → IsWaiting (get_elem? ss j) → ⊥)
      → (os : List (Option D)) × (answers ss ≡ some os)
  none_waiting [] h = ([], refl)
  none_waiting (waiting i ∷ ss) h = absurd (h 0 tt)
  none_waiting (arrived i o ∷ ss) h =
      let (os, e) = none_waiting ss (λ j. h (suc j)) in (o ∷ os, rw e refl)

  none_pending :
      (c : Option (Outcome D)) (ss : List (Slot D))
      → ((j : ℕ) → IsPending c ss j → ⊥)
      → is_open (verdict c ss) ≡ false
  unfolding verdict
  none_pending none ss h = absurd (h 0 refl)
  none_pending (some (threw e)) ss h = refl
  none_pending (some (returned d)) ss h =
      let (os, e) = none_waiting ss (λ j. h (suc j)) in rw e refl

module _ {D : Type 0} (answer : ℕ → ℕ → Outcome D) where
  fill_slot-IsWaiting :
      (ss : List (Slot D)) (j m k : ℕ)
      → IsWaiting (get_elem? (fill_slot answer ss j m) k)
      → IsWaiting (get_elem? ss k) × (j ≡ k → ⊥)
  unfolding fill_slot
  fill_slot-IsWaiting [] j m k h = elim h [ ]
  fill_slot-IsWaiting (waiting i ∷ ss) zero m zero h = elim h [ ]
  fill_slot-IsWaiting (arrived i o ∷ ss) zero m zero h = elim h [ ]
  fill_slot-IsWaiting (waiting i ∷ ss) zero m (suc k) h = (h, λ e. omega arith)
  fill_slot-IsWaiting (arrived i o ∷ ss) zero m (suc k) h = (h, λ e. omega arith)
  fill_slot-IsWaiting (waiting i ∷ ss) (suc j) m zero h = (h, λ e. omega arith)
  fill_slot-IsWaiting (arrived i o ∷ ss) (suc j) m zero h = elim h [ ]
  fill_slot-IsWaiting (waiting i ∷ ss) (suc j) m (suc k) h =
      let (w, ne) = fill_slot-IsWaiting ss j m k h in (w, λ e. ne (omega arith))
  fill_slot-IsWaiting (arrived i o ∷ ss) (suc j) m (suc k) h =
      let (w, ne) = fill_slot-IsWaiting ss j m k h in (w, λ e. ne (omega arith))

  filled : (i m : ℕ) (c : Option (Outcome D)) → fill_current answer i m c ≡ none → ⊥
  filled i m none e = cc
  filled i m (some o) e = cc

  -- An answered request is pending no more, and no other request becomes pending.
  fill-IsPending :
      (r : Run D) (j m k : ℕ)
      → IsPending (fill answer r j m).current (fill answer r j m).candidates k
      → IsPending r.current r.candidates k × (j ≡ k → ⊥)
  unfolding fill
  fill-IsPending r zero m zero h = absurd (filled r.row m r.current h)
  fill-IsPending r zero m (suc k) h = (h, λ e. omega arith)
  fill-IsPending r (suc j) m zero h = (h, λ e. omega arith)
  fill-IsPending r (suc j) m (suc k) h =
      let (w, ne) = fill_slot-IsWaiting r.candidates j m k h in (w, λ e. ne (omega arith))

module _ {D : Type 0} (rt : Runtime) (like : D → TraceDetailLike) (answer : ℕ → ℕ → Outcome D) where
  closed-loaded :
      (v : Verdict D) (loading : Bool) (error : Option String) (detail prev : Option D)
      → is_open v ≡ false
      → Shows rt like answer v loading error detail prev
      → loading ≡ false
  closed-loaded open_ loading error detail prev e h = cc
  closed-loaded (failed x) loading error detail prev e h = h.0
  closed-loaded (done d os) loading error detail prev e h = h.0

  reply_to-runs :
      (o : Option (Run D)) (s : State D) (r : Run D) (rs : List (Run D)) (j m : ℕ)
      → o ≡ some r
      → s.runs ≡ r ∷ rs
      → let t = reply_to rt like answer o 0 j m s in
        (t.runs ≡ fill answer r j m ∷ rs) × (t.selected ≡ s.selected)
  reply_to-runs none s r rs j m f e = elim (none_ne f) [ ]
  reply_to-runs (some q) s r rs j m f e =
      let (rows, sel, runs, cache) = advance-Keeps rt like answer q (fill answer q j m) _ in
      (
        runs
            ∙ (ap (λ l. set l 0 (fill answer q j m)) e
                ∙ ap (λ q. fill answer q j m ∷ rs) (some_inj f)),
        sel,
      )

  reply-runs :
      (s : State D) (r : Run D) (rs : List (Run D)) (j m : ℕ)
      → s.runs ≡ r ∷ rs
      → let t = step rt like answer s (replied 0 j m) in
        (t.runs ≡ fill answer r j m ∷ rs) × (t.selected ≡ s.selected)
  unfolding step
  reply-runs s r rs j m e =
      reply_to-runs (get_elem? s.runs 0) s r rs j m (ap (λ l. get_elem? l 0) e) e

  loaded :
      (s : State D) (i : ℕ) (r : Run D) (rs : List (Run D))
      → Inv rt like answer s
      → s.selected ≡ some i
      → s.runs ≡ r ∷ rs
      → is_open (verdict r.current r.candidates) ≡ false
      → s.loading_detail ≡ false
  loaded s i r rs inv sel e h =
      let View : Option ℕ → List (Run D) → Type 0 =
        λ sel rs. LastShows rt like answer sel rs s.loading_detail s.error s.detail s.prev_detail in
      closed-loaded (verdict r.current r.candidates) s.loading_detail s.error s.detail s.prev_detail
        h (subst (λ rs. View (some i) rs) e (subst (λ sel. View sel s.runs) sel inv.shows))

  run-settled :
      (js : List (ℕ × ℕ)) (s : State D) (i : ℕ) (r : Run D) (rs : List (Run D))
      → Inv rt like answer s
      → s.selected ≡ some i
      → s.runs ≡ r ∷ rs
      → ((k : ℕ) → IsPending r.current r.candidates k → Answers js k)
      → (run rt like answer s (replies js)).loading_detail ≡ false
  unfolding run
  run-settled [] s i r rs inv sel e h =
      loaded s i r rs inv sel e (none_pending r.current r.candidates h)
  run-settled ((j, m) ∷ js) s i r rs inv sel e h =
      let t = step rt like answer s (replied 0 j m) in
      let (runs, same) = reply-runs s r rs j m e in
      run-settled js t i (fill answer r j m) rs (step-Inv rt like answer s (replied 0 j m) inv)
        (same ∙ sel) runs
        (λ k p. let (before, ne) = fill-IsPending answer r j m k p in later j k js ne (h k before))
    where
      later : (j k : ℕ) (js : List (ℕ × ℕ)) → (j ≡ k → ⊥) → (j ≡ k) ⊎ Answers js k → Answers js k
      later j k js ne (inl e) = absurd (ne e)
      later j k js ne (inr a) = a

  -- The last run of the effect and its requests, once a row is selected.
  last_run :
      (rows : List TraceSummary) (i : ℕ) (rs : List (Run D))
      → Guarded rows (some i) rs
      → (r : Run D) × (rest : List (Run D)) × (rs ≡ r ∷ rest)
        × (length r.candidates ≡ length (prev_ids rows (some i)))
  last_run rows i [] g = elim g [ ]
  last_run rows i (r ∷ rs) (row, live, above, g) =
      (r, rs, refl, sym (length-map r.candidates row_of) ∙ ap length above)

  -- After any events that leave a row selected, answers to all requests of that row - its own, which
  -- has the number zero, and those for the rows above it - end the loading of its details, in
  -- whatever order they come, be they errors or not, and also when the details were loaded before.
  pub run-loads :
      (es : List Event) (i : ℕ) (js : List (ℕ × ℕ))
      → (run rt like answer start es).selected ≡ some i
      → ((j : ℕ)
          → j ≤ length (prev_ids (run rt like answer start es).timeline (some i))
          → Answers js j)
      → (run rt like answer (run rt like answer start es) (replies js)).loading_detail ≡ false
  run-loads es i js sel all =
      let s = run rt like answer start es in
      let inv = run-Inv rt like answer es in
      let (r, rest, e, count) =
        last_run s.timeline i s.runs
          (subst (λ sel. Guarded s.timeline sel s.runs) sel inv.guarded) in
      run-settled js s i r rest inv sel e
        (λ k p. all k (omega (arith, count, pending-le r.current r.candidates k p)))
