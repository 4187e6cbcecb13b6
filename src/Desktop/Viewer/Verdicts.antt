-- ===== src/Desktop/Viewer/Verdicts.antt =====
-- How the view stands to the verdict on the last run, and what an answer does to both.
use Prim.Native.String.{String}
use mathlib.Core.Path.{subst}
use voxeltoad.Common.{
  some_inj, none_ne, ℕ, zero, suc, ◌≡◌, refl, ap, sym, ◌∙◌, ◌⊎◌, inl, inr, Bool, true, false,
  Option, none, some, List, [], ◌∷◌, get_elem?, set, Bool-cases, Option-cases,
}
use voxeltoad.Js.Exception.{Outcome, returned, threw}
use voxeltoad.Js.Runtime.{Runtime}
use voxeltoad.Trace.{TraceDetailLike, pick_baseline}
use voxeltoad.Desktop.Viewer.Page.{
  TraceSummary, Slot, waiting, arrived, Run, State, Verdict, open_, failed, done, answers, verdict,
  is_open, present,
}
use voxeltoad.Desktop.Viewer.Steps.{fill_slot, fill_current, fill, with_baseline, settle, advance}
use voxeltoad.Desktop.Viewer.Answers.{All-get_elem?}
use voxeltoad.Desktop.Viewer.Guarded.{IsCancelled, with_answer-some, Guarded}

module _ {D : Type 0} (rt : Runtime) (like : D → TraceDetailLike) (answer : ℕ → ℕ → Outcome D) where
  -- How the view stands to the verdict on the last run.
  abbrev pub Shows : Verdict D → Bool → Option String → Option D → Option D → Type 0
  Shows open_ loading error detail prev = loading ≡ true
  Shows (failed e) loading error detail prev = (loading ≡ false) × ((m : String) × (error ≡ some m))
  Shows (done d os) loading error detail prev =
      (loading ≡ false)
      × (((m : String) × (error ≡ some m))
          ⊎ ((detail ≡ some d) × (pick_baseline rt like (like d) (present os) ≡ returned prev)))

  abbrev pub LastShows :
      Option ℕ → List (Run D) → Bool → Option String → Option D → Option D → Type 0
  LastShows none rs loading error detail prev = detail ≡ none
  LastShows (some i) [] loading error detail prev = ⊥
  LastShows (some i) (r ∷ rs) loading error detail prev =
      Shows (verdict r.current r.candidates) loading error detail prev

  abbrev pub ShowsLast : Option ℕ → List (Run D) → State D → Type 0
  ShowsLast sel rs s = LastShows sel rs s.loading_detail s.error s.detail s.prev_detail

  abbrev pub Keeps : State D → State D → Type 0
  Keeps s t =
      (t.timeline ≡ s.timeline)
      × (t.selected ≡ s.selected)
      × (t.runs ≡ s.runs)
      × (t.cache ≡ s.cache)

  with_baseline-Keeps :
      (cur : D) (o : Outcome (Option D)) (s : State D) → Keeps s (with_baseline rt like cur o s)
  with_baseline-Keeps cur (returned prev) s = (refl, refl, refl, refl)
  with_baseline-Keeps cur (threw e) s = (refl, refl, refl, refl)

  settle-Keeps : (b : Bool) (v : Verdict D) (s : State D) → Keeps s (settle rt like b v s)
  unfolding settle
  settle-Keeps true v s = (refl, refl, refl, refl)
  settle-Keeps false open_ s = (refl, refl, refl, refl)
  settle-Keeps false (failed e) s = (refl, refl, refl, refl)
  settle-Keeps false (done cur os) s =
      with_baseline-Keeps cur (pick_baseline rt like (like cur) (present os)) s

  pub advance-Keeps : (r r' : Run D) (s : State D) → Keeps s (advance rt like r r' s)
  advance-Keeps r r' s = elim (Bool-cases (is_open (verdict r.current r.candidates))) [
    | inl e ↦ rw e (settle-Keeps r.cancelled (verdict r'.current r'.candidates) s)
    | inr e ↦ rw e (refl, refl, refl, refl)
  ]

  -- The verdict on a run whose promises were open, once it has settled.
  with_baseline-Shows :
      (cur : D) (os : List (Option D)) (o : Outcome (Option D)) (s : State D)
      → pick_baseline rt like (like cur) (present os) ≡ o
      → let t = with_baseline rt like cur o s in
        Shows (done cur os) t.loading_detail t.error t.detail t.prev_detail
  with_baseline-Shows cur os (returned prev) s e = (refl, inr (refl, e))
  with_baseline-Shows cur os (threw x) s e = (refl, inl (_, refl))

  settle-Shows :
      (b : Bool) (v : Verdict D) (s : State D)
      → b ≡ false
      → s.loading_detail ≡ true
      → let t = settle rt like b v s in Shows v t.loading_detail t.error t.detail t.prev_detail
  unfolding settle
  settle-Shows true v s e h = cc
  settle-Shows false open_ s e h = h
  settle-Shows false (failed x) s e h = (refl, (_, refl))
  settle-Shows false (done cur os) s e h =
      with_baseline-Shows cur os (pick_baseline rt like (like cur) (present os)) s refl

  answers-closed :
      (ss : List (Slot D)) (j m : ℕ) (os : List (Option D))
      → answers ss ≡ some os
      → fill_slot answer ss j m ≡ ss
  unfolding fill_slot
  answers-closed [] j m os e = refl
  answers-closed (waiting i ∷ ss) j m os e = elim (none_ne e) [ ]
  answers-closed (arrived i o ∷ ss) zero m os e = refl
  answers-closed (arrived i o ∷ ss) (suc j) m os e =
      let (ps, f) = with_answer-some o (answers ss) os e in
      ap (λ l. arrived i o ∷ l) (answers-closed ss j m ps f)

  current-closed :
      (i m : ℕ) (c : Option (Outcome D)) (ss : List (Slot D))
      → is_open (verdict c ss) ≡ false
      → verdict (fill_current answer i m c) ss ≡ verdict c ss
  unfolding verdict
  current-closed i m none ss h = cc
  current-closed i m (some o) ss h = refl

  slots-closed :
      (c : Option (Outcome D)) (ss : List (Slot D)) (j m : ℕ)
      → is_open (verdict c ss) ≡ false
      → verdict c (fill_slot answer ss j m) ≡ verdict c ss
  unfolding verdict
  slots-closed none ss j m h = refl
  slots-closed (some (threw e)) ss j m h = refl
  slots-closed (some (returned d)) ss j m h = elim (Option-cases (answers ss)) [
    | inl none_ ↦ let e : true ≡ false = sym (rw none_ refl) ∙ h in cc
    | inr (os, e) ↦ rw (answers-closed ss j m os e) refl
  ]

  -- Nothing that arrives changes a verdict that is out.
  verdict-closed :
      (r : Run D) (j m : ℕ)
      → is_open (verdict r.current r.candidates) ≡ false
      → verdict (fill answer r j m).current (fill answer r j m).candidates
        ≡ verdict r.current r.candidates
  unfolding fill
  verdict-closed r zero m h = current-closed r.row m r.current r.candidates h
  verdict-closed r (suc j) m h = slots-closed r.current r.candidates j m h

  open-loading :
      (v : Verdict D) (loading : Bool) (error : Option String) (detail prev : Option D)
      → is_open v ≡ true
      → Shows v loading error detail prev
      → loading ≡ true
  open-loading open_ loading error detail prev e h = h
  open-loading (failed x) loading error detail prev e h = cc
  open-loading (done d os) loading error detail prev e h = cc

  -- An answer to the run that may write to the view.
  live-Shows :
      (r : Run D) (j m : ℕ) (s : State D)
      → r.cancelled ≡ false
      → Shows (verdict r.current r.candidates) s.loading_detail s.error s.detail s.prev_detail
      → let r' = fill answer r j m in
        let t = advance rt like r r' s in
        Shows (verdict r'.current r'.candidates) t.loading_detail t.error t.detail t.prev_detail
  live-Shows r j m s live h = elim (Bool-cases (is_open (verdict r.current r.candidates))) [
    | inl e ↦ rw e (settle-Shows r.cancelled _ s live (open-loading _ _ _ _ _ e h))
    | inr e ↦ rw (e, verdict-closed r j m e) h
  ]

  -- An answer to a cancelled run leaves the view as it is.
  cancelled-advance : (r r' : Run D) (s : State D) → r.cancelled ≡ true → advance rt like r r' s ≡ s
  unfolding settle
  cancelled-advance r r' s h = elim (Bool-cases (is_open (verdict r.current r.candidates))) [
    | inl e ↦ rw (e, h) refl
    | inr e ↦ rw e refl
  ]

  pub reply-ShowsLast :
      (rows : List TraceSummary) (sel : Option ℕ) (rs : List (Run D)) (k j m : ℕ) (r : Run D)
      (s : State D)
      → get_elem? rs k ≡ some r
      → Guarded rows sel rs
      → ShowsLast sel rs s
      → ShowsLast sel (set rs k (fill answer r j m)) (advance rt like r (fill answer r j m) s)
  reply-ShowsLast rows none rs k j m r s e g h =
      rw (cancelled-advance r (fill answer r j m) s (All-get_elem? IsCancelled rs k r e g)) h
  reply-ShowsLast rows (some i) [] k j m r s e g h = elim h [ ]
  reply-ShowsLast rows (some i) (q ∷ rs) zero j m r s e (row, live, above, g) h =
      subst
        (λ r. ShowsLast (some i) (fill answer r j m ∷ rs) (advance rt like r (fill answer r j m) s))
        (some_inj e) (live-Shows q j m s live h)
  reply-ShowsLast rows (some i) (q ∷ rs) (suc k) j m r s e (row, live, above, g) h =
      rw (cancelled-advance r (fill answer r j m) s (All-get_elem? IsCancelled rs k r e g)) h

  -- More errors on the page leave the rest as it is.
  Shows-error :
      (v : Verdict D) (loading : Bool) (error : Option String) (detail prev : Option D) (m : String)
      → Shows v loading error detail prev
      → Shows v loading (some m) detail prev
  Shows-error open_ loading error detail prev m h = h
  Shows-error (failed e) loading error detail prev m (h, k) = (h, (m, refl))
  Shows-error (done d os) loading error detail prev m (h, k) = (h, inl (m, refl))

  pub LastShows-error :
      (sel : Option ℕ) (rs : List (Run D)) (loading : Bool) (error : Option String)
      (detail prev : Option D) (m : String)
      → LastShows sel rs loading error detail prev
      → LastShows sel rs loading (some m) detail prev
  LastShows-error none rs loading error detail prev m h = h
  LastShows-error (some i) [] loading error detail prev m h = h
  LastShows-error (some i) (r ∷ rs) loading error detail prev m h =
      Shows-error (verdict r.current r.candidates) loading error detail prev m h
