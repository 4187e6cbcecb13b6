-- ===== src/Desktop/Viewer/Invariant.antt =====
-- What holds of the viewer after any events.
use voxeltoad.Common.{
  ℕ, ◌≡◌, refl, Bool, true, false, Option, none, some, List, [], ◌∷◌, get_elem?, set, if◌then◌else◌,
}
use voxeltoad.Js.Exception.{Outcome, returned, threw}
use voxeltoad.Js.Runtime.{Runtime}
use voxeltoad.Trace.{TraceDetailLike}
use voxeltoad.Trace.Prefix.{All}
use voxeltoad.Desktop.Viewer.Page.{
  Run, State, Event, listed, clicked, replied, tab_chosen, cancel_last, new_run, effect_for,
  run_effect, start, verdict, can_select,
}
use voxeltoad.Desktop.Viewer.Steps.{fill, cache_reply, advance, reply_to, step, run}
use voxeltoad.Desktop.Viewer.Answers.{
  All-set, All-get_elem?, IsTrueRun, IsTrueEntry, IsTrueRun-cancel_last, candidates-IsTrueSlot,
  rows_of-candidates, fill-IsTrueRun, cache_reply-IsTrueEntry,
}
use voxeltoad.Desktop.Viewer.Guarded.{IsCancelled, Guarded, All-cancel_last, Guarded-set}
use voxeltoad.Desktop.Viewer.Verdicts.{
  ShowsLast, Keeps, advance-Keeps, reply-ShowsLast, LastShows-error,
}

module _ {D : Type 0} (rt : Runtime) (like : D → TraceDetailLike) (answer : ℕ → ℕ → Outcome D) where
  pub record Inv (s : State D) : Type 0 where
    pub guarded : Guarded s.timeline s.selected s.runs
    pub shows : ShowsLast rt like answer s.selected s.runs s
    pub true_runs : All (IsTrueRun answer) s.runs
    pub true_cache : All (IsTrueEntry answer) s.cache

  effect_for-Inv :
      (sel : Option ℕ) (s : State D)
      → s.selected ≡ sel
      → All IsCancelled (cancel_last s.runs)
      → All (IsTrueRun answer) s.runs
      → All (IsTrueEntry answer) s.cache
      → Inv (effect_for sel s)
  unfolding new_run verdict
  effect_for-Inv none s e h runs cache = record {
    guarded = rw e h;
    shows = rw e refl;
    true_runs = IsTrueRun-cancel_last answer s.runs runs;
    true_cache = cache;
  }
  effect_for-Inv (some i) s e h runs cache = record {
    guarded = rw e (refl, refl, rows_of-candidates answer s.cache _, h);
    shows = rw e refl;
    true_runs = (
      (tt, candidates-IsTrueSlot answer s.cache _ cache),
      IsTrueRun-cancel_last answer s.runs runs,
    );
    true_cache = cache;
  }

  Keeps-Inv :
      (s t : State D)
      → Keeps rt like answer s t
      → Guarded s.timeline s.selected s.runs
      → ShowsLast rt like answer s.selected s.runs t
      → All (IsTrueRun answer) s.runs
      → All (IsTrueEntry answer) s.cache
      → Inv t
  Keeps-Inv s t (rows, sel, runs, cache) g h told kept = record {
    guarded = rw (rows, sel, runs) g;
    shows = rw (sel, runs) h;
    true_runs = rw runs told;
    true_cache = rw cache kept;
  }

  reply_to-Inv :
      (o : Option (Run D)) (k j m : ℕ) (s : State D)
      → get_elem? s.runs k ≡ o
      → Inv s
      → Inv (reply_to rt like answer o k j m s)
  reply_to-Inv none k j m s e h = h
  reply_to-Inv (some r) k j m s e h =
      let r' = fill answer r j m in
      let s' : State D = record s {
        runs = set s.runs k r';
        cache = cache_reply answer r j m s.cache;
      } in
      Keeps-Inv s' (advance rt like r r' s') (advance-Keeps rt like answer r r' s')
        (Guarded-set answer s.timeline s.selected s.runs k j m r e h.guarded)
        (reply-ShowsLast rt like answer s.timeline s.selected s.runs k j m r s' e h.guarded h.shows)
        (All-set (IsTrueRun answer) s.runs k r'
          (fill-IsTrueRun answer r j m (All-get_elem? (IsTrueRun answer) s.runs k r e h.true_runs))
          h.true_runs)
        (cache_reply-IsTrueEntry answer r j m s.cache h.true_cache)

  run_effect-Inv :
      (s t : State D) → Inv s → t.runs ≡ s.runs → t.cache ≡ s.cache → Inv (run_effect t)
  unfolding run_effect
  run_effect-Inv s t h runs cache =
      effect_for-Inv t.selected t refl
        (rw runs (All-cancel_last s.timeline s.selected s.runs h.guarded)) (rw runs h.true_runs)
        (rw cache h.true_cache)

  click-Inv : (b : Bool) (s t : State D) → Inv s → Inv t → Inv (if b then t else s)
  click-Inv true s t h k = k
  click-Inv false s t h k = h

  pub step-Inv : (s : State D) (e : Event) → Inv s → Inv (step rt like answer s e)
  unfolding step
  step-Inv s (listed (returned rows)) h = run_effect-Inv s _ h refl refl
  step-Inv s (listed (threw e)) h = record {
    guarded = h.guarded;
    shows = LastShows-error rt like answer s.selected s.runs _ _ _ _ _ h.shows;
    true_runs = h.true_runs;
    true_cache = h.true_cache;
  }
  step-Inv s (clicked i) h = click-Inv (can_select s i) _ _ h (run_effect-Inv s _ h refl refl)
  step-Inv s (replied k j m) h = reply_to-Inv (get_elem? s.runs k) k j m s refl h
  step-Inv s (tab_chosen v) h = record {
    guarded = h.guarded;
    shows = h.shows;
    true_runs = h.true_runs;
    true_cache = h.true_cache;
  }

  run-keeps_Inv : (s : State D) (es : List Event) → Inv s → Inv (run rt like answer s es)
  unfolding run
  run-keeps_Inv s [] h = h
  run-keeps_Inv s (e ∷ es) h = run-keeps_Inv (step rt like answer s e) es (step-Inv s e h)

  start-Inv : Inv start
  unfolding start
  start-Inv = record { guarded = tt; shows = refl; true_runs = tt; true_cache = tt }

  pub run-Inv : (es : List Event) → Inv (run rt like answer start es)
  run-Inv es = run-keeps_Inv start es start-Inv
