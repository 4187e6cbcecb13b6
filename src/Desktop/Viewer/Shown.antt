-- ===== src/Desktop/Viewer/Shown.antt =====
-- Whose answers stand on the page once nothing is loading.
use mathlib.Core.Path.{subst}
use voxeltoad.Common.{
  some_inj, none_ne, ℕ, ◌≡◌, refl, ap, sym, ◌∙◌, inl, inr, false, Option, none, some, List, [], ◌∷◌,
  map,
}
use voxeltoad.Js.Exception.{Outcome, returned, threw}
use voxeltoad.Js.Runtime.{Runtime}
use voxeltoad.Trace.{TraceDetailLike, pick_baseline}
use voxeltoad.Trace.Prefix.{All}
use voxeltoad.Desktop.Viewer.Page.{
  prev_ids, Slot, waiting, arrived, Run, State, Verdict, open_, failed, done, Event, start, answers,
  with_answer, verdict_of, verdict, present,
}
use voxeltoad.Desktop.Viewer.Steps.{run}
use voxeltoad.Desktop.Viewer.Answers.{
  IsAnswer, IsFailure, IsTrueSlot, IsTrueCurrent, IsTrueRun, row_of,
}
use voxeltoad.Desktop.Viewer.Guarded.{Guarded, with_answer-some}
use voxeltoad.Desktop.Viewer.Verdicts.{Shows, LastShows}
use voxeltoad.Desktop.Viewer.Invariant.{run-Inv}

module _ {D : Type 0} (answer : ℕ → ℕ → Outcome D) where
  -- `Fetched rows ds`: of each row, in their order, either an answer of the API is in `ds`, or the row
  -- has none there and the API failed to answer a request for it.
  pub data Fetched : List ℕ → List D → Type 0 where
    no_rows : Fetched [] []
    answered :
        {i : ℕ} {d : D} {rows : List ℕ} {ds : List D}
        → IsAnswer answer i d
        → Fetched rows ds
        → Fetched (i ∷ rows) (d ∷ ds)
    failed_row :
        {i : ℕ} {rows : List ℕ} {ds : List D}
        → IsFailure answer i
        → Fetched rows ds
        → Fetched (i ∷ rows) ds

  answers-Fetched :
      (ss : List (Slot D)) (os : List (Option D))
      → All (IsTrueSlot answer) ss
      → answers ss ≡ some os
      → Fetched (map row_of ss) (present os)
  answers-Fetched [] os h e = subst (λ os. Fetched [] (present os)) (some_inj e) no_rows
  answers-Fetched (waiting i ∷ ss) os h e = elim (none_ne e) [ ]
  answers-Fetched (arrived i o ∷ ss) os (hs, h) e =
      let (ps, f) = with_answer-some o (answers ss) os e in
      let whole : o ∷ ps ≡ os = some_inj (sym (ap (with_answer o) f) ∙ e) in
      subst (λ os. Fetched (i ∷ map row_of ss) (present os)) whole
        (join i o ps hs (answers-Fetched ss ps h f))
    where
      join :
          (i : ℕ) (o : Option D) (ps : List (Option D))
          → IsTrueSlot answer (arrived i o)
          → Fetched (map row_of ss) (present ps)
          → Fetched (i ∷ map row_of ss) (present (o ∷ ps))
      join i none ps hs h = failed_row hs h
      join i (some d) ps hs h = answered hs h

  verdict_of-done :
      (c d : D) (o : Option (List (Option D))) (os : List (Option D))
      → verdict_of c o ≡ done d os
      → (c ≡ d) × (o ≡ some os)
  verdict_of-done c d none os e = cc
  verdict_of-done c d (some ps) os e = (cc, cc)

  verdict-done :
      (c : Option (Outcome D)) (ss : List (Slot D)) (d : D) (os : List (Option D))
      → verdict c ss ≡ done d os
      → (c ≡ some (returned d)) × (answers ss ≡ some os)
  unfolding verdict
  verdict-done none ss d os e = cc
  verdict-done (some (threw x)) ss d os e = cc
  verdict-done (some (returned c)) ss d os e =
      let (same, all) = verdict_of-done c d (answers ss) os e in
      (ap (λ d. some (returned d)) same, all)

module _ {D : Type 0} (rt : Runtime) (like : D → TraceDetailLike) (answer : ℕ → ℕ → Outcome D) where
  -- The page shows an answer for row `i`, and the baseline that `pickBaseline` picks for it among
  -- answers for the rows above it, of which only rows are left out for which a request failed.
  pub record ShowsRow (i : ℕ) (s : State D) : Type 0 where
    pub shown : D
    pub is_shown : s.detail ≡ some shown
    pub answers_row : IsAnswer answer i shown
    pub above : List D
    pub fetched_above : Fetched answer (prev_ids s.timeline (some i)) above
    pub baseline : pick_baseline rt like (like shown) above ≡ returned s.prev_detail

  run-ShowsRow :
      (v : Verdict D) (i : ℕ) (r : Run D) (s : State D)
      → verdict r.current r.candidates ≡ v
      → r.row ≡ i
      → map row_of r.candidates ≡ prev_ids s.timeline (some i)
      → IsTrueRun answer r
      → Shows rt like answer v s.loading_detail s.error s.detail s.prev_detail
      → s.loading_detail ≡ false
      → s.error ≡ none
      → ShowsRow i s
  run-ShowsRow open_ i r s e row above told h loaded fine = absurd cc
  run-ShowsRow (failed x) i r s e row above told (h, (m, bad)) loaded fine = absurd cc
  run-ShowsRow (done d os) i r s e row above told (h, inl (m, bad)) loaded fine = absurd cc
  run-ShowsRow (done d os) i r s e row above (first, told) (h, inr (is, base)) loaded fine =
      let (cur, all) = verdict-done answer r.current r.candidates d os e in
      record {
        shown = d;
        is_shown = is;
        answers_row =
            subst (λ i. IsAnswer answer i d) row (subst (IsTrueCurrent answer r.row) cur first);
        above = present os;
        fetched_above =
            subst (λ is. Fetched answer is (present os)) above
              (answers-Fetched answer r.candidates os told all);
        baseline = base;
      }

  runs-ShowsRow :
      (rs : List (Run D)) (i : ℕ) (s : State D)
      → Guarded s.timeline (some i) rs
      → All (IsTrueRun answer) rs
      → LastShows rt like answer (some i) rs s.loading_detail s.error s.detail s.prev_detail
      → s.loading_detail ≡ false
      → s.error ≡ none
      → ShowsRow i s
  runs-ShowsRow [] i s g t h loaded fine = elim h [ ]
  runs-ShowsRow (r ∷ rs) i s (row, live, above, g) (told, ts) h loaded fine =
      run-ShowsRow (verdict r.current r.candidates) i r s refl row above told h loaded fine

  -- After any events, with answers that come in any order: once a row is selected, its details are
  -- not loading and there is no error on the page, the page shows the API's answer for the selected
  -- row, next to the baseline that `pickBaseline` picks among answers for the rows above it; they are
  -- in the order of prevIds, and a row is left out only if a request for it failed.
  pub run-ShowsRow_selected :
      (es : List Event) (i : ℕ)
      → (run rt like answer start es).selected ≡ some i
      → (run rt like answer start es).loading_detail ≡ false
      → (run rt like answer start es).error ≡ none
      → ShowsRow i (run rt like answer start es)
  run-ShowsRow_selected es i sel loaded fine =
      let s = run rt like answer start es in
      let inv = run-Inv rt like answer es in
      runs-ShowsRow s.runs i s (subst (λ sel. Guarded s.timeline sel s.runs) sel inv.guarded)
        inv.true_runs
        (subst
          (λ sel.
            LastShows rt like answer sel s.runs s.loading_detail s.error s.detail s.prev_detail)
          sel inv.shows)
        loaded fine
