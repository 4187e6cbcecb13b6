-- ===== src/Desktop/Viewer/Guarded.antt =====
-- Which run of the effect may still write to the view.
use voxeltoad.Common.{
  some_inj, none_ne, ℕ, zero, suc, ◌≡◌, refl, ap, sym, ◌∙◌, true, false, Option, none, some, List,
  [], ◌∷◌, map, get_elem?, set,
}
use voxeltoad.Js.Exception.{Outcome}
use voxeltoad.Trace.Prefix.{All}
use voxeltoad.Desktop.Viewer.Page.{
  TraceSummary, prev_ids, Slot, waiting, arrived, Run, cancel_last, with_answer,
}
use voxeltoad.Desktop.Viewer.Steps.{fill_slot, fill}
use voxeltoad.Desktop.Viewer.Answers.{All-set, All-get_elem?, row_of}

abbrev pub IsCancelled : {D : Type 0} → Run D → Type 0
IsCancelled r = r.cancelled ≡ true

module _ {D : Type 0} where
  pub with_answer-some :
      (o : Option D) (x : Option (List (Option D))) (os : List (Option D))
      → with_answer o x ≡ some os
      → (ps : List (Option D)) × (x ≡ some ps)
  with_answer-some o none os e = elim (none_ne e) [ ]
  with_answer-some o (some ps) os e = (ps, refl)

  -- Only the last run may write to the view, and it is for the selected row.
  abbrev pub Guarded : List TraceSummary → Option ℕ → List (Run D) → Type 0
  Guarded rows none rs = All IsCancelled rs
  Guarded rows (some i) [] = ⊥
  Guarded rows (some i) (r ∷ rs) =
      (r.row ≡ i)
      × (r.cancelled ≡ false)
      × (map row_of r.candidates ≡ prev_ids rows (some i))
      × All IsCancelled rs

  pub All-cancel_last :
      (rows : List TraceSummary) (sel : Option ℕ) (rs : List (Run D))
      → Guarded rows sel rs
      → All IsCancelled (cancel_last rs)
  All-cancel_last rows none [] h = tt
  All-cancel_last rows none (r ∷ rs) (hr, h) = (refl, h)
  All-cancel_last rows (some i) [] h = elim h [ ]
  All-cancel_last rows (some i) (r ∷ rs) (row, live, above, h) = (refl, h)

  fill-cancelled :
      (answer : ℕ → ℕ → Outcome D) (r : Run D) (j m : ℕ)
      → (fill answer r j m).cancelled ≡ r.cancelled
  unfolding fill
  fill-cancelled answer r zero m = refl
  fill-cancelled answer r (suc j) m = refl

  fill-row : (answer : ℕ → ℕ → Outcome D) (r : Run D) (j m : ℕ) → (fill answer r j m).row ≡ r.row
  unfolding fill
  fill-row answer r zero m = refl
  fill-row answer r (suc j) m = refl

  rows_of-fill_slot :
      (answer : ℕ → ℕ → Outcome D) (ss : List (Slot D)) (j m : ℕ)
      → map row_of (fill_slot answer ss j m) ≡ map row_of ss
  unfolding fill_slot
  rows_of-fill_slot answer [] j m = refl
  rows_of-fill_slot answer (waiting i ∷ ss) zero m = refl
  rows_of-fill_slot answer (arrived i o ∷ ss) zero m = refl
  rows_of-fill_slot answer (waiting i ∷ ss) (suc j) m =
      ap (λ l. i ∷ l) (rows_of-fill_slot answer ss j m)
  rows_of-fill_slot answer (arrived i o ∷ ss) (suc j) m =
      ap (λ l. i ∷ l) (rows_of-fill_slot answer ss j m)

  rows_of-fill :
      (answer : ℕ → ℕ → Outcome D) (r : Run D) (j m : ℕ)
      → map row_of (fill answer r j m).candidates ≡ map row_of r.candidates
  unfolding fill
  rows_of-fill answer r zero m = refl
  rows_of-fill answer r (suc j) m = rows_of-fill_slot answer r.candidates j m

  pub Guarded-set :
      (answer : ℕ → ℕ → Outcome D) (rows : List TraceSummary) (sel : Option ℕ) (rs : List (Run D))
      (k j m : ℕ) (r : Run D)
      → get_elem? rs k ≡ some r
      → Guarded rows sel rs
      → Guarded rows sel (set rs k (fill answer r j m))
  Guarded-set answer rows none rs k j m r e h =
      All-set IsCancelled rs k (fill answer r j m)
        (fill-cancelled answer r j m ∙ All-get_elem? IsCancelled rs k r e h) h
  Guarded-set answer rows (some i) [] k j m r e h = elim h [ ]
  Guarded-set answer rows (some i) (q ∷ rs) zero j m r e (row, live, above, h) =
      let same : q ≡ r = some_inj e in
      (
        fill-row answer r j m ∙ (ap (λ (r : Run D). r.row) (sym same) ∙ row),
        fill-cancelled answer r j m ∙ (ap (λ (r : Run D). r.cancelled) (sym same) ∙ live),
        rows_of-fill answer r j m
            ∙ (ap (λ (r : Run D). map row_of r.candidates) (sym same) ∙ above),
        h,
      )
  Guarded-set answer rows (some i) (q ∷ rs) (suc k) j m r e (row, live, above, h) = (
    row,
    live,
    above,
    All-set IsCancelled rs k (fill answer r j m)
        (fill-cancelled answer r j m ∙ All-get_elem? IsCancelled rs k r e h) h,
  )
