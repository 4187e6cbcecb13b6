-- ===== src/Desktop/Viewer/Answers.antt =====
-- The answers that the runs of the effect and the cache keep are answers of the API to requests for
-- their rows.
use mathlib.Core.Path.{subst}
use voxeltoad.Common.{
  some_inj, ℕ, zero, suc, ◌≡◌, refl, sym, ◌∙◌, inl, inr, true, Option, none, some, List, [], ◌∷◌,
  map, get_elem?, set, Bool-cases, ◌==◌, ==_iff,
}
use voxeltoad.Js.Exception.{Exception, Outcome, returned, threw}
use voxeltoad.Trace.Prefix.{All}
use voxeltoad.Desktop.Viewer.Page.{
  Slot, waiting, arrived, Run, find_row, slot, cancel_last, or_null, store,
}
use voxeltoad.Desktop.Viewer.Steps.{
  fill_slot, cache_slot, fill_current, cache_current, fill, cache_reply,
}

module _ {ℓ} {A : Type ℓ} (P : A → Type 0) where
  pub All-set : (xs : List A) (k : ℕ) (x : A) → P x → All P xs → All P (set xs k x)
  All-set [] k x h hs = tt
  All-set (y ∷ xs) zero x h (hy, hs) = (h, hs)
  All-set (y ∷ xs) (suc k) x h (hy, hs) = (hy, All-set xs k x h hs)

  pub All-get_elem? : (xs : List A) (k : ℕ) (x : A) → get_elem? xs k ≡ some x → All P xs → P x
  All-get_elem? [] k x e hs = cc
  All-get_elem? (y ∷ xs) zero x e (hy, hs) = subst P (some_inj e) hy
  All-get_elem? (y ∷ xs) (suc k) x e (hy, hs) = All-get_elem? xs k x e hs

abbrev pub IsCancelled : {D : Type 0} → Run D → Type 0
IsCancelled r = r.cancelled ≡ true

abbrev pub row_of : {D : Type 0} → Slot D → ℕ
row_of (waiting i) = i
row_of (arrived i o) = i

module _ {D : Type 0} (answer : ℕ → ℕ → Outcome D) where
  -- The API has answered `d` to a request for row `i` at some moment.
  pub record IsAnswer (i : ℕ) (d : D) : Type 0 where
    pub moment : ℕ
    pub was_answered : answer i moment ≡ returned d

  -- The API has failed to answer a request for row `i` at some moment.
  pub record IsFailure (i : ℕ) : Type 0 where
    pub moment : ℕ
    pub exception : Exception
    pub was_thrown : answer i moment ≡ threw exception

  abbrev pub IsTrueSlot : Slot D → Type 0
  IsTrueSlot (arrived i (some d)) = IsAnswer i d
  IsTrueSlot (arrived i none) = IsFailure i
  IsTrueSlot (waiting i) = Unit

  abbrev pub IsTrueCurrent : ℕ → Option (Outcome D) → Type 0
  IsTrueCurrent i (some (returned d)) = IsAnswer i d
  IsTrueCurrent i _ = Unit

  abbrev pub IsTrueRun : Run D → Type 0
  IsTrueRun r = IsTrueCurrent r.row r.current × All IsTrueSlot r.candidates

  abbrev pub IsTrueEntry : ℕ × D → Type 0
  IsTrueEntry (i, d) = IsAnswer i d

  pub IsTrueRun-cancel_last :
      (rs : List (Run D)) → All IsTrueRun rs → All IsTrueRun (cancel_last rs)
  IsTrueRun-cancel_last [] h = tt
  IsTrueRun-cancel_last (r ∷ rs) h = h

  find_row-IsAnswer :
      (i : ℕ) (cache : List (ℕ × D)) (d : D)
      → All IsTrueEntry cache
      → find_row i cache ≡ some d
      → IsAnswer i d
  unfolding find_row
  find_row-IsAnswer i [] d h e = cc
  find_row-IsAnswer i ((j, c) ∷ cache) d (hc, h) e = elim (Bool-cases (j == i)) [
    | inl same ↦
        let found : c ≡ d = some_inj (sym (rw same refl) ∙ e) in
        subst (λ k. IsAnswer k d) ((==_iff j i).0 same) (subst (λ d. IsAnswer j d) found hc)
    | inr other ↦ find_row-IsAnswer i cache d h (sym (rw other refl) ∙ e)
  ]

  slot-IsTrueSlot :
      (i : ℕ) (o : Option D) → ((d : D) → o ≡ some d → IsAnswer i d) → IsTrueSlot (slot i o)
  slot-IsTrueSlot i none h = tt
  slot-IsTrueSlot i (some d) h = h d refl

  pub candidates-IsTrueSlot :
      (cache : List (ℕ × D)) (prev : List ℕ)
      → All IsTrueEntry cache
      → All IsTrueSlot (map (λ j. slot j (find_row j cache)) prev)
  candidates-IsTrueSlot cache [] h = tt
  candidates-IsTrueSlot cache (j ∷ prev) h = (
    slot-IsTrueSlot j (find_row j cache) (λ d e. find_row-IsAnswer j cache d h e),
    candidates-IsTrueSlot cache prev h,
  )

  row_of-slot : (j : ℕ) (o : Option D) → row_of (slot j o) ≡ j
  row_of-slot j none = refl
  row_of-slot j (some d) = refl

  pub rows_of-candidates :
      (cache : List (ℕ × D)) (prev : List ℕ)
      → map row_of (map (λ j. slot j (find_row j cache)) prev) ≡ prev
  rows_of-candidates cache [] = refl
  rows_of-candidates cache (j ∷ prev) =
      cc (row_of-slot j (find_row j cache), rows_of-candidates cache prev)

  true_answer : (i m : ℕ) (o : Outcome D) → answer i m ≡ o → IsTrueCurrent i (some o)
  true_answer i m (returned d) e = record { moment = m; was_answered = e }
  true_answer i m (threw x) e = tt

  IsTrueCurrent-fill :
      (i m : ℕ) (c : Option (Outcome D))
      → IsTrueCurrent i c
      → IsTrueCurrent i (fill_current answer i m c)
  IsTrueCurrent-fill i m none h = true_answer i m (answer i m) refl
  IsTrueCurrent-fill i m (some o) h = h

  or_null-IsTrueSlot :
      (i m : ℕ) (o : Outcome D) → answer i m ≡ o → IsTrueSlot (arrived i (or_null o))
  or_null-IsTrueSlot i m (returned d) e = record { moment = m; was_answered = e }
  or_null-IsTrueSlot i m (threw x) e = record { moment = m; exception = x; was_thrown = e }

  fill_slot-IsTrueSlot :
      (ss : List (Slot D)) (j m : ℕ) → All IsTrueSlot ss → All IsTrueSlot (fill_slot answer ss j m)
  unfolding fill_slot
  fill_slot-IsTrueSlot [] j m h = tt
  fill_slot-IsTrueSlot (waiting i ∷ ss) zero m (hs, h) =
      (or_null-IsTrueSlot i m (answer i m) refl, h)
  fill_slot-IsTrueSlot (arrived i o ∷ ss) zero m h = h
  fill_slot-IsTrueSlot (waiting i ∷ ss) (suc j) m (hs, h) = (hs, fill_slot-IsTrueSlot ss j m h)
  fill_slot-IsTrueSlot (arrived i o ∷ ss) (suc j) m (hs, h) = (hs, fill_slot-IsTrueSlot ss j m h)

  pub fill-IsTrueRun : (r : Run D) (j m : ℕ) → IsTrueRun r → IsTrueRun (fill answer r j m)
  unfolding fill
  fill-IsTrueRun r zero m (hc, hs) = (IsTrueCurrent-fill r.row m r.current hc, hs)
  fill-IsTrueRun r (suc j) m (hc, hs) = (hc, fill_slot-IsTrueSlot r.candidates j m hs)

  store-IsTrueEntry :
      (i m : ℕ) (o : Outcome D) (cache : List (ℕ × D))
      → answer i m ≡ o
      → All IsTrueEntry cache
      → All IsTrueEntry (store i o cache)
  store-IsTrueEntry i m (returned d) cache e h = (record { moment = m; was_answered = e }, h)
  store-IsTrueEntry i m (threw x) cache e h = h

  cache_slot-IsTrueEntry :
      (ss : List (Slot D)) (j m : ℕ) (cache : List (ℕ × D))
      → All IsTrueEntry cache
      → All IsTrueEntry (cache_slot answer ss j m cache)
  unfolding cache_slot
  cache_slot-IsTrueEntry [] j m cache h = h
  cache_slot-IsTrueEntry (waiting i ∷ ss) zero m cache h =
      store-IsTrueEntry i m (answer i m) cache refl h
  cache_slot-IsTrueEntry (arrived i o ∷ ss) zero m cache h = h
  cache_slot-IsTrueEntry (waiting i ∷ ss) (suc j) m cache h = cache_slot-IsTrueEntry ss j m cache h
  cache_slot-IsTrueEntry (arrived i o ∷ ss) (suc j) m cache h =
      cache_slot-IsTrueEntry ss j m cache h

  cache_current-IsTrueEntry :
      (i m : ℕ) (c : Option (Outcome D)) (cache : List (ℕ × D))
      → All IsTrueEntry cache
      → All IsTrueEntry (cache_current answer i m c cache)
  cache_current-IsTrueEntry i m none cache h = store-IsTrueEntry i m (answer i m) cache refl h
  cache_current-IsTrueEntry i m (some o) cache h = h

  pub cache_reply-IsTrueEntry :
      (r : Run D) (j m : ℕ) (cache : List (ℕ × D))
      → All IsTrueEntry cache
      → All IsTrueEntry (cache_reply answer r j m cache)
  unfolding cache_reply
  cache_reply-IsTrueEntry r zero m cache h = cache_current-IsTrueEntry r.row m r.current cache h
  cache_reply-IsTrueEntry r (suc j) m cache h = cache_slot-IsTrueEntry r.candidates j m cache h
