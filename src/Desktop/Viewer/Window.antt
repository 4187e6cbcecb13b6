-- ===== src/Desktop/Viewer/Window.antt =====
-- `prevIds`: which rows are scored as the baseline.
use mathlib.Core.List.{reverse, reverse-cons, reverse-append}
use voxeltoad.Common.{
  ℕ, zero, suc, ◌-◌, ◌≤◌, ◌≡◌, ◌≢◌, refl, ap, sym, ◌∙◌, inl, inr, Bool-cases, some, List, [], ◌∷◌,
  ◌++◌, map, arith, length, length-append, length-map, length-drop, take, drop, take-append-drop,
  ltb, ◌==◌,
}
use voxeltoad.Trace.Prefix.{All}
use voxeltoad.Desktop.Viewer.Page.{TraceSummary, find_index, rows_above, prev_ids}

module _ {ℓ} {A : Type ℓ} where
  length-reverse : (xs : List A) → length (reverse xs) ≡ length xs
  length-reverse [] = refl
  length-reverse (x ∷ xs) =
      rw reverse-cons (omega (arith, length-append (reverse xs) (x ∷ []), length-reverse xs))

  take-append : (xs ys : List A) (n : ℕ) → n ≡ length xs → take n (xs ++ ys) ≡ xs
  take-append [] [] zero h = refl
  take-append [] (y ∷ ys) zero h = refl
  take-append [] ys (suc n) h = absurd (omega arith)
  take-append (x ∷ xs) ys zero h = absurd (omega arith)
  take-append (x ∷ xs) ys (suc n) h = ap (λ l. x ∷ l) (take-append xs ys n (omega arith))

  take-all : (xs : List A) (n : ℕ) → length xs ≤ n → take n xs ≡ xs
  take-all [] zero h = refl
  take-all [] (suc n) h = refl
  take-all (x ∷ xs) zero h = absurd (omega arith)
  take-all (x ∷ xs) (suc n) h = ap (λ l. x ∷ l) (take-all xs n (omega arith))

  drop-append : (xs ys : List A) (n : ℕ) → n ≤ length xs → drop n (xs ++ ys) ≡ drop n xs ++ ys
  drop-append xs ys zero h = refl
  drop-append [] ys (suc n) h = absurd (omega arith)
  drop-append (x ∷ xs) ys (suc n) h = drop-append xs ys n (omega arith)

  -- The last `n` elements, backwards, are the first `n` of the list backwards.
  reverse-drop : (xs : List A) (n : ℕ) → reverse (drop (length xs - n) xs) ≡ take n (reverse xs)
  reverse-drop xs n = elim (Bool-cases (ltb n (length xs))) [
    | inl more ↦
        let k = length xs - n in
        let split : reverse xs ≡ reverse (drop k xs) ++ reverse (take k xs) =
          ap reverse (sym (take-append-drop k xs)) ∙ reverse-append (take k xs) (drop k xs) in
        let long : n ≡ length (reverse (drop k xs)) =
          ground (arith, length-reverse (drop k xs), length-drop k xs) in
        sym (ap (take n) split ∙ take-append (reverse (drop k xs)) (reverse (take k xs)) n long)
    | inr less ↦
        let none_left : length xs - n ≡ 0 = ground arith in
        rw none_left (sym (take-all (reverse xs) n (ground (arith, length-reverse xs))))
  ]

find_index-append :
    (before after : List TraceSummary) (t : TraceSummary)
    → All (λ (b : TraceSummary). b.id ≢ t.id) before
    → find_index t.id (before ++ t ∷ after) ≡ some (length before)
unfolding find_index
find_index-append [] after t h = ground arith
find_index-append (b ∷ before) after t (hb, h) = elim (Bool-cases (b.id == t.id)) [
  | inl same ↦ absurd (hb (ground arith))
  | inr other ↦ rw (other, find_index-append before after t h) refl
]

map-drop {ℓ κ} :
    {A : Type ℓ} {B : Type κ} (f : A → B) (n : ℕ) (xs : List A)
    → map f (drop n xs) ≡ drop n (map f xs)
map-drop f zero xs = refl
map-drop f (suc n) [] = refl
map-drop f (suc n) (x ∷ xs) = map-drop f n xs

rows_above-append :
    (before after : List TraceSummary) (n : ℕ)
    → n ≡ length before
    → rows_above (before ++ after) (some n)
      ≡ take 10 (reverse (map (λ (t : TraceSummary). t.id) before))
rows_above-append [] after zero h = refl
rows_above-append (b ∷ before) after zero h = absurd (omega arith)
rows_above-append before after (suc n) h =
    let ids = map (λ (t : TraceSummary). t.id) before in
    let start = suc n - 10 in
    let same : length ids ≡ suc n = omega (arith, length-map before (λ (t : TraceSummary). t.id)) in
    let window : take (suc n - start) (drop start (before ++ after)) ≡ drop start before =
      ap (take (suc n - start)) (drop-append before after start (omega arith))
      ∙ take-append (drop start before) after (suc n - start)
          (omega (arith, length-drop start before)) in
    ap (λ rows. reverse (map (λ (t : TraceSummary). t.id) rows)) window
    ∙ (ap reverse (map-drop (λ (t : TraceSummary). t.id) start before)
        ∙ (ap (λ k. reverse (drop (k - 10) ids)) (sym same) ∙ reverse-drop ids 10))

-- For a row that occurs once among those down to it, `prevIds` holds the ids of the ten rows right
-- above it, or of all if there are fewer, the nearest first.
pub prev_ids-nearest :
    (before after : List TraceSummary) (t : TraceSummary)
    → All (λ (b : TraceSummary). b.id ≢ t.id) before
    → prev_ids (before ++ t ∷ after) (some t.id)
      ≡ take 10 (reverse (map (λ (b : TraceSummary). b.id) before))
unfolding prev_ids
prev_ids-nearest before after t h =
    rw (find_index-append before after t h)
      (rows_above-append before (t ∷ after) (length before) refl)
