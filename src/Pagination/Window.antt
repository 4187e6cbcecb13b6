-- ===== src/Pagination/Window.antt =====
-- The page list runs from the first page to the last, and a gap stands exactly for skipped pages.
use voxeltoad.Common.{
  ℕ, zero, suc, ◌+◌, ◌-◌, ◌≤◌, ◌<◌, ◌≡◌, refl, ap, Bool, true, false, List, [], ◌∷◌, ◌++◌, arith,
  leb, ltb, ◌==◌, ◌||◌, length, length-append, Bool-cases, inl, inr, ◌⊎◌, ltb→lt,
}
use mathlib.Core.List.{append-nil}
use mathlib.Core.Path.{subst}
use voxeltoad.Pagination.{Slot, page, gap, pages_from, gap_if, build_page_window}

-- Behind page `p` the list goes on to page `total`: each element is the next page, or a gap
-- followed by a page further on.
abbrev pub GoesTo : ℕ → ℕ → List Slot → Type 0
GoesTo total p [] = p ≡ total
GoesTo total p (page q ∷ r) = (q ≡ p + 1) × GoesTo total q r
GoesTo total p (gap ∷ []) = ⊥
GoesTo total p (gap ∷ gap ∷ r) = ⊥
GoesTo total p (gap ∷ page q ∷ r) = (p + 1 < q) × GoesTo total q r

-- The list begins with page 1 and goes to page `total`.
abbrev pub Spans : ℕ → List Slot → Type 0
Spans total [] = ⊥
Spans total (gap ∷ r) = ⊥
Spans total (page p ∷ r) = (p ≡ 1) × GoesTo total 1 r

-- Whether a page is in the list.
abbrev pub shows : ℕ → List Slot → Bool
shows p [] = false
shows p (gap ∷ r) = shows p r
shows p (page q ∷ r) = q == p || shows p r

GoesTo-pages_from :
    (total p count : ℕ) (r : List Slot)
    → GoesTo total (p + count) r
    → GoesTo total p (pages_from (p + 1) count ++ r)
unfolding pages_from
GoesTo-pages_from total p zero r h = subst (λ k. GoesTo total k r) (omega arith) h
GoesTo-pages_from total p (suc count) r h =
    (refl, GoesTo-pages_from total (p + 1) count r (subst (λ k. GoesTo total k r) (omega arith) h))

shows-pages_from :
    (p start count : ℕ) (r : List Slot)
    → start ≤ p
    → p < start + count
    → shows p (pages_from start count ++ r) ≡ true
unfolding pages_from
shows-pages_from p start zero r h k = absurd (omega arith)
shows-pages_from p start (suc count) r h k = ground (arith, shows-pages_from p (start + 1) count r)

length-pages_from : (start count : ℕ) → length (pages_from start count) ≡ count
unfolding pages_from
length-pages_from start zero = refl
length-pages_from start (suc count) = ap suc (length-pages_from (start + 1) count)

-- From page 1, over a gap if `start` is not the next page, through `start` … `end`.
GoesTo-middle :
    (total start end : ℕ) (r : List Slot)
    → 2 ≤ start
    → start ≤ end
    → GoesTo total end r
    → GoesTo total 1 (gap_if (ltb 2 start) ++ (pages_from start (end + 1 - start) ++ r))
GoesTo-middle total start end r low order h =
    let count : end + 1 - start ≡ suc (end - start) = omega arith in
    let later : GoesTo total start (pages_from (start + 1) (end - start) ++ r) =
      GoesTo-pages_from total start (end - start) r
        (subst (λ k. GoesTo total k r) (omega arith) h) in
    rw count (
      unfold pages_from in
      elim (Bool-cases (ltb 2 start)) [
        | inl far ↦ rw far (ltb→lt 2 start far, later)
        | inr near ↦ rw near (ground arith, later)
      ])

GoesTo-last :
    (total end : ℕ)
    → end < total
    → GoesTo total end (gap_if (ltb end (total - 1)) ++ page total ∷ [])
GoesTo-last total end h = elim (Bool-cases (ltb end (total - 1))) [
  | inl far ↦ rw far (ground arith, refl)
  | inr near ↦ rw near (ground arith, refl)
]

Spans-pages_from : (total : ℕ) → 1 ≤ total → Spans total (pages_from 1 total ++ [])
Spans-pages_from zero h = absurd (omega arith)
Spans-pages_from (suc n) h =
    unfold pages_from in (refl, GoesTo-pages_from (suc n) 1 n [] (omega arith))

-- The page list begins with page 1, ends with the last page, and each element is the next page or a
-- gap that skips at least one page, so the pages rise and lie between 1 and the last page.
pub build_page_window-Spans :
    (current total : ℕ)
    → 1 ≤ current
    → current ≤ total
    → Spans total (build_page_window current total)
unfolding build_page_window
build_page_window-Spans current total low high = elim (Bool-cases (leb total 7)) [
  | inl few ↦ rw few (subst (Spans total) (append-nil _) (Spans-pages_from total (omega arith)))
  | inr many ↦ rw many (
    refl,
    GoesTo-middle total _ _ _ (omega arith) (ground arith) (GoesTo-last total _ (ground arith)),
  )
]

shows-append_right : (p : ℕ) (xs ys : List Slot) → shows p ys ≡ true → shows p (xs ++ ys) ≡ true
shows-append_right p [] ys h = h
shows-append_right p (gap ∷ xs) ys h = shows-append_right p xs ys h
shows-append_right p (page q ∷ xs) ys h = ground (arith, shows-append_right p xs ys h)

length-gap_if : (b : Bool) → length (gap_if b) ≤ 1
length-gap_if true = omega arith
length-gap_if false = omega arith

-- The first page, the middle run or the last page is the one that is looked for.
shows_later :
    (p total start end : ℕ) (b c : Bool)
    → start ≤ end + 1
    → (p ≡ 1) ⊎ ((start ≤ p) × (p ≤ end)) ⊎ (p ≡ total)
    → shows p (
        page 1
        ∷ (gap_if b ++ (pages_from start (end + 1 - start) ++ (gap_if c ++ page total ∷ []))))
      ≡ true
shows_later p total start end b c order (inl first) = rw first refl
shows_later p total start end b c order (inr (inl (low, high))) =
    let middle =
      shows-append_right p (gap_if b)
        (pages_from start (end + 1 - start) ++ (gap_if c ++ page total ∷ []))
        (shows-pages_from p start (end + 1 - start) (gap_if c ++ page total ∷ []) low
          (omega arith)) in
    ground (arith, middle)
shows_later p total start end b c order (inr (inr last)) =
    let at_end : shows p (page total ∷ []) ≡ true = ground arith in
    let found =
      shows-append_right p (gap_if b)
        (pages_from start (end + 1 - start) ++ (gap_if c ++ page total ∷ []))
        (shows-append_right p (pages_from start (end + 1 - start)) (gap_if c ++ page total ∷ [])
          (shows-append_right p (gap_if c) (page total ∷ []) at_end)) in
    ground (arith, found)

-- The current page is in the page list.
pub build_page_window-shows :
    (current total : ℕ)
    → 1 ≤ current
    → current ≤ total
    → shows current (build_page_window current total) ≡ true
unfolding build_page_window
build_page_window-shows current total low high = elim (Bool-cases (leb total 7)) [
  | inl few ↦ rw few (
      subst (λ l. shows current l ≡ true) (append-nil (pages_from 1 total))
        (shows-pages_from current 1 total [] low (omega arith)))
  | inr many ↦ rw many (shows_later current total _ _ _ _ (ground arith) (ground arith))
]

-- The page list has at most nine elements, however many pages there are.
pub length-build_page_window : (current total : ℕ) → length (build_page_window current total) ≤ 9
unfolding build_page_window
length-build_page_window current total = elim (Bool-cases (leb total 7)) [
  | inl few ↦ rw (few, length-pages_from) (ground arith)
  | inr many ↦ rw many (omega (arith, length-append {0}, length-pages_from, length-gap_if))
]
