-- ===== src/Desktop/Models/Lists.antt =====
-- The texts of `capabilities` and `tags`: joined for the form and split for the API.
use Prim.Native.String.{String, [], ◌∷◌}
use Prim.Native.Char.{Char}
use text.Mathlib.TextLemmas.{nil-append, cons-append, append-nil}
use voxeltoad.Common.{
  ◌≡◌, refl, ap, sym, ◌∙◌, true, false, code, List, [], ◌∷◌, map, trim, trim_start, trim_end,
  is_space, ◌<>◌, ◌==◌, Lacks, arith,
}
use voxeltoad.Js.Split.{split_by, split_at_code, push_char, nonempty}
use voxeltoad.Trace.Prefix.{All}
use voxeltoad.Desktop.Providers.Fields.{is_nonempty}
use voxeltoad.Desktop.Models.Fields.{joined_behind, join_commas}
use voxeltoad.Desktop.Models.Submit.{split_commas}

abbrev Begins : String → Type 0
Begins [] = ⊥
Begins (c ∷ s) = is_space c ≡ false

-- An item of a list: not empty, with no comma in it and no space at its ends.
pub record IsItem (s : String) : Type 0 where
  pub no_ends : trim s ≡ s
  pub begins : Begins s
  pub no_comma : Lacks b',' s

abbrev prefix_first : String → List String → List String
prefix_first p [] = p ∷ []
prefix_first p (q ∷ qs) = (p <> q) ∷ qs

push_char-prefix_first :
    (c : Char) (p : String) (l : List String)
    → push_char c (prefix_first p l) ≡ prefix_first (c ∷ p) l
push_char-prefix_first c p [] = refl
push_char-prefix_first c p (q ∷ qs) = ap (λ t. t ∷ qs) (sym (cons-append c p q))

pub singleton-append : (c : Char) (t : String) → (c ∷ []) <> t ≡ c ∷ t
singleton-append c t = cons-append c [] t ∙ ap (λ (t : String). c ∷ t) (nil-append t)

push_char-one : (c : Char) (l : List String) → push_char c l ≡ prefix_first (c ∷ []) l
push_char-one c [] = refl
push_char-one c (q ∷ qs) = ap (λ t. t ∷ qs) (sym (singleton-append c q))

plain_char : (c : Char) → (code c ≡ b',' → ⊥) → (code c == b',') ≡ false
plain_char c h = ground (arith, h)

-- A text with no comma, not empty, goes in front of the first piece.
split-prefix :
    (c : Char) (p s : String)
    → Lacks b',' (c ∷ p)
    → split_at_code b',' ((c ∷ p) <> s) ≡ prefix_first (c ∷ p) (split_at_code b',' s)
unfolding split_by
split-prefix c [] s (hc, h) =
    rw (cons-append c [] s, nil-append s, plain_char c hc) (push_char-one c (split_at_code b',' s))
split-prefix c (d ∷ p) s (hc, h) =
    rw (cons-append c (d ∷ p) s, plain_char c hc, split-prefix d p s h)
      (push_char-prefix_first c (d ∷ p) (split_at_code b',' s))

-- An item and what follows a comma.
split-item :
    (x s : String) (pieces : List String)
    → IsItem x
    → split_at_code b',' s ≡ [] ∷ pieces
    → split_at_code b',' (x <> s) ≡ x ∷ pieces
split-item [] s pieces h e = elim h.begins [ ]
split-item (c ∷ x) s pieces h e =
    split-prefix c x s h.no_comma
    ∙ (ap (prefix_first (c ∷ x)) e ∙ ap (λ t. t ∷ pieces) (append-nil (c ∷ x)))

abbrev spaced : String → String
spaced x = " " <> x

split-joined_behind :
    (xs : List String) → All IsItem xs → split_at_code b',' (joined_behind xs) ≡ [] ∷ map spaced xs
unfolding split_by
split-joined_behind [] h = refl
split-joined_behind (x ∷ xs) (hx, h) =
    let behind = x <> joined_behind xs in
    let rest : split_at_code b',' behind ≡ x ∷ map spaced xs =
      split-item x (joined_behind xs) (map spaced xs) hx (split-joined_behind xs h) in
    let blank : Char = " " in
    let shape : ", " <> behind ≡ "," ∷ blank ∷ behind =
      cons-append "," (blank ∷ []) behind
      ∙ ap (λ (t : String). "," ∷ t) (singleton-append blank behind) in
    ap (split_at_code b',') shape
    ∙ (ap (λ l. [] ∷ push_char blank l) rest
        ∙ ap (λ t. [] ∷ t ∷ map spaced xs) (sym (singleton-append blank x)))

trim-spaced : (x : String) → trim x ≡ x → trim (spaced x) ≡ x
unfolding trim trim_start is_space
trim-spaced x h = ap trim (singleton-append " " x) ∙ h

trimmed-items : (xs : List String) → All IsItem xs → nonempty (map trim (map spaced xs)) ≡ xs
unfolding nonempty
trimmed-items [] h = refl
trimmed-items ([] ∷ xs) (hx, h) = elim hx.begins [ ]
trimmed-items ((c ∷ x) ∷ xs) (hx, h) =
    rw (trim-spaced (c ∷ x) hx.no_ends) (ap (λ l. (c ∷ x) ∷ l) (trimmed-items xs h))

-- Joining items with commas and splitting the text gives the items back.
pub split_commas-join_commas :
    (x : String) (xs : List String)
    → IsItem x
    → All IsItem xs
    → split_commas (join_commas (x ∷ xs)) ≡ x ∷ xs
unfolding split_commas nonempty
split_commas-join_commas [] xs hx h = elim hx.begins [ ]
split_commas-join_commas (c ∷ x) xs hx h =
    rw (split-item (c ∷ x) (joined_behind xs) (map spaced xs) hx (split-joined_behind xs h))
      (rw hx.no_ends (ap (λ l. (c ∷ x) ∷ l) (trimmed-items xs h)))

-- The text of a list that is not empty is not blank.
pub join_commas-filled :
    (x : String) (xs : List String) → IsItem x → is_nonempty (trim (join_commas (x ∷ xs))) ≡ true
unfolding trim trim_start trim_end
join_commas-filled [] xs hx = elim hx.begins [ ]
join_commas-filled (c ∷ x) xs hx =
    rw (cons-append c x (joined_behind xs), hx.begins, hx.begins) refl
