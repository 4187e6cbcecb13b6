-- ===== src/Js/Split.antt =====
-- `split` and `filter(Boolean)` on texts.
use Prim.Native.String.{String, [], ◌∷◌}
use voxeltoad.Common.{ℕ, Char, code, Bool, List, [], ◌∷◌, ◌==◌, if◌then◌else◌}

-- A piece is begun by a separator, or goes on with a character.
abbrev pub push_char : Char → List String → List String
push_char c [] = (c ∷ []) ∷ []
push_char c (piece ∷ pieces) = (c ∷ piece) ∷ pieces

-- The pieces between the characters that pass a test.
unfoldable pub split_by : (Char → Bool) → String → List String
split_by test [] = [] ∷ []
split_by test (c ∷ s) =
    let pieces = split_by test s in if test c then [] ∷ pieces else push_char c pieces

-- `s.split(sep)` for a separator of one character
abbrev pub split_at_code : ℕ → String → List String
split_at_code sep = split_by (λ c. code c == sep)

-- `pieces.filter(Boolean)`
unfoldable pub nonempty : List String → List String
nonempty [] = []
nonempty ([] ∷ pieces) = nonempty pieces
nonempty ((c ∷ s) ∷ pieces) = (c ∷ s) ∷ nonempty pieces
