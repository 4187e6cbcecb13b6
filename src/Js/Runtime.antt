-- ===== src/Js/Runtime.antt =====
-- What the source calls of the JavaScript runtime, with the documented facts that proofs use.
use Prim.Native.String.{String, [], ◌∷◌}
use voxeltoad.Common.{ℕ, ◌+◌, ◌*◌, ◌-◌, ◌≤◌, ◌≡◌, ◌≢◌, Char, code, Bool, true, Option, ◌&&◌, leb}
use voxeltoad.Common.Int.{pos}
use voxeltoad.Js.Number.{Number, int, max_safe}
use voxeltoad.Js.Json.{Json}

unfoldable pub is_digit : Char → Bool
is_digit c = leb b'0' (code c) && leb (code c) b'9'

abbrev pub AllDigits : String → Type 0
AllDigits [] = Unit
AllDigits (c ∷ s) = (is_digit c ≡ true) × AllDigits s

-- The number that decimal digits spell behind `n`.
abbrev pub value : ℕ → String → ℕ
value n [] = n
value n (c ∷ s) = value (n * 10 + (code c - b'0')) s

pub record Runtime : Type 0 where
  -- `Number(text)`
  pub number : String → Number
  -- x * y
  pub times : Number → Number → Number
  -- `JSON.parse(text)`; `none` is a SyntaxError
  pub json_parse : String → Option Json
  -- `JSON.stringify(v)` and `JSON.stringify(v, null, 2)`
  pub stringify : Json → String
  pub stringify_indent : Json → String
  -- `String(x)` of a number, and of an array or an object
  pub number_text : Number → String
  pub object_text : Json → String

-- Decimal digits that spell an integer which a double holds exactly are read exactly.
pub record NumberLaws (rt : Runtime) : Type 0 where
  pub exact :
      (s : String)
      → s ≢ []
      → AllDigits s
      → value 0 s ≤ max_safe
      → rt.number s ≡ int (pos (value 0 s))
