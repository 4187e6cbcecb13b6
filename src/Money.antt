-- ===== src/Money.antt =====
-- web/src/lib/money.ts: amounts are integers of micro-units, a million to one unit of currency.
-- `micro_to_display` computes on integers alone, so the model is that of the source for safe integers,
-- up to 2^53 - 1, where doubles are exact; beyond them it says nothing of the code. The runtime's
-- `Number(text)` is a parameter.
pub mod Grammar
pub mod Display
pub mod RoundTrip
mod Tests
use Prim.Native.String
use Prim.Native.String.{String, [], ◌∷◌}
use voxeltoad.Common.{
  ℕ, zero, suc, ◌+◌, ◌-◌, ◌*◌, ◌/◌, ◌%◌, Bool, true, false, not, ◌&&◌, ◌||◌, Option, none, some,
  code, leb, ltb, ◌==◌, if◌then◌else◌, str_eq, ◌<>◌, trim,
}
use voxeltoad.Common.Int.{ℤ, pos, negsuc}
use voxeltoad.Js.Number.{Number, magnitude, negate}
use voxeltoad.Js.Exception.{Outcome, returned, threw, range_error}
use voxeltoad.Js.Decimal.{decimal, pad_two}
use voxeltoad.Js.Runtime.{Runtime, is_digit}

abbrev pub micro_per_unit : ℕ
micro_per_unit = 1000000

-- `SCALE`, ten to the number of decimals
abbrev pub scale : ℕ
scale = 100

abbrev is_negative : ℤ → Bool
is_negative (pos n) = false
is_negative (negsuc n) = true

-- The two `let` variables `wholeOut` and `frac` after the carry.
unfoldable pub rounded_parts : ℕ → ℕ × ℕ
rounded_parts abs =
    let whole = abs / micro_per_unit in
    let remainder = abs % micro_per_unit in
    let frac = (remainder * scale + micro_per_unit / 2) / micro_per_unit in
    if leb scale frac then (whole + 1, frac - scale) else (whole, frac)

-- `microToDisplay(micro)` for a safe integer
unfoldable pub micro_to_display : ℤ → String
unfolding rounded_parts
micro_to_display micro =
    let (whole, frac) = rounded_parts (magnitude micro) in
    let sign = if is_negative micro && (not (whole == 0) || not (frac == 0)) then "-" else "" in
    sign <> decimal whole <> "." <> pad_two (decimal frac)

-- `(\d+)` at the head of a text: the longest run of digits, and what follows.
unfoldable pub span_digits : String → String × String
span_digits [] = ([], [])
span_digits (c ∷ s) =
    let (run, rest) = span_digits s in if is_digit c then (c ∷ run, rest) else ([], c ∷ s)

abbrev is_empty : String → Bool
is_empty [] = true
is_empty (c ∷ s) = false

-- `(?:\.(\d+))?$` behind the integer part; the result is `fracPart`, "" by default
unfoldable pub match_fraction : String → Option String
match_fraction [] = some []
match_fraction (c ∷ s) =
    let (run, rest) = span_digits s in
    if code c == b'.' && not (is_empty run) && is_empty rest then some run else none

-- `(\d+)(?:\.(\d+))?$`
unfoldable pub match_unsigned : String → Option (String × String)
match_unsigned s =
    let (run, rest) = span_digits s in
    if is_empty run
    then none
    else elim (match_fraction rest) [ none ↦ none | some frac ↦ some (run, frac) ]

-- `/^(-)?(\d+)(?:\.(\d+))?$/.exec(trimmed)`: whether there is a sign, `intPart` and `fracPart`
unfoldable pub match_decimal : String → Option (Bool × String × String)
match_decimal [] = none
match_decimal (c ∷ s) =
    if code c == b'-'
    then elim (match_unsigned s) [ none ↦ none | some (i, f) ↦ some (true, i, f) ]
    else elim (match_unsigned (c ∷ s)) [ none ↦ none | some (i, f) ↦ some (false, i, f) ]

-- `s.slice(0, n)`
unfoldable pub take_chars : ℕ → String → String
take_chars zero s = []
take_chars (suc n) [] = []
take_chars (suc n) (c ∷ s) = c ∷ take_chars n s

module _ (rt : Runtime) where
  unfoldable pub display_to_micro : String → Outcome Number
  display_to_micro input = elim (match_decimal (trim input)) [
    | none ↦ threw (range_error ("invalid decimal amount: \"" <> input <> "\""))
    | some (sign, int_part, frac_part) ↦
        let frac_digits = take_chars 6 (frac_part <> "000000") in
        let value = rt.number (int_part <> frac_digits) in
        returned (if sign then negate value else value)
  ]
