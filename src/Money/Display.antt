-- ===== src/Money/Display.antt =====
-- What `microToDisplay` prints: the amount in hundredths, rounded half up.
use Prim.Native.String.{String, [], ◌∷◌}
use voxeltoad.Common.{
  ℕ, ◌+◌, ◌/◌, ◌%◌, ◌≤◌, ◌≡◌, refl, not, ◌&&◌, ◌||◌, arith, ◌==◌, if◌then◌else◌, ◌<>◌,
}
use voxeltoad.Common.Int.{ℤ}
use voxeltoad.Js.Number.{magnitude, max_safe}
use voxeltoad.Js.Decimal.{decimal, digit, pad_two-decimal}
use voxeltoad.Money.{rounded_parts, micro_to_display, is_negative}

-- The amount in hundredths of a unit, rounded to the nearest, a half away from zero.
abbrev pub cents : ℤ → ℕ
cents micro = (magnitude micro + 5000) / 10000

abbrev pub two_digits : ℕ → String
two_digits n = digit (n / 10) ∷ digit (n % 10) ∷ []

abbrev pub sign_of : ℤ → String
sign_of micro = if is_negative micro && not (cents micro == 0) then "-" else ""

rounded_parts_lem :
    (abs : ℕ) → rounded_parts abs ≡ ((abs + 5000) / 10000 / 100, (abs + 5000) / 10000 % 100)
unfolding rounded_parts
rounded_parts_lem abs = ground arith

same_test : (c : ℕ) → (not (c / 100 == 0) || not (c % 100 == 0)) ≡ not (c == 0)
same_test c = ground arith

-- The text that the integers give.
pub micro_to_display_lem :
    (micro : ℤ)
    → micro_to_display micro
      ≡ sign_of micro <> decimal (cents micro / 100) <> "." <> two_digits (cents micro % 100)
unfolding micro_to_display
micro_to_display_lem micro =
    rw
      (
        rounded_parts_lem (magnitude micro),
        same_test (cents micro),
        pad_two-decimal (cents micro % 100) (omega arith),
      )
      refl

-- For an amount that is a safe integer, where the arithmetic of doubles agrees with that of integers:
-- the printed text is the sign, the whole units, a point and two decimals of the amount rounded half
-- up to hundredths; the sign is there exactly for a negative amount that does not round to zero.
pub micro_to_display-cents :
    (micro : ℤ)
    → magnitude micro ≤ max_safe
    → micro_to_display micro
      ≡ sign_of micro <> decimal (cents micro / 100) <> "." <> two_digits (cents micro % 100)
micro_to_display-cents micro safe = micro_to_display_lem micro
