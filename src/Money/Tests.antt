-- ===== src/Money/Tests.antt =====
-- Runs of the money functions, and the theorems at concrete amounts.
use voxeltoad.Common.{
  ◌≡◌, refl, true, some, none, arith, ◌<>◌, ◌↔◌, trim, trim_start, trim_end, is_space,
}
use voxeltoad.Common.Int.{pos, negsuc}
use voxeltoad.Js.Number.{int, negate}
use voxeltoad.Js.Exception.{returned}
use voxeltoad.Js.Runtime.{is_digit}
use voxeltoad.Js.Decimal.{decimal, pad_two}
use voxeltoad.Js.Samples.{plain_runtime, plain_runtime_laws}
use voxeltoad.Money.{
  micro_to_display, display_to_micro, match_decimal, match_unsigned, match_fraction, span_digits,
  take_chars,
}
use voxeltoad.Money.Grammar.{IsDecimal, match_decimal_iff}
use voxeltoad.Money.Display.{sign_of, two_digits, micro_to_display-cents}
use voxeltoad.Money.RoundTrip.{
  rounded, display_to_micro-micro_to_display, display_to_micro-IsDecimal,
}

displays :
    (micro_to_display (pos 5000) ≡ "0.01")
    × (micro_to_display (pos 999999) ≡ "1.00")
    × (micro_to_display (negsuc 29999) ≡ "-0.03")
    × (micro_to_display (negsuc 0) ≡ "0.00")
unfolding micro_to_display decimal pad_two
displays = (refl, refl, refl, refl)

amounts :
    (match_decimal "-12.5" ≡ some (true, "12", "5"))
    × (match_decimal "12." ≡ none)
    × (match_decimal "" ≡ none)
unfolding match_decimal match_unsigned match_fraction span_digits is_digit
amounts = (refl, refl, refl)

micro_to_display-cents_example :
    micro_to_display (pos 12345678) ≡ sign_of (pos 12345678) <> decimal 12 <> "." <> two_digits 35
micro_to_display-cents_example = micro_to_display-cents (pos 12345678) (omega arith)

match_decimal_iff_example :
    (match_decimal "1.5" ≡ some (true, "1", "5")) ↔ IsDecimal true "1" "5" "1.5"
match_decimal_iff_example = match_decimal_iff true "1" "5" "1.5"

read_back_example :
    display_to_micro plain_runtime (micro_to_display (negsuc 12345677))
    ≡ returned (int (rounded (negsuc 12345677)))
read_back_example =
    display_to_micro-micro_to_display plain_runtime plain_runtime_laws (negsuc 12345677)
      (omega arith)

negative_half : IsDecimal true "12" "5" (trim " -12.5")
unfolding trim is_space trim_start trim_end is_digit
negative_half = record {
  some_digits = cc;
  int_digits = (refl, (refl, tt));
  frac_digits = (refl, tt);
  spelled = refl;
}

read_amount_example :
    display_to_micro plain_runtime " -12.5" ≡ returned (negate (int (pos 12500000)))
unfolding take_chars
read_amount_example =
    display_to_micro-IsDecimal plain_runtime plain_runtime_laws " -12.5" true "12" "5" negative_half
      (omega arith)
