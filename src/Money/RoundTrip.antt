-- ===== src/Money/RoundTrip.antt =====
-- Reading an amount, and reading back what was printed.
use Prim.Native.String.{String, [], ◌∷◌}
use text.Mathlib.TextLemmas.{nil-append, cons-append, append_assoc}
use text.Mathlib.TextLemmas
use voxeltoad.Common.{
  ℕ, suc, zero, ◌+◌, ◌-◌, ◌*◌, ◌/◌, ◌%◌, ◌≤◌, ◌<◌, ◌≡◌, ◌≢◌, refl, ap, ◌∙◌, Bool, true, false, not,
  ◌&&◌, code, Char, arith, ◌==◌, if◌then◌else◌, ◌<>◌, trim, is_space, NoSpace, NoSpace-append,
  trim-NoSpace,
}
use voxeltoad.Common.Int.{ℤ, pos}
use voxeltoad.Js.Number.{int, negate, negate_ℤ, max_safe}
use voxeltoad.Js.Exception.{returned}
use voxeltoad.Js.Runtime.{Runtime, NumberLaws, is_digit, AllDigits, value}
use voxeltoad.Js.Decimal.{
  decimal, digit-is_digit, value-decimal, decimal-AllDigits, decimal-ne-nil, code-digit,
}
use voxeltoad.Money.{micro_to_display, display_to_micro, take_chars, is_negative}
use voxeltoad.Money.Grammar.{IsDecimal, match_decimal_complete, minus, fraction}
use voxeltoad.Money.Display.{cents, two_digits, micro_to_display_lem}

value-append : (n : ℕ) (s t : String) → value n (s <> t) ≡ value (value n s) t
value-append n [] t = rw nil-append refl
value-append n (c ∷ s) t = rw cons-append (value-append (n * 10 + (code c - b'0')) s t)

AllDigits-append : (s t : String) → AllDigits s → AllDigits t → AllDigits (s <> t)
AllDigits-append [] t h k = rw nil-append k
AllDigits-append (c ∷ s) t h k = rw cons-append (h.0, AllDigits-append s t h.1 k)

-- The six digits of the fraction: cut, or filled up with zeros.
abbrev pub six_digits : String → String
six_digits f = take_chars 6 (f <> "000000")

take_chars-AllDigits : (n : ℕ) (s : String) → AllDigits s → AllDigits (take_chars n s)
unfolding take_chars
take_chars-AllDigits zero s h = tt
take_chars-AllDigits (suc n) [] h = tt
take_chars-AllDigits (suc n) (c ∷ s) h = (h.0, take_chars-AllDigits n s h.1)

six_digits-AllDigits : (f : String) → AllDigits f → AllDigits (six_digits f)
six_digits-AllDigits f h = take_chars-AllDigits 6 _ (
    AllDigits-append f "000000" h
      (unfold is_digit in (refl, (refl, (refl, (refl, (refl, (refl, tt))))))))

append-ne-nil : (s t : String) → s ≢ [] → (s <> t) ≢ []
append-ne-nil [] t h = absurd (h refl)
append-ne-nil (c ∷ s) t h = rw cons-append TextLemmas.cons≢nil

-- The integer that an accepted amount stands for, in micro-units.
abbrev pub micro_value : String → String → ℕ
micro_value i f = value (value 0 i) (six_digits f)

module _ (rt : Runtime) (laws : NumberLaws rt) where
  number_micro_value :
      (i f : String)
      → i ≢ []
      → AllDigits i
      → AllDigits f
      → micro_value i f ≤ max_safe
      → rt.number (i <> six_digits f) ≡ int (pos (micro_value i f))
  number_micro_value i f some_digits hi hf fits =
      laws.exact (i <> six_digits f) (append-ne-nil i _ some_digits)
        (AllDigits-append i _ hi (six_digits-AllDigits f hf)) (rw value-append fits)
      ∙ ap (λ n. int (pos n)) (value-append 0 i (six_digits f))

  -- An amount of the grammar is read as its digits say: the integer part and the first six digits
  -- of the fraction, filled up with zeros, make the number of micro-units, negated behind a minus
  -- sign; as long as that number is one that a double holds exactly.
  pub display_to_micro-IsDecimal :
      (input : String) (sign : Bool) (i f : String)
      → IsDecimal sign i f (trim input)
      → micro_value i f ≤ max_safe
      → display_to_micro rt input
        ≡ returned
            (if sign then negate (int (pos (micro_value i f))) else int (pos (micro_value i f)))
  unfolding display_to_micro
  display_to_micro-IsDecimal input sign i f d fits =
      let read = number_micro_value i f d.some_digits d.int_digits d.frac_digits fits in
      rw (match_decimal_complete sign i f (trim input) d, display_to_micro) (rw read refl)

digit-no_space : (c : Char) → is_digit c ≡ true → is_space c ≡ false
unfolding is_digit is_space
digit-no_space c h = ground arith

pub AllDigits-NoSpace : (s : String) → AllDigits s → NoSpace s
AllDigits-NoSpace [] h = tt
AllDigits-NoSpace (c ∷ s) h = (digit-no_space c h.0, AllDigits-NoSpace s h.1)

two_digits-AllDigits : (n : ℕ) → AllDigits (two_digits n)
two_digits-AllDigits n = (digit-is_digit (n / 10), (digit-is_digit (n % 10), tt))

-- Whether `microToDisplay` prints a sign.
abbrev pub shows_sign : ℤ → Bool
shows_sign micro = is_negative micro && not (cents micro == 0)

minus-NoSpace : (b : Bool) → NoSpace (minus b)
unfolding is_space
minus-NoSpace true = (refl, tt)
minus-NoSpace false = tt

printed_lem :
    (micro : ℤ)
    → micro_to_display micro
      ≡ minus (shows_sign micro)
        <> (decimal (cents micro / 100) <> fraction (two_digits (cents micro % 100)))
printed_lem micro =
    micro_to_display_lem micro
    ∙ append_assoc _ "." _
    ∙ append_assoc _ (decimal (cents micro / 100)) _

pub printed-NoSpace : (micro : ℤ) → NoSpace (micro_to_display micro)
printed-NoSpace micro = rw printed_lem (
    NoSpace-append _ _ (minus-NoSpace (shows_sign micro)) (
      NoSpace-append _ _ (AllDigits-NoSpace _ (decimal-AllDigits _)) (
        NoSpace-append "." _ (unfold is_space in (refl, tt)) (
          AllDigits-NoSpace (two_digits (cents micro % 100))
            (two_digits-AllDigits (cents micro % 100))))))

-- The printed text is an amount of the grammar that `displayToMicro` reads.
micro_to_display-IsDecimal :
    (micro : ℤ)
    → IsDecimal
        (shows_sign micro)
        (decimal (cents micro / 100))
        (two_digits (cents micro % 100))
        (trim (micro_to_display micro))
micro_to_display-IsDecimal micro = record {
  some_digits = decimal-ne-nil _;
  int_digits = decimal-AllDigits _;
  frac_digits = two_digits-AllDigits _;
  spelled = trim-NoSpace _ (printed-NoSpace micro) ∙ printed_lem micro;
}

micro_value-printed :
    (w n : ℕ) → n < 100 → micro_value (decimal w) (two_digits n) ≡ (w * 100 + n) * 10000
unfolding take_chars
micro_value-printed w n h =
    rw (cons-append, cons-append)
      (omega (
        arith,
        value-decimal w,
        code-digit (n / 10) (omega arith),
        code-digit (n % 10) (omega arith),
      ))

-- The amount rounded half up to hundredths, in micro-units.
abbrev pub rounded : ℤ → ℤ
rounded micro =
    if shows_sign micro then negate_ℤ (pos (cents micro * 10000)) else pos (cents micro * 10000)

signed_number :
    (b : Bool) (v c : ℕ)
    → v ≡ c
    → (if b then negate (int (pos v)) else int (pos v))
      ≡ int (if b then negate_ℤ (pos c) else pos c)
unfolding negate
signed_number true v c e = ap (λ n. int (negate_ℤ (pos n))) e
signed_number false v c e = ap (λ n. int (pos n)) e

-- Reading back what was printed gives the amount rounded half up to hundredths, for every amount
-- whose rounded value a double holds exactly.
pub display_to_micro-micro_to_display :
    (rt : Runtime) (laws : NumberLaws rt) (micro : ℤ)
    → cents micro * 10000 ≤ max_safe
    → display_to_micro rt (micro_to_display micro) ≡ returned (int (rounded micro))
display_to_micro-micro_to_display rt laws micro fits =
    let c = cents micro in
    let same : micro_value (decimal (c / 100)) (two_digits (c % 100)) ≡ c * 10000 =
      micro_value-printed (c / 100) (c % 100) (omega arith) ∙ ap (λ k. k * 10000) (omega arith) in
    let read =
      display_to_micro-IsDecimal rt laws (micro_to_display micro) (shows_sign micro) _ _
        (micro_to_display-IsDecimal micro) (rw same fits) in
    read ∙ ap returned (signed_number (shows_sign micro) _ _ same)
