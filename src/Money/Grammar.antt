-- ===== src/Money/Grammar.antt =====
-- The amounts that `displayToMicro` accepts, described without the regular expression's matcher.
use Prim.Native.String.{String, [], ◌∷◌}
use text.Mathlib.TextLemmas.{nil-append, cons-append, append-nil}
use text.Mathlib.TextLemmas
use text.Mathlib.TextEquality.{Char-path}
use voxeltoad.Common.{
  ◌≡◌, ◌≢◌, ◌↔◌, refl, sym, ap, ◌∙◌, Bool, true, false, some, code, arith, ◌==◌, if◌then◌else◌,
  ◌<>◌, Bool-cases, inl, inr, ◌⊎◌, Char,
}
use voxeltoad.Js.Runtime.{is_digit, AllDigits}
use voxeltoad.Money.{span_digits, is_empty, match_fraction, match_unsigned, match_decimal}

-- The fraction part of an amount: a point and digits, or nothing.
abbrev pub fraction : String → String
fraction [] = []
fraction (c ∷ s) = "." <> (c ∷ s)

abbrev pub minus : Bool → String
minus sign = if sign then "-" else ""

-- `s` is an optional minus sign, the digits `i`, at least one, and optionally a point and the
-- digits `f`, at least one.
pub record IsDecimal (sign : Bool) (i f s : String) : Type 0 where
  pub some_digits : i ≢ []
  pub int_digits : AllDigits i
  pub frac_digits : AllDigits f
  pub spelled : s ≡ minus sign <> (i <> fraction f)

span_digits_sound :
    (s : String) → (s ≡ (span_digits s).0 <> (span_digits s).1) × AllDigits (span_digits s).0
unfolding span_digits
span_digits_sound [] = (sym (nil-append []), tt)
span_digits_sound (c ∷ s) = elim (Bool-cases (is_digit c)) [
  | inl d ↦ rw d (
    ap (λ (t : String). c ∷ t) (span_digits_sound s).0 ∙ sym (cons-append c _ _),
    (d, (span_digits_sound s).1),
  )
  | inr d ↦ rw d (sym (nil-append (c ∷ s)), tt)
]

-- No digit stands first.
abbrev pub Stops : String → Type 0
Stops [] = Unit
Stops (c ∷ s) = is_digit c ≡ false

span_digits_complete :
    (run rest : String) → AllDigits run → Stops rest → span_digits (run <> rest) ≡ (run, rest)
unfolding span_digits
span_digits_complete [] [] h k = refl
span_digits_complete [] (c ∷ s) h k = rw nil-append (rw (k, span_digits) refl)
span_digits_complete (c ∷ run) rest h k =
    rw cons-append (rw (h.0, span_digits) (rw (span_digits_complete run rest h.1 k) refl))

is_empty-eq_nil : (s : String) → is_empty s ≡ true → s ≡ []
is_empty-eq_nil [] h = refl
is_empty-eq_nil (c ∷ s) h = cc

is_empty-ne_nil : (s : String) → is_empty s ≡ false → s ≢ []
is_empty-ne_nil [] h = cc
is_empty-ne_nil (c ∷ s) h = TextLemmas.cons≢nil

fraction_some : (s : String) → s ≢ [] → fraction s ≡ "." <> s
fraction_some [] h = absurd (h refl)
fraction_some (c ∷ s) h = refl

-- What passes the three tests of the fraction is a point and digits.
module _ (c : Char) (s : String) where
  point_run :
      code c ≡ b'.'
      → is_empty (span_digits s).0 ≡ false
      → is_empty (span_digits s).1 ≡ true
      → (c ∷ s ≡ fraction (span_digits s).0) × AllDigits (span_digits s).0
  point_run dot run rest =
      let (whole, digits) = span_digits_sound s in
      let all : s ≡ (span_digits s).0 =
        whole ∙ ap (λ t. (span_digits s).0 <> t) (is_empty-eq_nil _ rest) ∙ append-nil _ in
      let head : c ≡ "." = Char-path c "." dot in
      (
        rw head (
            ap (λ (t : String). "." ∷ t) all
            ∙ sym (ap (λ (t : String). "." ∷ t) (nil-append _))
            ∙ sym (cons-append "." [] _)
            ∙ sym (fraction_some _ (is_empty-ne_nil _ run))),
        digits,
      )

passed :
    (c : Char) (s f : String)
    → match_fraction (c ∷ s) ≡ some f
    → (code c ≡ b'.')
      × (is_empty (span_digits s).0 ≡ false)
      × (is_empty (span_digits s).1 ≡ true)
      × ((span_digits s).0 ≡ f)
unfolding match_fraction
passed c s f h = ground arith

match_fraction_sound : (s f : String) → match_fraction s ≡ some f → (s ≡ fraction f) × AllDigits f
unfolding match_fraction
match_fraction_sound [] f h = let e : [] ≡ f = cc in rw (← e) (refl, tt)
match_fraction_sound (c ∷ s) f h =
    let (dot, run, rest, same) = passed c s f h in rw (← same) (point_run c s dot run rest)

span_digits_nil : (s : String) → AllDigits s → span_digits s ≡ (s, [])
span_digits_nil s h = ap span_digits (sym (append-nil s)) ∙ span_digits_complete s [] h tt

match_fraction_complete : (f : String) → AllDigits f → match_fraction (fraction f) ≡ some f
unfolding match_fraction
match_fraction_complete [] h = refl
match_fraction_complete (c ∷ s) h =
    rw cons-append (rw nil-append (rw (span_digits_nil (c ∷ s) h) refl))

unsigned_passed :
    (s i f : String)
    → match_unsigned s ≡ some (i, f)
    → (is_empty (span_digits s).0 ≡ false)
      × ((span_digits s).0 ≡ i)
      × (match_fraction (span_digits s).1 ≡ some f)
unfolding match_unsigned
unsigned_passed s i f h = ground arith

match_unsigned_sound :
    (s i f : String)
    → match_unsigned s ≡ some (i, f)
    → (i ≢ []) × AllDigits i × AllDigits f × (s ≡ i <> fraction f)
match_unsigned_sound s i f h =
    let (run, same, rest) = unsigned_passed s i f h in
    let (whole, int_digits) = span_digits_sound s in
    let (tail, frac_digits) = match_fraction_sound _ f rest in
    rw (← same) (
      is_empty-ne_nil _ run,
      int_digits,
      frac_digits,
      whole ∙ ap (λ t. (span_digits s).0 <> t) tail,
    )

Stops-fraction : (f : String) → Stops (fraction f)
unfolding is_digit
Stops-fraction [] = tt
Stops-fraction (c ∷ s) = rw cons-append refl

match_unsigned_complete :
    (i f : String)
    → i ≢ []
    → AllDigits i
    → AllDigits f
    → match_unsigned (i <> fraction f) ≡ some (i, f)
unfolding match_unsigned
match_unsigned_complete [] f some_digits hi hf = absurd (some_digits refl)
match_unsigned_complete (c ∷ i) f some_digits hi hf = ground (
  arith,
  span_digits_complete (c ∷ i) (fraction f) hi (Stops-fraction f),
  match_fraction_complete f hf,
)

decimal_passed :
    (c : Char) (s : String) (sign : Bool) (i f : String)
    → match_decimal (c ∷ s) ≡ some (sign, i, f)
    → ((code c ≡ b'-') × (sign ≡ true) × (match_unsigned s ≡ some (i, f)))
      ⊎ ((sign ≡ false) × (match_unsigned (c ∷ s) ≡ some (i, f)))
unfolding match_decimal
decimal_passed c s sign i f h = ground arith

match_decimal_sound :
    (sign : Bool) (i f s : String) → match_decimal s ≡ some (sign, i, f) → IsDecimal sign i f s
match_decimal_sound sign i f [] h = unfold match_decimal in cc
match_decimal_sound sign i f (c ∷ s) h = elim (decimal_passed c s sign i f h) [
  | inl (dash, negative, rest) ↦
      let (a, b, d, e) = match_unsigned_sound s i f rest in
      record {
        some_digits = a;
        int_digits = b;
        frac_digits = d;
        spelled =
            rw (negative, Char-path c "-" dash)
              (rw cons-append (rw nil-append (ap (λ (t : String). "-" ∷ t) e)));
      }
  | inr (positive, rest) ↦
      let (a, b, d, e) = match_unsigned_sound (c ∷ s) i f rest in
      record {
        some_digits = a;
        int_digits = b;
        frac_digits = d;
        spelled = rw positive (rw nil-append e);
      }
]

-- A digit is no minus sign.
digit_no_dash : (c : Char) → is_digit c ≡ true → (code c == b'-') ≡ false
unfolding is_digit
digit_no_dash c h = ground arith

match_unsigned_head :
    (i f : String)
    → i ≢ []
    → AllDigits i
    → match_unsigned (i <> fraction f) ≡ some (i, f)
    → match_decimal (i <> fraction f) ≡ some (false, i, f)
match_unsigned_head [] f some_digits hi h = absurd (some_digits refl)
match_unsigned_head (c ∷ i) f some_digits hi h = rw cons-append (
    unfold match_decimal in
    rw (digit_no_dash c hi.0) (rw (← cons-append c i (fraction f)) (rw h refl)))

pub match_decimal_complete :
    (sign : Bool) (i f s : String) → IsDecimal sign i f s → match_decimal s ≡ some (sign, i, f)
match_decimal_complete true i f s h = rw h.spelled (
    rw cons-append (
      rw nil-append (
        unfold match_decimal in
        rw (match_unsigned_complete i f h.some_digits h.int_digits h.frac_digits) refl)))
match_decimal_complete false i f s h = rw h.spelled (
    rw nil-append (
      match_unsigned_head i f h.some_digits h.int_digits
        (match_unsigned_complete i f h.some_digits h.int_digits h.frac_digits)))

-- The matcher accepts exactly an optional minus sign, digits, and optionally a point and digits,
-- and its groups are the sign, the integer part and the fraction part.
pub match_decimal_iff :
    (sign : Bool) (i f s : String) → (match_decimal s ≡ some (sign, i, f)) ↔ IsDecimal sign i f s
match_decimal_iff sign i f s = (match_decimal_sound sign i f s, match_decimal_complete sign i f s)
