-- ===== src/Js/Decimal.antt =====
-- `String(n)` of a natural number, and `padStart` with zeros.
use Prim.Native.Nat.{zero, suc}
use Prim.Native.String.{String, [], ◌∷◌}
use text.Mathlib.TextLemmas
use voxeltoad.Common.{
  ℕ, ◌+◌, ◌/◌, ◌%◌, ◌≤◌, ◌<◌, ◌≡◌, ◌≢◌, refl, Char, code, true, arith, ltb, if◌then◌else◌,
  Bool-cases, inl, inr, ltb→lt,
}
use voxeltoad.Js.Runtime.{is_digit, AllDigits, value}

-- The character of a digit below ten.
pub digit : ℕ → Char
digit zero = "0"
digit (suc zero) = "1"
digit (suc (suc zero)) = "2"
digit (suc (suc (suc zero))) = "3"
digit (suc (suc (suc (suc zero)))) = "4"
digit (suc (suc (suc (suc (suc zero))))) = "5"
digit (suc (suc (suc (suc (suc (suc zero)))))) = "6"
digit (suc (suc (suc (suc (suc (suc (suc zero))))))) = "7"
digit (suc (suc (suc (suc (suc (suc (suc (suc zero)))))))) = "8"
digit _ = "9"

pub code-digit : (n : ℕ) → n < 10 → code (digit n) ≡ b'0' + n
unfolding digit
code-digit zero h = refl
code-digit (suc zero) h = refl
code-digit (suc (suc zero)) h = refl
code-digit (suc (suc (suc zero))) h = refl
code-digit (suc (suc (suc (suc zero)))) h = refl
code-digit (suc (suc (suc (suc (suc zero))))) h = refl
code-digit (suc (suc (suc (suc (suc (suc zero)))))) h = refl
code-digit (suc (suc (suc (suc (suc (suc (suc zero))))))) h = refl
code-digit (suc (suc (suc (suc (suc (suc (suc (suc zero)))))))) h = refl
code-digit (suc (suc (suc (suc (suc (suc (suc (suc (suc zero))))))))) h = refl
code-digit (suc (suc (suc (suc (suc (suc (suc (suc (suc (suc n)))))))))) h = absurd (omega arith)

pub digit-is_digit : (n : ℕ) → is_digit (digit n) ≡ true
unfolding digit is_digit
digit-is_digit zero = refl
digit-is_digit (suc zero) = refl
digit-is_digit (suc (suc zero)) = refl
digit-is_digit (suc (suc (suc zero))) = refl
digit-is_digit (suc (suc (suc (suc zero)))) = refl
digit-is_digit (suc (suc (suc (suc (suc zero))))) = refl
digit-is_digit (suc (suc (suc (suc (suc (suc zero)))))) = refl
digit-is_digit (suc (suc (suc (suc (suc (suc (suc zero))))))) = refl
digit-is_digit (suc (suc (suc (suc (suc (suc (suc (suc zero)))))))) = refl
digit-is_digit _ = refl

-- The digits of `n` before `out`; the first argument bounds their number.
digits : ℕ → ℕ → String → String
digits zero n out = out
digits (suc fuel) n out =
    let more = digits fuel (n / 10) (digit (n % 10) ∷ out) in
    if ltb n 10 then digit n ∷ out else more

-- `String(n)`; `suc n` rounds are more than enough, since each divides `n` by ten.
unfoldable pub decimal : ℕ → String
unfolding digits digit
decimal n = digits (suc n) n []

value-digits : (fuel n : ℕ) (out : String) → n < fuel → value 0 (digits fuel n out) ≡ value n out
unfolding digits
value-digits zero n out h = elim h [ ]
value-digits (suc fuel) n out h =
    ground
      (arith, value-digits fuel (n / 10) (digit (n % 10) ∷ out), code-digit n, code-digit (n % 10))

digits-AllDigits : (fuel n : ℕ) (out : String) → AllDigits out → AllDigits (digits fuel n out)
unfolding digits
digits-AllDigits zero n out h = h
digits-AllDigits (suc fuel) n out h = ground (
  arith,
  digits-AllDigits fuel (n / 10) (digit (n % 10) ∷ out),
  digit-is_digit n,
  digit-is_digit (n % 10),
)

-- Reading the digits of `n` gives `n`.
pub value-decimal : (n : ℕ) → value 0 (decimal n) ≡ n
value-decimal n = unfold decimal in value-digits (suc n) n [] (omega arith)

pub decimal-AllDigits : (n : ℕ) → AllDigits (decimal n)
decimal-AllDigits n = unfold decimal in digits-AllDigits (suc n) n [] tt

digits-ne-nil : (fuel n : ℕ) (out : String) → n < fuel → digits fuel n out ≢ []
unfolding digits
digits-ne-nil zero n out h = elim h [ ]
digits-ne-nil (suc fuel) n out h = elim (Bool-cases (ltb n 10)) [
  | inl small ↦ rw small TextLemmas.cons≢nil
  | inr large ↦ rw large (digits-ne-nil fuel (n / 10) _ (ground arith))
]

pub decimal-ne-nil : (n : ℕ) → decimal n ≢ []
decimal-ne-nil n = unfold decimal in digits-ne-nil (suc n) n [] (omega arith)

pub decimal-digit : (n : ℕ) → n < 10 → decimal n ≡ digit n ∷ []
decimal-digit n h = unfold digits decimal in ground arith

pub decimal_two : (n : ℕ) → 10 ≤ n → n < 100 → decimal n ≡ digit (n / 10) ∷ digit (n % 10) ∷ []
decimal_two n l h = unfold digits decimal in ground arith

-- `s.padStart(2, "0")`
unfoldable pub pad_two : String → String
pad_two [] = "00"
pad_two (c ∷ []) = "0" ∷ c ∷ []
pad_two (c ∷ d ∷ s) = c ∷ d ∷ s

pad_small : (n : ℕ) → n < 10 → "0" ∷ digit n ∷ [] ≡ digit (n / 10) ∷ digit (n % 10) ∷ []
pad_small n h =
    let q : n / 10 ≡ 0 = omega arith in
    let r : n % 10 ≡ n = omega arith in rw (q, r) (unfold digit in refl)

pub pad_two-decimal : (n : ℕ) → n < 100 → pad_two (decimal n) ≡ digit (n / 10) ∷ digit (n % 10) ∷ []
pad_two-decimal n h = elim (Bool-cases (ltb n 10)) [
  | inl small ↦
      rw (decimal-digit n (ltb→lt n 10 small)) (unfold pad_two in pad_small n (ltb→lt n 10 small))
  | inr large ↦ rw (decimal_two n (ground arith) h) (unfold pad_two in refl)
]

decimal_test : decimal 12034 ≡ "12034"
unfolding decimal
decimal_test = refl
