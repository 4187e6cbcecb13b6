-- ===== src/Desktop/Client/Encoding.antt =====
-- What `encodeURIComponent` does to a text, and why the result is one segment of a path.
use Prim.Native.String.{String, [], ◌∷◌}
use text.Mathlib.TextLemmas.{nil-append, cons-append}
use voxeltoad.Common.{
  ℕ, Char, Bool, true, false, code, leb, ◌==◌, ◌&&◌, ◌||◌, ◌≡◌, ◌≢◌, ◌⊎◌, inl, inr, refl, sym,
  Bool-cases, arith, [], ◌∷◌, ◌<>◌, Lacks,
}
use voxeltoad.Desktop.Client.{Browser}

-- The characters that `encodeURIComponent` keeps: letters, digits and - _ . ! ~ * ' ( )
abbrev pub is_unreserved : Char → Bool
is_unreserved c =
    (leb b'a' (code c) && leb (code c) b'z')
    || (leb b'A' (code c) && leb (code c) b'Z')
    || (leb b'0' (code c) && leb (code c) b'9')
    || (leb 39 (code c) && leb (code c) 42)
    || code c == b'-'
    || code c == b'_'
    || code c == b'.'
    || code c == b'!'
    || code c == b'~'

-- The characters of an escape: hexadecimal digits, and "%" between two bytes
abbrev pub is_escape : Char → Bool
is_escape c =
    (leb b'0' (code c) && leb (code c) b'9')
    || (leb b'A' (code c) && leb (code c) b'F')
    || code c == b'%'

abbrev pub AllEscape : String → Type 0
AllEscape [] = Unit
AllEscape (c ∷ s) = (is_escape c ≡ true) × AllEscape s

-- `encodeURIComponent` works on one character after the other: it keeps it, or writes "%" and the
-- rest of an escape.
pub record EncodeLaws (browser : Browser) : Type 0 where
  pub empty : browser.encode [] ≡ []
  pub kept :
      (c : Char) (s : String)
      → is_unreserved c ≡ true
      → browser.encode (c ∷ s) ≡ c ∷ browser.encode s
  pub escaped :
      (c : Char) (s : String)
      → is_unreserved c ≡ false
      → (hex : String) × AllEscape hex × (browser.encode (c ∷ s) ≡ "%" ∷ (hex <> browser.encode s))

-- Whether a text is "", "." or "..", which a URL does not keep as a segment.
abbrev pub is_dotted : String → Bool
is_dotted [] = true
is_dotted (c ∷ []) = code c == b'.'
is_dotted (c ∷ (d ∷ [])) = code c == b'.' && code d == b'.'
is_dotted (c ∷ (d ∷ (e ∷ s))) = false

-- No slash, neither a query nor a fragment begins in it, and it is not resolved away.
pub record IsSegment (s : String) : Type 0 where
  pub no_slash : Lacks b'/' s
  pub no_query : Lacks b'?' s
  pub no_fragment : Lacks b'#' s
  pub no_dots : is_dotted s ≡ false

Lacks-append : (n : ℕ) (s t : String) → Lacks n s → Lacks n t → Lacks n (s <> t)
Lacks-append n [] t h k = rw (nil-append t) k
Lacks-append n (c ∷ s) t (hc, h) k = rw (cons-append c s t) (hc, Lacks-append n s t h k)

AllEscape-Lacks :
    (n : ℕ) (s : String) → ((c : Char) → is_escape c ≡ true → code c ≢ n) → AllEscape s → Lacks n s
AllEscape-Lacks n [] h k = tt
AllEscape-Lacks n (c ∷ s) h (kc, k) = (h c kc, AllEscape-Lacks n s h k)

other-is_dotted : (c : Char) (s : String) → (code c == b'.') ≡ false → is_dotted (c ∷ s) ≡ false
other-is_dotted c [] h = h
other-is_dotted c (d ∷ []) h = rw h refl
other-is_dotted c (d ∷ (e ∷ s)) h = refl

second-is_dotted :
    (c d : Char) (s : String) → (code d == b'.') ≡ false → is_dotted (c ∷ (d ∷ s)) ≡ false
second-is_dotted c d [] h = ground (arith, h)
second-is_dotted c d (e ∷ s) h = refl

module _ (browser : Browser) (laws : EncodeLaws browser) where
  encode-Lacks :
      (n : ℕ) (s : String)
      → n ≢ b'%'
      → ((c : Char) → is_unreserved c ≡ true → code c ≢ n)
      → ((c : Char) → is_escape c ≡ true → code c ≢ n)
      → Lacks n (browser.encode s)
  encode-Lacks n [] p u h = rw laws.empty tt
  encode-Lacks n (c ∷ s) p u h = elim (Bool-cases (is_unreserved c)) [
    | inl plain ↦ rw (laws.kept c s plain) (u c plain, encode-Lacks n s p u h)
    | inr special ↦
        let (hex, all, e) = laws.escaped c s special in
        rw e (
          λ q. p (sym q),
          Lacks-append n hex (browser.encode s) (AllEscape-Lacks n hex h all)
              (encode-Lacks n s p u h),
        )
  ]

  encode-cases :
      (c : Char) (s : String)
      → (browser.encode (c ∷ s) ≡ c ∷ browser.encode s)
        ⊎ ((x : String) × (browser.encode (c ∷ s) ≡ "%" ∷ x))
  encode-cases c s = elim (Bool-cases (is_unreserved c)) [
    | inl plain ↦ inl (laws.kept c s plain)
    | inr special ↦ let (hex, all, e) = laws.escaped c s special in inr (_, e)
  ]

  third-is_dotted :
      (c d e : Char) (s : String) → is_dotted (c ∷ (d ∷ browser.encode (e ∷ s))) ≡ false
  third-is_dotted c d e s = elim (encode-cases e s) [
    | inl kept ↦ rw kept refl
    | inr (x, escaped) ↦ rw escaped refl
  ]

  behind-is_dotted :
      (c : Char) (s : String) → is_dotted (c ∷ s) ≡ false → is_dotted (c ∷ browser.encode s) ≡ false
  behind-is_dotted c [] h = rw laws.empty h
  behind-is_dotted c (d ∷ []) h = elim (encode-cases d []) [
    | inl kept ↦ rw (kept, laws.empty) h
    | inr (x, escaped) ↦ rw escaped (second-is_dotted c "%" x refl)
  ]
  behind-is_dotted c (d ∷ (e ∷ s)) h = elim (encode-cases d (e ∷ s)) [
    | inl kept ↦ rw kept (third-is_dotted c d e s)
    | inr (x, escaped) ↦ rw escaped (second-is_dotted c "%" x refl)
  ]

  encode-is_dotted : (s : String) → is_dotted s ≡ false → is_dotted (browser.encode s) ≡ false
  encode-is_dotted [] h = cc
  encode-is_dotted (c ∷ s) h = elim (encode-cases c s) [
    | inl kept ↦ rw kept (behind-is_dotted c s h)
    | inr (x, escaped) ↦ rw escaped (other-is_dotted "%" x refl)
  ]

  pub encode-IsSegment : (s : String) → is_dotted s ≡ false → IsSegment (browser.encode s)
  encode-IsSegment s h = record {
    no_slash =
        encode-Lacks b'/' s (λ e. omega (arith, e)) (λ c u e. ground (arith, u, e))
          (λ c u e. ground (arith, u, e));
    no_query =
        encode-Lacks b'?' s (λ e. omega (arith, e)) (λ c u e. ground (arith, u, e))
          (λ c u e. ground (arith, u, e));
    no_fragment =
        encode-Lacks b'#' s (λ e. omega (arith, e)) (λ c u e. ground (arith, u, e))
          (λ c u e. ground (arith, u, e));
    no_dots = encode-is_dotted s h;
  }
