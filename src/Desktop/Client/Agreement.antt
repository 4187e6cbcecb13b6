-- ===== src/Desktop/Client/Agreement.antt =====
-- `getJSON` and `sendJSON` read a response alike.
use Prim.Native.String.{String, [], ◌∷◌}
use voxeltoad.Common.{
  ◌≡◌, refl, ap, sym, ◌∙◌, true, false, Option, none, some, ◌==◌, Bool-cases, inl, inr, ℕ,
}
use voxeltoad.Js.Json.{Json, null, bool, num, str, arr, obj}
use voxeltoad.Js.Exception.{returned, threw, other_error}
use voxeltoad.Js.Access.{to_text, is_truthy}
use voxeltoad.Js.Runtime.{Runtime}
use voxeltoad.Desktop.Client.{
  Browser, Response, is_ok, error_of, api_error, body_error, parse, get_failure, send_message,
  send_failure, parsed_or_null, parse_body, read_get, read_send,
}

-- An error that is missing, `null` or truthy: no empty text, `false` or zero.
abbrev pub IsUsual : Option Json → Type 0
IsUsual none = Unit
IsUsual (some null) = Unit
IsUsual (some v) = is_truthy v ≡ true

-- `JSON.parse("")` throws.
pub record ParseLaws (rt : Runtime) : Type 0 where
  pub no_empty : rt.json_parse [] ≡ none

module _ (browser : Browser) where
  pub record IsRegular (r : Response) : Type 0 where
    -- a success has a JSON body
    pub body : is_ok r ≡ true → (v : Json) × (parse browser r.text ≡ some v)
    pub error : is_ok r ≡ false → IsUsual (error_of (parse_body browser r.text))

  error_of-parsed_or_null : (o : Option Json) → error_of (parsed_or_null browser o) ≡ body_error o
  unfolding error_of
  error_of-parsed_or_null none = refl
  error_of-parsed_or_null (some v) = refl

  parse_body-error :
      (text : String)
      → ParseLaws browser.runtime
      → error_of (parse_body browser text) ≡ body_error (parse browser text)
  unfolding parse parse_body error_of
  parse_body-error [] laws = rw laws.no_empty refl
  parse_body-error (c ∷ s) laws = error_of-parsed_or_null (parse browser (c ∷ s))

  parse_body-some :
      (text : String) (v : Json)
      → ParseLaws browser.runtime
      → parse browser text ≡ some v
      → parse_body browser text ≡ v
  unfolding parse parse_body
  parse_body-some [] v laws e = let clash : none ≡ some v = sym laws.no_empty ∙ e in cc
  parse_body-some (c ∷ s) v laws e = rw e refl

  no_error : (status : ℕ) → get_failure browser status none ≡ send_failure browser status none
  no_error status = elim (Bool-cases (status == 404)) [
    | inl stale ↦ rw stale refl
    | inr other ↦ rw other refl
  ]

  with_error :
      (status : ℕ) (v : Json)
      → is_truthy v ≡ true
      → send_message browser status (some v) ≡ other_error "Error" (to_text browser.runtime v)
      → get_failure browser status (api_error (some v)) ≡ send_failure browser status (some v)
  with_error status v h e = elim (Bool-cases (status == 404)) [
    | inl missing ↦ rw (h, missing, e) refl
    | inr other ↦ rw (h, other, e) refl
  ]

  failures :
      (status : ℕ) (e : Option Json)
      → IsUsual e
      → get_failure browser status (api_error e) ≡ send_failure browser status e
  failures status none h = no_error status
  failures status (some null) h = no_error status
  failures status (some (bool b)) h = with_error status (bool b) h refl
  failures status (some (num n)) h = with_error status (num n) h refl
  failures status (some (str s)) h = with_error status (str s) h refl
  failures status (some (arr xs)) h = with_error status (arr xs) h refl
  failures status (some (obj fs)) h = with_error status (obj fs) h refl

  -- `getJSON` and `sendJSON` make the same of a response, value or exception, where a success has a
  -- JSON body and the error of a failure is missing, `null` or truthy: an empty error text would be
  -- replaced by the first and shown by the second.
  pub read_get-read_send :
      (r : Response)
      → ParseLaws browser.runtime
      → IsRegular r
      → read_get browser r ≡ read_send browser r
  unfolding read_get read_send
  read_get-read_send r laws h = elim (Bool-cases (is_ok r)) [
    | inl good ↦
        let (v, e) = h.body good in
        rw (good, e) (ap returned (sym (parse_body-some r.text v laws e)))
    | inr bad ↦ rw bad (
        ap threw (
          ap (λ e. get_failure browser r.status (api_error e)) (sym (parse_body-error r.text laws))
          ∙ failures r.status (error_of (parse_body browser r.text)) (h.error bad)))
  ]
