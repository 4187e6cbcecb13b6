-- ===== src/Web/Actions/Roles/Keyless.antt =====
-- The keys of the errors that the role actions report.
use Prim.Native.Char.{Char}
use Prim.Native.String.{String, [], ◌∷◌}
use text.Mathlib.TextLemmas.{cons-append}
use voxeltoad.Common.{
  ◌≡◌, inl, inr, refl, ap, Bool, true, false, not, Option, none, List, [], ◌∷◌, if◌then◌else◌, ◌<>◌,
  strip_prefix, code, ◌==◌, ℕ,
}
use voxeltoad.Js.Json.{Json}
use voxeltoad.Js.Number.{Number, truthy}
use voxeltoad.Js.Runtime.{Runtime}
use voxeltoad.Js.Exception.{
  Exception, Outcome, returned, threw, other_error, admin_error, exception_text,
}
use voxeltoad.Web.I18n.{MappedError, map_backend_error}
use voxeltoad.Web.I18n.Mapping.{map_backend_error-plain}
use voxeltoad.Web.Action.{
  World, Request, Method, Action, pure, lift, try_catch, handle, continue, revalidate_path, ◌>>=◌,
  ◌>>◌,
}
use voxeltoad.Web.Client.{Site, Result, Reply, send, unwrap}
use voxeltoad.Web.Client.Unwrapping.{server_admin_client_cases, unwrap_cases}
use voxeltoad.Web.Errors.{FormResult, ok, rejected}
use voxeltoad.Web.Form.{FormData, is_blank, text_field, number_field}
use voxeltoad.Web.Actions.Roles.{role_request, create_role, update_role, delete_role}

-- Every request is answered: the transport does not fail.
abbrev pub Answers : Site → Type 0
Answers site =
    (past : List Request) (request : Request)
    → (result : Result) × (site.reply past request ≡ returned result)

-- No error with a key is reported.
abbrev pub IsKeyless : Outcome FormResult × World → Type 0
IsKeyless (returned ok, w) = Unit
IsKeyless (returned (rejected message key), w) = key ≡ none
IsKeyless (threw err, w) = ⊥

-- The texts of the exceptions that the client throws have no key.
abbrev IsPlain : Exception → Type 0
IsPlain err = (map_backend_error (exception_text err)).key ≡ none

abbrev IsRequest : Outcome FormResult × World → Type 0
IsRequest (returned ok, w) = Unit
IsRequest (returned (rejected message key), w) = ⊥
IsRequest (threw err, w) = IsPlain err

plain_key :
    (message : String)
    → strip_prefix "errors." message ≡ none
    → (map_backend_error message).key ≡ none
plain_key message h = ap (λ m. m.key) (map_backend_error-plain message h)

other_head :
    (c : Char) (s t : String)
    → (101 == code c) ≡ false
    → strip_prefix "errors." ((c ∷ s) <> t) ≡ none
unfolding strip_prefix
other_head c s t h = rw (cons-append c s t) (rw h refl)

admin_error-IsPlain :
    (status : ℕ) (message type_name : String) → IsPlain (admin_error status message type_name)
unfolding exception_text strip_prefix
admin_error-IsPlain status [] type_name = plain_key "AdminError" refl
admin_error-IsPlain status (c ∷ s) type_name =
    plain_key ("AdminError: " <> (c ∷ s)) (other_head "A" "dminError: " (c ∷ s) refl)

other_error-IsPlain : (message : String) → IsPlain (other_error "Error" message)
unfolding exception_text strip_prefix
other_error-IsPlain [] = plain_key "Error" refl
other_error-IsPlain (c ∷ s) =
    plain_key ("Error: " <> (c ∷ s)) (other_head "E" "rror: " (c ∷ s) refl)

module _ (site : Site) (answers : Answers site) where
  unwrapped :
      (result : Result) (w : World)
      → IsRequest (continue (unwrap result) (λ data_. do revalidate_path "/roles"; pure ok) w)
  unfolding pure revalidate_path ◌>>=◌
  unwrapped result w = elim (unwrap_cases result) [
    | inl (good, e) ↦ rw e tt
    | inr (bad, (message, type_name, e)) ↦
        rw e (admin_error-IsPlain result.status message type_name)
  ]

  answered :
      (r : Reply) (w : World)
      → ((result : Result) × (r ≡ returned result))
      → IsRequest (
          continue r
            (λ result. do data_ ← lift (unwrap result); revalidate_path "/roles"; pure ok)
            w)
  unfolding lift ◌>>=◌
  answered r w (result, e) = rw e (unwrapped result w)

  role_request-IsRequest :
      (method : Method) (path : String) (params : List (String × Json)) (body : Option Json)
      (w : World)
      → IsRequest (role_request site method path params body w)
  unfolding role_request send ◌>>=◌
  role_request-IsRequest method path params body w = elim (server_admin_client_cases site w) [
    | inr (message, e) ↦ rw e (other_error-IsPlain message)
    | inl (client, e) ↦ rw e (answered _ _ (answers _ _))
  ]

  caught :
      (keep : MappedError → Option String)
      → ((m : MappedError) → m.key ≡ none → keep m ≡ none)
      → (r : Outcome FormResult × World) → IsRequest r
      → IsKeyless (
          handle r.0
            (λ err.
              let m = map_backend_error (exception_text err) in pure (rejected m.fallback (keep m)))
            r.1)
  unfolding pure
  caught keep h (returned ok, w) plain = tt
  caught keep h (returned (rejected m k), w) plain = absurd plain
  caught keep h (threw err, w) plain = h (map_backend_error (exception_text err)) plain

if-IsKeyless :
    (test : Bool) (a b : Action FormResult) (w : World)
    → IsKeyless (a w)
    → IsKeyless (b w)
    → IsKeyless ((if test then a else b) w)
if-IsKeyless true a b w ha hb = ha
if-IsKeyless false a b w ha hb = hb

-- As long as the transport does not fail, no role action reports an error with a key, whatever the API
-- answers: the name of the error stands before the message that is mapped.
pub role_actions-IsKeyless :
    (rt : Runtime) (site : Site)
    → Answers site
    → (form : FormData) (id : Number) (w : World)
    → IsKeyless (create_role site form w)
      × IsKeyless (update_role rt site form w)
      × IsKeyless (delete_role site id w)
unfolding create_role update_role delete_role try_catch pure
role_actions-IsKeyless rt site answers form id w = (
  if-IsKeyless (is_blank (text_field form "name")) _ _ w refl (
      caught site answers (λ m. m.key) (λ m e. e) _
        (role_request-IsRequest site answers _ _ _ _ w)),
  if-IsKeyless (not (truthy (number_field rt form "role_id"))) _ _ w refl (
      caught site answers (λ m. m.key) (λ m e. e) _
        (role_request-IsRequest site answers _ _ _ _ w)),
  caught site answers (λ m. none) (λ m e. refl) _ (role_request-IsRequest site answers _ _ _ _ w),
)
