-- ===== src/Web/Login.antt =====
-- web/src/app/[locale]/login/actions.ts. The admin API answers the login and the identity lookup;
-- the locale prefix that the redirect adds is left out.
pub mod Obstacles
pub mod Accepted
pub mod Landing
use Prim.Native.String.{String, [], ◌∷◌}
use voxeltoad.Common.{
  ℕ, zero, suc, ◌+◌, ◌*◌, ◌^◌, Bool, true, false, not, ◌&&◌, ◌||◌, Option, none, some, List, [],
  ◌∷◌, ◌++◌, map, str_eq, code, leb, ltb, ◌==◌, if◌then◌else◌, ◌<>◌, trim, get_elem?, is_space,
}
use voxeltoad.Common.Int.{ℤ, pos, negsuc}
use voxeltoad.Js.Number.{
  Number, nan, infinite, finite, int, truthy, is_positive, le_zero, is_nan, is_safe_integer,
}
use voxeltoad.Js.Json.{Json, null, bool, num, str, object, array, obj, entries, elements, lookup}
use voxeltoad.Js.Exception.{
  Exception, admin_error, range_error, redirecting, other_error, Outcome, returned, threw,
  exception_text,
}
use voxeltoad.Js.Runtime.{Runtime}
use voxeltoad.Web.I18n.{MappedError, map_backend_error}
use voxeltoad.Web.Session.{SessionData, has, includes}
use voxeltoad.Web.Action.{
  Method, post, patch, put, delete, get, Action, pure, throw, lift, try_catch, revalidate_path,
  redirect, ◌>>=◌, ◌>>◌,
}
use voxeltoad.Web.Client.{
  Site, Result, AdminClient, is_ok, server_admin_client, anon_admin_client, create_admin_client,
  send, unwrap, get_session, set_session, clear_session, ErrorBody,
}
use voxeltoad.Web.Errors.{
  FormResult, ok, rejected, rejected_by, failure_of, to_form_error, on_auth_expired, message_or,
  is_error,
}
use voxeltoad.Web.Form.{
  FormData, text_field, get_field, number_field, get_all, or_empty, is_blank, field_if_text, reject,
  call, attempt, finish, submit,
}
use voxeltoad.Js.Access.{as_string, is_truthy}

abbrev or_default : Option Json → String → String
or_default (some (str s)) d = s
or_default _ d = d

abbrev as_number : Option Json → Option Number
as_number (some (num n)) = some n
as_number _ = none

abbrev texts : List Json → List String
texts [] = []
texts (str s ∷ xs) = s ∷ texts xs
texts (x ∷ xs) = texts xs

abbrev as_texts : Option Json → Option (List String)
as_texts (some (Json.arr xs)) = some (texts (elements xs))
as_texts _ = none

abbrev pub properties : Json → List (String × Json)
properties (obj fs) = entries fs
properties _ = []

-- The session that is stored, from the fields of `/api/v1/me` at their documented types.
unfoldable pub session_of : String → String → Json → SessionData
session_of token email me =
    let field = λ (key : String). lookup key (properties me) in
    record {
      token = some token;
      email = some email;
      role = some (or_default (field "role") "super-admin");
      role_id = as_number (field "role_id");
      scope_kind = as_string (field "scope_kind");
      permissions = as_texts (field "permissions");
      tenant_name = as_string (field "tenant_name");
    }

abbrev pub role_is : Option String → String → Bool
role_is none r = false
role_is (some s) r = str_eq s r

-- the page by role, for roles without permissions that name one
abbrev pub legacy_page : Option String → String
legacy_page role = if role_is role "tenant-admin" then "/api-keys" else "/providers"

-- the page that the last redirects choose, by `role` and `permissions`
abbrev pub chosen_page : Option String → Option (List String) → String
chosen_page role none = legacy_page role
chosen_page role (some ps) =
    if includes ps "provider.read" || includes ps "*"
    then "/providers"
    else if includes ps "api_key.read"
    then "/api-keys"
    else if includes ps "usage.read"
    then "/usage"
    else legacy_page role

unfoldable pub first_page : SessionData → String
first_page session = chosen_page session.role session.permissions

-- the message for a login that the API refuses
unfoldable pub login_message : Result → String
login_message r =
    message_or r.error
      (if r.status == 429 then "too many failed logins; try again later" else "invalid credentials")

abbrev pub some_text : Option String → Option String
some_text none = none
some_text (some []) = none
some_text (some (c ∷ s)) = some (c ∷ s)

-- `data?.token`, if it is not empty
unfoldable pub token_of : Option Json → Option String
token_of none = none
token_of (some v) = some_text (as_string (lookup "token" (properties v)))

module _ (site : Site) where
  -- what follows `const meResp = …`, by `meResp.data`
  unfoldable pub identify : String → String → Result → Option Json → Action FormResult
  identify token email me none =
      pure (reject (message_or me.error "identity lookup failed; try again"))
  identify token email me (some identity) =
      if is_error me.error || not (is_truthy identity)
      then pure (reject (message_or me.error "identity lookup failed; try again"))
      else (do
        set_session site (session_of token email identity)
        redirect (first_page (session_of token email identity)))

  -- what follows the failure test of the login's answer, by `data?.token`
  unfoldable pub with_token : String → Result → Option String → Action FormResult
  with_token email r none = pure (reject (login_message r))
  with_token email r (some token) = do
    me ← send site (create_admin_client (some token)) get "/api/v1/me" [] [] none
    identify token email me me.payload

  -- what follows the `try` block, by the answer to the login
  unfoldable pub finish_login : String → Option Result → Action FormResult
  finish_login email none = pure (rejected "invalid credentials" none)
  finish_login email (some r) =
      if is_error r.error || not (is_ok r)
      then pure (reject (login_message r))
      else with_token email r (token_of r.payload)

  unfoldable pub login_action : FormData → Action FormResult
  login_action form =
      let email = or_empty (get_field form "email") in
      let password = or_empty (get_field form "password") in
      if is_blank email || is_blank password
      then pure (reject "email and password are required")
      else (do
        client ← anon_admin_client site
        answer ←
            try_catch
              (do
                r ←
                    send site client post "/auth/login" [] []
                      (some (object (("email", str email) ∷ ("password", str password) ∷ [])))
                pure (some r))
              (λ err. pure none)
        finish_login email answer)
