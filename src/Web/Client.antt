-- ===== src/Web/Client.antt =====
-- The admin client: web/src/lib/admin.ts, the session handle of web/src/lib/session.ts, and
-- sdk/typescript/src/admin.ts. The admin API itself, its transport (openapi-fetch) and the cookie
-- store are the environment's.
pub mod Unwrapping
use Prim.Native.String.{String, [], ◌∷◌, count}
use voxeltoad.Common.{
  ℕ, Bool, true, false, not, ◌&&◌, ◌||◌, Option, none, some, List, [], ◌∷◌, ◌++◌, leb, ltb,
  if◌then◌else◌, ◌<>◌,
}
use voxeltoad.Js.Json.{Json}
use voxeltoad.Js.Exception.{Exception, other_error, admin_error, Outcome, returned, threw}
use voxeltoad.Js.Decimal.{decimal}
use voxeltoad.Web.Session.{SessionData, no_session}
use voxeltoad.Web.Action.{Request, World, Action, Method, pure, throw, ◌>>=◌, ◌>>◌}

-- The error envelope `{error: {message, type}}`, each part of which may be missing.
pub record ErrorBody : Type 0 where
  pub message : Option String
  pub type_name : Option String

-- The result of an openapi-fetch call: `{data, error, response}`.
pub record Result : Type 0 where
  pub payload : Option Json
  pub error : Option ErrorBody
  pub status : ℕ

-- `response.ok`
unfoldable pub is_ok : Result → Bool
is_ok r = leb 200 r.status && ltb r.status 300

-- What a fetch comes to: a result, or an exception such as a failed connection.
abbrev pub Reply : Type 0
Reply = Outcome Result

-- The environment of the server: two variables of `process.env`, and the admin API, which may
-- answer by all the requests that it has received.
pub record Site : Type 0 where
  pub admin_url : Option String
  pub session_secret : Option String
  pub reply : List Request → Request → Reply

abbrev pub is_set : Option String → Bool
is_set none = false
is_set (some []) = false
is_set (some (c ∷ s)) = true

abbrev pub long_enough : Option String → Bool
long_enough none = false
long_enough (some s) = leb 32 (count s)

-- `createAdminClient` with the URL of the site: the header that its requests carry.
pub record AdminClient : Type 0 where
  pub authorization : Option String

unfoldable pub create_admin_client : Option String → AdminClient
create_admin_client none = record { authorization = none }
create_admin_client (some []) = record { authorization = none }
create_admin_client (some (c ∷ s)) = record { authorization = some ("Bearer " <> (c ∷ s)) }

module _ (site : Site) where
  -- `requireSessionSecret`, called before every use of the cookie
  unfoldable pub require_session_secret : Action (Unit {0})
  require_session_secret =
      if is_set site.session_secret && long_enough site.session_secret
      then pure tt
      else throw (
          other_error "Error"
            "SESSION_SECRET must be set and at least 32 characters (see web/.env.example)")

  unfoldable pub get_session : Action SessionData
  get_session = do require_session_secret; (λ w. (returned w.session, w))

  unfoldable pub get_token : Action (Option String)
  get_token = do session ← get_session; pure session.token

  unfoldable pub set_session : SessionData → Action (Unit {0})
  set_session session = do
    require_session_secret
    (λ w. (returned tt, record w { session = session }))

  unfoldable pub clear_session : Action (Unit {0})
  clear_session = do require_session_secret; (λ w. (returned tt, record w { session = no_session }))

  unfoldable pub server_admin_client : Action AdminClient
  server_admin_client =
      if is_set site.admin_url
      then (do token ← get_token; pure (create_admin_client token))
      else throw (other_error "Error" "ADMIN_URL must be set (see web/.env.example)")

  unfoldable pub anon_admin_client : Action AdminClient
  anon_admin_client =
      if is_set site.admin_url
      then pure (create_admin_client none)
      else throw (other_error "Error" "ADMIN_URL must be set (see web/.env.example)")

  -- `await client.METHOD(path, { params, body })`
  unfoldable pub send :
      AdminClient
      → Method
      → String
      → List (String × Json)
      → List (String × Json)
      → Option Json
      → Action Result
  send client method path path_params query body w =
      let request : Request = record {
        authorization = client.authorization;
        method = method;
        path = path;
        path_params = path_params;
        query = query;
        body = body;
      } in
      (site.reply w.sent request, record w { sent = w.sent ++ request ∷ [] })

abbrev pub or_text : Option String → String → String
or_text none d = d
or_text (some s) d = s

-- `new AdminError(status, body)`
unfoldable pub new_admin_error : ℕ → Option ErrorBody → Exception
new_admin_error status none =
    admin_error status ("admin request failed (" <> decimal status <> ")") "api_error"
new_admin_error status (some body) =
    admin_error status (or_text body.message ("admin request failed (" <> decimal status <> ")"))
      (or_text body.type_name "api_error")

abbrev pub is_present {ℓ} : {A : Type ℓ} → Option A → Bool
is_present none = false
is_present (some a) = true

unfoldable pub unwrap : Result → Outcome (Option Json)
unwrap r =
    if is_present r.error || not (is_ok r)
    then threw (new_admin_error r.status r.error)
    else returned r.payload
