-- ===== src/Desktop/Client.antt =====
-- desktop-ui/src/lib/api.ts: the calls of the local gateway's API. `fetch`, `encodeURIComponent` and
-- the parsing of JSON are the browser's.
pub mod Endpoints
pub mod Agreement
pub mod Encoding
pub mod Paths
mod Tests
use Prim.Native.String.{String, [], ◌∷◌}
use voxeltoad.Common.{
  ℕ, Bool, true, false, not, ◌&&◌, Option, none, some, List, [], ◌∷◌, ◌++◌, ltb, leb, ◌==◌, ◌<>◌,
  if◌then◌else◌,
}
use voxeltoad.Js.Json.{Json, null, bool, num, str, arr, obj, entries, lookup}
use voxeltoad.Js.Exception.{Exception, other_error, Outcome, returned, threw}
use voxeltoad.Js.Runtime.{Runtime}
use voxeltoad.Js.Access.{to_text, is_truthy}
use voxeltoad.Js.Decimal.{decimal}

pub data Method : Type 0 where
  get post put delete : Method

-- One call of `fetch`: the path is the text that is handed to `new URL` or `fetch`, before the platform
-- resolves it, and the query is what `searchParams.set` has added.
pub record Call : Type 0 where
  pub method : Method
  pub path : String
  pub query : List (String × String)
  pub body : Option Json

pub record Response : Type 0 where
  pub status : ℕ
  pub text : String

-- The browser and the gateway, which may answer by all the calls before.
pub record Browser : Type 0 where
  pub runtime : Runtime
  -- `encodeURIComponent`
  pub encode : String → String
  -- the SyntaxError of `JSON.parse`
  pub syntax_error : String → Exception
  pub fetch : List Call → Call → Outcome Response

-- A function that calls the gateway: what it comes to, and the calls made, the first one first.
abbrev pub Api {ℓ} : Type ℓ → Type ℓ
Api A = List Call → Outcome A × List Call

-- A query parameter of type `string | number | undefined`.
pub data Param : Type 0 where
  missing : Param
  word : String → Param
  number : ℕ → Param

abbrev pub base : String
base = "/api/v1"

-- `staleBackendError()`
abbrev pub stale_backend_error : Exception
stale_backend_error = other_error "Error" "接口不存在 (404)：网关后端版本过旧，请重启或重新构建桌面应用"

-- the parameters that are neither undefined nor empty
unfoldable pub query_of : List (String × Param) → List (String × String)
query_of [] = []
query_of ((k, missing) ∷ ps) = query_of ps
query_of ((k, word []) ∷ ps) = query_of ps
query_of ((k, word (c ∷ s)) ∷ ps) = (k, c ∷ s) ∷ query_of ps
query_of ((k, number n) ∷ ps) = (k, decimal n) ∷ query_of ps

-- `resp.ok`
unfoldable pub is_ok : Response → Bool
is_ok r = leb 200 r.status && ltb r.status 300

-- `body?.error`; `undefined` is `none`
unfoldable pub error_of : Json → Option Json
error_of (obj fs) = lookup "error" (entries fs)
error_of v = none

-- `` `请求失败 (${resp.status})` ``
abbrev pub failed_text : ℕ → String
failed_text status = "请求失败 (" <> decimal status <> ")"

abbrev pub is_unset {ℓ} : {A : Type ℓ} → Option A → Bool
is_unset none = true
is_unset (some a) = false

-- the API's error if there is a truthy one
abbrev pub api_error : Option Json → Option Json
api_error none = none
api_error (some v) = if is_truthy v then some v else none

abbrev pub body_error : Option Json → Option Json
body_error none = none
body_error (some v) = error_of v

module _ (browser : Browser) where
  -- `resp.json()`
  unfoldable pub parse : String → Option Json
  parse s = browser.runtime.json_parse s

  abbrev pub or_syntax_error : String → Option Json → Outcome Json
  or_syntax_error text none = threw (browser.syntax_error text)
  or_syntax_error text (some v) = returned v

  abbrev pub get_failure : ℕ → Option Json → Exception
  get_failure status none =
      if status == 404 then stale_backend_error else other_error "Error" (failed_text status)
  get_failure status (some v) = other_error "Error" (to_text browser.runtime v)

  -- what `getJSON` makes of a response
  unfoldable pub read_get : Response → Outcome Json
  read_get r =
      if is_ok r
      then or_syntax_error r.text (parse r.text)
      else threw (get_failure r.status (api_error (body_error (parse r.text))))

  -- `errMsg ?? …` in the error that `sendJSON` throws
  abbrev pub send_message : ℕ → Option Json → Exception
  send_message status none = other_error "Error" (failed_text status)
  send_message status (some null) = other_error "Error" (failed_text status)
  send_message status (some v) = other_error "Error" (to_text browser.runtime v)

  abbrev pub send_failure : ℕ → Option Json → Exception
  send_failure status error =
      if status == 404 && is_unset (api_error error)
      then stale_backend_error
      else send_message status error

  -- `parsed`, which stays `null` for an empty text and for one that is no JSON
  abbrev pub parsed_or_null : Option Json → Json
  parsed_or_null none = null
  parsed_or_null (some v) = v

  unfoldable pub parse_body : String → Json
  parse_body [] = null
  parse_body (c ∷ s) = parsed_or_null (parse (c ∷ s))

  -- what `sendJSON` makes of a response
  unfoldable pub read_send : Response → Outcome Json
  read_send r =
      if is_ok r
      then returned (parse_body r.text)
      else threw (send_failure r.status (error_of (parse_body r.text)))

  abbrev pub read {ℓ} : {A : Type ℓ} → (Response → Outcome A) → Outcome Response → Outcome A
  read f (returned r) = f r
  read f (threw e) = threw e

  unfoldable pub get_json : String → List (String × Param) → Api Json
  get_json path params sent =
      let call : Call = record {
        method = get;
        path = base <> path;
        query = query_of params;
        body = none;
      } in
      (read read_get (browser.fetch sent call), sent ++ call ∷ [])

  unfoldable pub send_json : Method → String → Option Json → Api Json
  send_json method path body sent =
      let call : Call = record { method = method; path = base <> path; query = []; body = body } in
      (read read_send (browser.fetch sent call), sent ++ call ∷ [])
