-- ===== src/Desktop/Providers/Submit.antt =====
-- `onSubmit`: the guards, the body and the call.
use Prim.Native.String.{String, [], ◌∷◌}
use voxeltoad.Common.{
  ℕ, Bool, true, false, not, ◌||◌, Option, none, some, List, [], ◌∷◌, ◌++◌, map, str_eq, trim, ◌<>◌,
  if◌then◌else◌,
}
use voxeltoad.Common.Int.{pos}
use voxeltoad.Js.Number.{int}
use voxeltoad.Js.Json.{Json, num, str, object, array}
use voxeltoad.Desktop.Client.{Browser, Api}
use voxeltoad.Desktop.Saving.{success, Handler, refused, finished}
use voxeltoad.Desktop.Client.Endpoints.{create_provider, update_provider}
use voxeltoad.Desktop.Providers.Fields.{
  CredMode, Endpoint, EndpointRow, Form, Provider, Timeouts, custom_type_value, default_timeouts,
  default_weight, is_nonempty, plain_ref_prefix,
}

-- `typeValue`
unfoldable pub type_value : Form → String
type_value f = if str_eq f.type_select custom_type_value then trim f.custom_type else f.type_select

abbrev pub stored_ref : Option Provider → String
stored_ref none = ""
stored_ref (some p) = p.api_key_ref

abbrev pub credential_for : CredMode → String → String → String → String
credential_for CredMode.by_ref ref key stored = trim ref
credential_for CredMode.by_key ref [] stored = stored
credential_for CredMode.by_key ref (c ∷ key) stored = plain_ref_prefix <> (c ∷ key)

-- `ref` of `onSubmit`
unfoldable pub credential : Option Provider → Form → String
credential stored f = credential_for f.cred_mode f.api_key_ref f.api_key (stored_ref stored)

-- `endpoints.some((ep) => !ep.adapter || !ep.base_url.trim())`
unfoldable pub has_incomplete : List EndpointRow → Bool
has_incomplete [] = false
has_incomplete (r ∷ rs) =
    if not (is_nonempty r.adapter) || not (is_nonempty (trim r.base_url))
    then true
    else has_incomplete rs

abbrev pub set_id : String → Option String
set_id [] = none
set_id (c ∷ s) = some (c ∷ s)

unfoldable pub row_endpoint : EndpointRow → Endpoint
row_endpoint r = record {
  id = set_id r.id;
  adapter = r.adapter;
  base_url = trim r.base_url;
  timeouts = none;
}

abbrev stored_timeouts : Option Provider → Timeouts
stored_timeouts none = default_timeouts
stored_timeouts (some p) = p.timeouts

abbrev stored_weight : Option Provider → ℕ
stored_weight none = default_weight
stored_weight (some p) = p.weight

unfoldable pub provider_body : Option Provider → Form → Provider
provider_body stored f = record {
  name = trim f.name;
  type_name = type_value f;
  endpoints = map row_endpoint f.endpoints;
  api_key_ref = credential stored f;
  timeouts = stored_timeouts stored;
  weight = stored_weight stored;
}

abbrev pub is_empty {ℓ} : {A : Type ℓ} → List A → Bool
is_empty [] = true
is_empty (x ∷ xs) = false

-- the guards of `onSubmit`: the text of the error, if one refuses the form
unfoldable pub refusal : Option Provider → Form → Option String
refusal stored f =
    if not (is_nonempty (trim f.name))
      || not (is_nonempty (type_value f))
      || not (is_nonempty (credential stored f))
    then some "请完整填写名称、类型与凭证。"
    else if is_empty f.endpoints
    then some "至少需要一个端点。"
    else if has_incomplete f.endpoints
    then some "每个端点都需要选择协议并填写基础 URL。"
    else none

abbrev number : ℕ → Json
number n = num (int (pos n))

abbrev id_field : Option String → List (String × Json)
id_field none = []
id_field (some s) = ("id", str s) ∷ []

abbrev timeouts_json : Timeouts → Json
timeouts_json t = object (
    ("connect", number t.connect)
    ∷ ("first_byte", number t.first_byte)
    ∷ ("overall", number t.overall)
    ∷ [])

abbrev timeouts_field : Option Timeouts → List (String × Json)
timeouts_field none = []
timeouts_field (some t) = ("timeouts", timeouts_json t) ∷ []

unfoldable pub endpoint_json : Endpoint → Json
endpoint_json ep = object (
    id_field ep.id
    ++ ("adapter", str ep.adapter) ∷ ("base_url", str ep.base_url) ∷ timeouts_field ep.timeouts)

-- `JSON.stringify(body)`, as a value
unfoldable pub provider_json : Provider → Json
provider_json p = object (
    ("timeouts", timeouts_json p.timeouts)
    ∷ ("weight", number p.weight)
    ∷ ("name", str p.name)
    ∷ ("type", str p.type_name)
    ∷ ("endpoints", array (map endpoint_json p.endpoints))
    ∷ ("api_key_ref", str p.api_key_ref)
    ∷ [])

module _ (browser : Browser) where
  -- `isEdit ? updateProvider(body.name, body) : createProvider(body)`
  abbrev pub save_provider : Option Provider → Provider → Api Json
  save_provider none body = create_provider browser (provider_json body)
  save_provider (some p) body = update_provider browser body.name (provider_json body)

  abbrev pub saved_text : Option Provider → String
  saved_text none = "供应商已创建。"
  saved_text (some p) = "供应商已更新。"

  abbrev pub submit_checked : Option String → Option Provider → Form → Handler
  submit_checked (some text) stored f sent = (refused text, sent)
  submit_checked none stored f sent =
      finished (success (saved_text stored) ∷ [])
        (save_provider stored (provider_body stored f) sent)

  -- `onSubmit`
  unfoldable pub submit : Option Provider → Form → Handler
  submit stored f sent = submit_checked (refusal stored f) stored f sent
