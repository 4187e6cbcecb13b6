-- ===== src/Desktop/Routes.antt =====
-- desktop-ui/src/pages/Routes.tsx: the form that creates and edits a route.
pub mod RoundTrip
mod Tests
use Prim.Native.String.{String, [], ◌∷◌}
use voxeltoad.Common.{
  ℕ, suc, Bool, true, false, not, ◌||◌, Option, none, some, List, [], ◌∷◌, ◌++◌, map, str_eq, trim,
  if◌then◌else◌,
}
use voxeltoad.Common.Int.{pos}
use voxeltoad.Js.Number.{Number, int}
use voxeltoad.Js.Json.{Json, num, str, object, array}
use voxeltoad.Js.Runtime.{Runtime}
use voxeltoad.Js.Decimal.{decimal}
use voxeltoad.Desktop.Client.{Browser, Api}
use voxeltoad.Desktop.Client.Endpoints.{create_route, update_route}
use voxeltoad.Desktop.Saving.{Handler, refused, finished}
use voxeltoad.Desktop.Providers.Fields.{Provider, is_nonempty, includes}
use voxeltoad.Desktop.Providers.Submit.{is_empty}
use voxeltoad.Desktop.Models.Fields.{Model, ModelUpstream}

-- `RouteProvider` and `Route` of desktop-ui/src/lib/types.ts, as the API gives them
pub record RouteProvider : Type 0 where
  pub name : String
  pub weight : Option ℕ

pub record Route : Type 0 where
  pub model_alias : String
  pub providers : List RouteProvider
  pub strategy : String

-- The same as the form sends them: a weight is what `Number` gives.
pub record SentProvider : Type 0 where
  pub name : String
  pub weight : Option Number

pub record SentRoute : Type 0 where
  pub model_alias : String
  pub providers : List SentProvider
  pub strategy : String

pub record ProviderRow : Type 0 where
  pub key : String
  pub name : String
  pub weight : String

pub record Form : Type 0 where
  pub selected_model : String
  pub strategy : String
  pub rows : List ProviderRow

-- `STRATEGY_LABELS`
abbrev pub strategy_labels : List (String × String)
strategy_labels =
    ("priority", "优先级")
    ∷ ("weighted", "加权")
    ∷ ("round_robin", "轮询")
    ∷ ("session_affinity", "会话亲和")
    ∷ []

abbrev label_or : String → List (String × String) → String
label_or s [] = s
label_or s ((k, label) ∷ labels) = if str_eq k s then label else label_or s labels

-- `strategyLabel(s)`, for a text that is no property of every object
unfoldable pub strategy_label : Option String → String
strategy_label none = "-"
strategy_label (some s) = label_or s strategy_labels

abbrev pub weight_text : Option ℕ → String
weight_text none = ""
weight_text (some n) = decimal n

-- The rows of the providers; `uuid n` is what the call number `n` of `crypto.randomUUID()` gives.
abbrev pub rows_from : (ℕ → String) → ℕ → List RouteProvider → List ProviderRow
rows_from uuid n [] = []
rows_from uuid n (p ∷ ps) =
    record { key = uuid n; name = p.name; weight = weight_text p.weight }
    ∷ rows_from uuid (suc n) ps

-- the fields that `RouteForm` begins with
unfoldable pub initial : (ℕ → String) → Option Route → Form
initial uuid none = record { selected_model = ""; strategy = ""; rows = [] }
initial uuid (some r) = record {
  selected_model = r.model_alias;
  strategy = r.strategy;
  rows = rows_from uuid 0 r.providers;
}

-- `models.find((m) => m.alias === alias)`
abbrev pub find_model : String → List Model → Option Model
find_model alias [] = none
find_model alias (m ∷ ms) = if str_eq m.alias alias then some m else find_model alias ms

-- `providers.filter((p) => upstreamNames.has(p.name))`
abbrev pub named_providers : List String → List Provider → List Provider
named_providers names [] = []
named_providers names (p ∷ ps) =
    let rest = named_providers names ps in if includes p.name names then p ∷ rest else rest

abbrev pub providers_for : Option Model → List Provider → List Provider
providers_for none providers = providers
providers_for (some m) providers =
    named_providers (map (λ (u : ModelUpstream). u.provider) m.upstreams) providers

-- `allowedProviders`; the upstreams of a model are there
unfoldable pub allowed_providers : String → List Model → List Provider → List Provider
allowed_providers selected models providers =
    if is_nonempty selected then providers_for (find_model selected models) providers else providers

-- `rows.some((r) => !r.name)`
abbrev pub has_unnamed : List ProviderRow → Bool
has_unnamed [] = false
has_unnamed (r ∷ rows) = if is_nonempty r.name then has_unnamed rows else true

-- the guards of `onSubmit`
unfoldable pub refusal : Form → Option String
refusal f =
    if not (is_nonempty f.selected_model)
    then some "请选择模型别名。"
    else if not (is_nonempty f.strategy)
    then some "请选择策略。"
    else if is_empty f.rows || has_unnamed f.rows
    then some "至少需要一个候选供应商，且每行都要选择供应商。"
    else none

unfoldable pub sent_provider : Runtime → ProviderRow → SentProvider
sent_provider rt r = record {
  name = r.name;
  weight = if is_nonempty (trim r.weight) then some (rt.number r.weight) else none;
}

unfoldable pub route_body : Runtime → Form → SentRoute
route_body rt f = record {
  model_alias = f.selected_model;
  providers = map (sent_provider rt) f.rows;
  strategy = f.strategy;
}

abbrev weight_field : Option Number → List (String × Json)
weight_field none = []
weight_field (some n) = ("weight", num n) ∷ []

abbrev provider_json : SentProvider → Json
provider_json p = object (("name", str p.name) ∷ weight_field p.weight)

-- `JSON.stringify(body)`, as a value
unfoldable pub route_json : SentRoute → Json
route_json r = object (
    ("model_alias", str r.model_alias)
    ∷ ("strategy", str r.strategy)
    ∷ ("providers", array (map provider_json r.providers))
    ∷ [])

module _ (browser : Browser) where
  -- `isEdit ? updateRoute(body.model_alias, body) : createRoute(body)`
  abbrev pub save_route : Option Route → SentRoute → Api Json
  save_route none body = create_route browser (route_json body)
  save_route (some r) body = update_route browser body.model_alias (route_json body)

  abbrev pub submit_checked : Option String → Option Route → Form → Handler
  submit_checked (some text) stored f sent = (refused text, sent)
  submit_checked none stored f sent =
      finished [] (save_route stored (route_body browser.runtime f) sent)

  -- `onSubmit`
  unfoldable pub submit : Option Route → Form → Handler
  submit stored f sent = submit_checked (refusal f) stored f sent
