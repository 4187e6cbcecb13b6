-- ===== src/Desktop/Models/Submit.antt =====
-- `onSubmit`: the parsing of the upstreams, the body and the call.
use Prim.Native.String.{String, [], ◌∷◌}
use voxeltoad.Common.{
  Bool, not, ◌||◌, Option, none, some, List, [], ◌∷◌, ◌++◌, map, trim, if◌then◌else◌,
}
use voxeltoad.Common.Int.{pos}
use voxeltoad.Js.Number.{Number, int, is_nan, is_less}
use voxeltoad.Js.Json.{Json, num, str, object, array}
use voxeltoad.Js.Exception.{
  Exception, range_error, other_error, Outcome, returned, threw, ◌>>=◌, error_message,
}
use voxeltoad.Js.Runtime.{Runtime}
use voxeltoad.Js.Access.{traverse}
use voxeltoad.Js.Split.{split_at_code, nonempty}
use voxeltoad.Money.{display_to_micro}
use voxeltoad.Desktop.Client.{Browser, Api}
use voxeltoad.Desktop.Client.Endpoints.{create_model, update_model}
use voxeltoad.Desktop.Saving.{Handler, refused, finished}
use voxeltoad.Desktop.Providers.Fields.{is_nonempty}
use voxeltoad.Desktop.Providers.Submit.{is_empty}
use voxeltoad.Desktop.Models.Fields.{
  Arithmetic, Form, Model, SentModel, SentUpstream, UpstreamDraft, currency_usd,
}

-- `s.split(",").map((s) => s.trim()).filter(Boolean)`
unfoldable pub split_commas : String → List String
split_commas s = nonempty (map trim (split_at_code b',' s))

-- `...(s.trim() !== "" ? { key: value } : {})`
abbrev pub if_filled {ℓ} : {A : Type ℓ} → String → A → Option A
if_filled s a = if is_nonempty (trim s) then some a else none

module _ (rt : Runtime) (env : Arithmetic) where
  unfoldable pub parse_price : String → Outcome Number
  parse_price v = if is_nonempty (trim v) then display_to_micro rt v else returned (int (pos 0))

  -- `pct`
  abbrev pub percent : String → Number
  percent v = if is_nonempty (trim v) then rt.number v else int (pos 0)

  abbrev pub is_percent : Number → Bool
  is_percent x = not (is_nan x || is_less x (int (pos 0)) || is_less (int (pos 100)) x)

  abbrev pub priced_upstream : UpstreamDraft → Outcome SentUpstream
  priced_upstream u = do
    prompt ← parse_price u.prompt_price
    completion ← parse_price u.completion_price
    returned (record {
      provider = u.provider;
      upstream_model = trim u.upstream_model;
      default_max_tokens = if_filled u.max_tokens (rt.number u.max_tokens);
      prompt_per_1m = prompt;
      completion_per_1m = completion;
      currency = currency_usd;
      cache_hit_multiplier = env.round (rt.times (percent u.cache_hit_pct) (int (pos 10000)));
    })

  unfoldable pub parse_upstream : UpstreamDraft → Outcome SentUpstream
  parse_upstream u =
      let priced = priced_upstream u in
      if not (is_nonempty u.provider) || not (is_nonempty (trim u.upstream_model))
      then threw (other_error "Error" "每个上游都需要选择供应商并填写上游模型。")
      else if not (is_percent (percent u.cache_hit_pct))
      then threw (other_error "Error" "缓存命中 % 必须是 0-100 的数字。")
      else priced

  unfoldable pub model_body : Form → List SentUpstream → SentModel
  model_body f upstreams = record {
    alias = trim f.alias;
    description = if_filled f.description (trim f.description);
    context_length = if_filled f.context_length (rt.number f.context_length);
    capabilities = if_filled f.capabilities (split_commas f.capabilities);
    tags = if_filled f.tags (split_commas f.tags);
    upstreams = upstreams;
  }

-- the text of the error for what the loop over the upstreams threw
unfoldable pub parse_error : Exception → String
parse_error (range_error message) = "价格必须是合法数字（如 2.50）。"
parse_error e = error_message e

abbrev optional_field {ℓ} : {A : Type ℓ} → String → (A → Json) → Option A → List (String × Json)
optional_field key f none = []
optional_field key f (some a) = (key, f a) ∷ []

abbrev texts : List String → Json
texts xs = array (map str xs)

unfoldable pub upstream_json : SentUpstream → Json
upstream_json u = object (
    ("provider", str u.provider)
    ∷ ("upstream_model", str u.upstream_model)
    ∷ (optional_field "default_max_tokens" num u.default_max_tokens
        ++ (
          "pricing",
          object (
              ("prompt_per_1m", num u.prompt_per_1m)
              ∷ ("completion_per_1m", num u.completion_per_1m)
              ∷ ("currency", str u.currency)
              ∷ ("cache_hit_multiplier", num u.cache_hit_multiplier)
              ∷ []),
        )
          ∷ []))

-- `JSON.stringify(body)`, as a value
unfoldable pub model_json : SentModel → Json
model_json m = object (
    ("alias", str m.alias)
    ∷ (optional_field "description" str m.description
        ++ (optional_field "context_length" num m.context_length
            ++ (optional_field "capabilities" texts m.capabilities
                ++ (optional_field "tags" texts m.tags
                    ++ ("upstreams", array (map upstream_json m.upstreams)) ∷ [])))))

module _ (browser : Browser) (env : Arithmetic) where
  -- `isEdit ? updateModel(body.alias, body) : createModel(body)`
  abbrev pub save_model : Option Model → SentModel → Api Json
  save_model none body = create_model browser (model_json body)
  save_model (some m) body = update_model browser body.alias (model_json body)

  abbrev pub submit_parsed : Option Model → Form → Outcome (List SentUpstream) → Handler
  submit_parsed stored f (threw e) sent = (refused (parse_error e), sent)
  submit_parsed stored f (returned upstreams) sent =
      finished [] (save_model stored (model_body browser.runtime env f upstreams) sent)

  -- `onSubmit`
  unfoldable pub submit : Option Model → Form → Handler
  submit stored f sent =
      if not (is_nonempty (trim f.alias))
      then (refused "请填写模型别名。", sent)
      else if is_empty f.upstreams
      then (refused "至少需要一个上游。", sent)
      else submit_parsed stored f (traverse (parse_upstream browser.runtime env) f.upstreams) sent
