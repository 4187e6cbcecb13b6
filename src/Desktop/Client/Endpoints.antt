-- ===== src/Desktop/Client/Endpoints.antt =====
-- The functions of desktop-ui/src/lib/api.ts, one for each endpoint. The options of a list are its
-- parameters in the order of `Object.entries`.
use Prim.Native.String.{String, [], ◌∷◌}
use voxeltoad.Common.{ℕ, Option, none, some, List, [], ◌∷◌, ◌<>◌}
use voxeltoad.Js.Json.{Json, str, object}
use voxeltoad.Js.Decimal.{decimal}
use voxeltoad.Desktop.Client.{
  Method, Browser, Api, Param, missing, word, number, get_json, send_json,
}

abbrev optional : Option String → Param
optional none = missing
optional (some s) = word s

module _ (browser : Browser) where
  unfoldable pub get_overview : Option String → Option String → Api Json
  get_overview from to =
      get_json browser "/overview" (("from", optional from) ∷ ("to", optional to) ∷ [])

  unfoldable pub list_sessions : List (String × Param) → Api Json
  list_sessions opts = get_json browser "/sessions" opts

  unfoldable pub list_request_logs : List (String × Param) → Api Json
  list_request_logs opts = get_json browser "/request-logs" opts

  unfoldable pub list_trace_by_session : String → ℕ → Api Json
  list_trace_by_session session_id limit =
      get_json browser ("/trace/sessions/" <> browser.encode session_id)
        (("limit", number limit) ∷ [])

  unfoldable pub get_trace_by_row_id : ℕ → Api Json
  get_trace_by_row_id id = get_json browser ("/trace/rows/" <> decimal id) []

  unfoldable pub get_trace_by_request_id : String → Api Json
  get_trace_by_request_id request_id =
      get_json browser ("/trace/requests/" <> browser.encode request_id) []

  unfoldable pub get_logs : ℕ → Api Json
  get_logs tail = get_json browser "/logs" (("tail", number tail) ∷ [])

  unfoldable pub list_providers : Api Json
  list_providers = get_json browser "/providers" []

  unfoldable pub create_provider : Json → Api Json
  create_provider p = send_json browser Method.post "/providers" (some p)

  unfoldable pub update_provider : String → Json → Api Json
  update_provider name p =
      send_json browser Method.put ("/providers/" <> browser.encode name) (some p)

  unfoldable pub delete_provider : String → Api Json
  delete_provider name = send_json browser Method.delete ("/providers/" <> browser.encode name) none

  unfoldable pub list_models : Api Json
  list_models = get_json browser "/models" []

  unfoldable pub create_model : Json → Api Json
  create_model m = send_json browser Method.post "/models" (some m)

  unfoldable pub update_model : String → Json → Api Json
  update_model alias m = send_json browser Method.put ("/models/" <> browser.encode alias) (some m)

  unfoldable pub delete_model : String → Api Json
  delete_model alias = send_json browser Method.delete ("/models/" <> browser.encode alias) none

  unfoldable pub list_routes : Api Json
  list_routes = get_json browser "/routes" []

  unfoldable pub create_route : Json → Api Json
  create_route r = send_json browser Method.post "/routes" (some r)

  unfoldable pub update_route : String → Json → Api Json
  update_route alias r = send_json browser Method.put ("/routes/" <> browser.encode alias) (some r)

  unfoldable pub delete_route : String → Api Json
  delete_route alias = send_json browser Method.delete ("/routes/" <> browser.encode alias) none

  unfoldable pub reload_config : Api Json
  reload_config = send_json browser Method.post "/config/reload" none

  unfoldable pub reveal_config_folder : Api Json
  reveal_config_folder = send_json browser Method.post "/config/reveal" none

  unfoldable pub quit_app : Api Json
  quit_app = send_json browser Method.post "/app/quit" none

  unfoldable pub get_settings : Api Json
  get_settings = get_json browser "/settings" []

  unfoldable pub update_settings : Json → Api Json
  update_settings s = send_json browser Method.put "/settings" (some s)

  unfoldable pub get_api_key : Api Json
  get_api_key = get_json browser "/apikey" []

  unfoldable pub rotate_api_key : Api Json
  rotate_api_key = send_json browser Method.post "/apikey/rotate" none

  unfoldable pub playground_chat : String → String → Api Json
  playground_chat model prompt =
      send_json browser Method.post "/playground/chat"
        (some (object (("model", str model) ∷ ("prompt", str prompt) ∷ [])))

  unfoldable pub list_prompts : List (String × Param) → Api Json
  list_prompts opts = get_json browser "/prompts" opts

  unfoldable pub create_prompt : Json → Api Json
  create_prompt p = send_json browser Method.post "/prompts" (some p)

  unfoldable pub update_prompt : ℕ → Json → Api Json
  update_prompt id p = send_json browser Method.put ("/prompts/" <> decimal id) (some p)

  unfoldable pub delete_prompt : ℕ → Api Json
  delete_prompt id = send_json browser Method.delete ("/prompts/" <> decimal id) none

  unfoldable pub get_dispatch_steps : String → Api Json
  get_dispatch_steps request_id = get_json browser ("/dispatch-steps/" <> request_id) []

  unfoldable pub get_provider_health : Api Json
  get_provider_health = get_json browser "/provider-health" []

  unfoldable pub favorite_session : String → Api Json
  favorite_session session_id =
      send_json browser Method.put ("/session-favorites/" <> browser.encode session_id)
        (some (object []))

  unfoldable pub unfavorite_session : String → Api Json
  unfavorite_session session_id =
      send_json browser Method.delete ("/session-favorites/" <> browser.encode session_id)
        (some (object []))

  unfoldable pub delete_session : String → Api Json
  delete_session session_id =
      send_json browser Method.delete ("/sessions/" <> browser.encode session_id) (some (object []))

  abbrev purge_body : Option String → List (String × Json)
  purge_body none = []
  purge_body (some []) = []
  purge_body (some (c ∷ s)) = ("before", str (c ∷ s)) ∷ []

  unfoldable pub purge_observation : Option String → Api Json
  purge_observation before =
      send_json browser Method.post "/observation/purge" (some (object (purge_body before)))
