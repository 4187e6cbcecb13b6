-- ===== src/Web/Actions/Plugins.antt =====
-- web/src/app/[locale]/(dashboard)/plugins/actions.ts
use Prim.Native.String.{String, [], ◌∷◌}
use voxeltoad.Common.{
  Bool, true, false, Option, none, some, List, [], ◌∷◌, ◌++◌, str_eq, if◌then◌else◌,
}
use voxeltoad.Js.Json.{Json, bool, str, object}
use voxeltoad.Js.Runtime.{Runtime}
use voxeltoad.Web.Action.{post, patch, delete, Action, pure}
use voxeltoad.Web.Client.{Site}
use voxeltoad.Web.Errors.{FormResult}
use voxeltoad.Web.Form.{FormData, text_field, get_field, is_blank, field_if_text, reject, submit}

abbrev is_true : Option String → Bool
is_true none = false
is_true (some s) = str_eq s "true"

-- `scope || undefined`: the query parameter is left out when it is empty
abbrev scope_query : String → List (String × Json)
scope_query scope = field_if_text "scope" scope

module _ (rt : Runtime) where
  -- `if (paramsJson) body.params = JSON.parse(paramsJson)`; `none` is the SyntaxError
  unfoldable pub params_field : String → Option (List (String × Json))
  params_field params_json =
      if is_blank params_json
      then some []
      else elim (rt.json_parse params_json) [ none ↦ none | some v ↦ some (("params", v) ∷ []) ]

module _ (rt : Runtime) (site : Site) where
  unfoldable pub upsert_plugin : FormData → Action FormResult
  upsert_plugin form =
      let name = text_field form "name" in
      if is_blank name
      then pure (reject "plugin name is required")
      else elim (params_field rt (text_field form "params_json")) [
        | none ↦ pure (reject "invalid params JSON")
        | some params ↦
            submit site "/plugins" post "/api/v1/plugins" [] []
              (some (
                object (
                  ("name", str name)
                  ∷ (field_if_text "phase" (text_field form "phase")
                      ++ ((if is_true (get_field form "enabled")
                            then ("enabled", bool true) ∷ []
                            else [])
                          ++ (field_if_text "scope" (text_field form "scope") ++ params))))))
              "upsert failed"
      ]

  unfoldable pub update_plugin : FormData → Action FormResult
  update_plugin form =
      let name = text_field form "name" in
      if is_blank name
      then pure (reject "plugin name is required")
      else elim (params_field rt (text_field form "params_json")) [
        | none ↦ pure (reject "invalid params JSON")
        | some params ↦
            submit site "/plugins" patch "/api/v1/plugins/{name}" (("name", str name) ∷ [])
              (scope_query (text_field form "scope"))
              (some (
                object (
                  field_if_text "phase" (text_field form "phase")
                  ++ (("enabled", bool (is_true (get_field form "enabled"))) ∷ params))))
              "update failed"
      ]

module _ (site : Site) where
  unfoldable pub delete_plugin : String → String → Action FormResult
  delete_plugin name scope =
      submit site "/plugins" delete "/api/v1/plugins/{name}" (("name", str name) ∷ [])
        (scope_query scope) none "delete failed"
