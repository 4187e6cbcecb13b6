-- ===== src/Web/Actions/Routes.antt =====
-- web/src/app/[locale]/(dashboard)/routes/actions.ts
use Prim.Native.String.{String, [], ◌∷◌}
use voxeltoad.Common.{
  ℕ, ◌+◌, ◌||◌, Option, none, some, List, [], ◌∷◌, ◌++◌, if◌then◌else◌, get_elem?,
}
use voxeltoad.Js.Number.{is_nan}
use voxeltoad.Js.Json.{Json, num, str, object, array}
use voxeltoad.Js.Runtime.{Runtime}
use voxeltoad.Web.Action.{post, patch, delete, Action, pure}
use voxeltoad.Web.Client.{Site}
use voxeltoad.Web.Errors.{FormResult}
use voxeltoad.Web.Form.{
  FormData, text_field, get_all, or_empty, is_blank, field_if_text, reject, submit,
}

module _ (rt : Runtime) where
  -- one provider of the route, from its name and the weight that stands beside it, if any
  unfoldable pub provider_entry : String → Option String → List Json
  provider_entry name weight_raw =
      let weight = rt.number (or_empty weight_raw) in
      let weight_field =
        if is_blank (or_empty weight_raw) || is_nan weight
        then []
        else ("weight", num weight) ∷ [] in
      if is_blank name then [] else object (("name", str name) ∷ weight_field) ∷ []

  -- `providerNames.map(…).filter((p) => p.name !== "")`
  unfoldable pub route_providers : ℕ → List String → List String → List Json
  route_providers i [] weights = []
  route_providers i (name ∷ names) weights =
      provider_entry name (get_elem? weights i) ++ route_providers (i + 1) names weights

  unfoldable pub providers_of : FormData → List Json
  providers_of form =
      route_providers 0 (get_all form "route_provider_name") (get_all form "route_provider_weight")

  abbrev if_any : List Json → List (String × Json)
  if_any [] = []
  if_any (p ∷ ps) = ("providers", array (p ∷ ps)) ∷ []

module _ (rt : Runtime) (site : Site) where
  unfoldable pub upsert_route : FormData → Action FormResult
  upsert_route form =
      let model_alias = text_field form "model_alias" in
      let strategy = text_field form "strategy" in
      if is_blank model_alias
      then pure (reject "model alias is required")
      else submit site "/routes" post "/api/v1/routes" [] []
          (some (
            object (
              ("model_alias", str model_alias)
              ∷ (if_any rt (providers_of rt form) ++ field_if_text "strategy" strategy))))
          "create/update failed"

  unfoldable pub update_route : FormData → Action FormResult
  update_route form =
      let model_alias = text_field form "model_alias" in
      let strategy = text_field form "strategy" in
      if is_blank model_alias
      then pure (reject "model alias is required")
      else submit site "/routes" patch "/api/v1/routes/{alias}" (("alias", str model_alias) ∷ []) []
          (some (
            object
              (("providers", array (providers_of rt form)) ∷ field_if_text "strategy" strategy)))
          "update failed"

module _ (site : Site) where
  unfoldable pub delete_route : String → Action FormResult
  delete_route model_alias =
      submit site "/routes" delete "/api/v1/routes/{alias}" (("alias", str model_alias) ∷ []) []
        none "delete failed"
