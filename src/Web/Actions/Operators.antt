-- ===== src/Web/Actions/Operators.antt =====
-- web/src/app/[locale]/(dashboard)/operators/actions.ts
use Prim.Native.String.{[], ◌∷◌}
use voxeltoad.Common.{not, ◌&&◌, ◌||◌, none, some, [], ◌∷◌, ◌++◌, if◌then◌else◌}
use voxeltoad.Js.Number.{Number, truthy}
use voxeltoad.Js.Json.{num, str, object}
use voxeltoad.Js.Runtime.{Runtime}
use voxeltoad.Web.Action.{post, put, delete, Action, pure}
use voxeltoad.Web.Client.{Site}
use voxeltoad.Web.Errors.{FormResult, rejected}
use voxeltoad.Web.Form.{FormData, text_field, number_field, is_blank, field_if_text, reject, submit}

module _ (rt : Runtime) (site : Site) where
  unfoldable pub create_operator : FormData → Action FormResult
  create_operator form =
      let email = text_field form "email" in
      let password = text_field form "password" in
      let role_id_raw = text_field form "role_id" in
      let tenant_id = text_field form "tenant_id" in
      if is_blank email || is_blank password
      then pure (reject "email and password are required")
      else if is_blank role_id_raw
      then pure (reject "role is required")
      else submit site "/operators" post "/api/v1/operators" [] []
          (some (
            object (
              ("email", str email)
              ∷ ("password", str password)
              ∷ ("role_id", num (rt.number role_id_raw))
              ∷ (if is_blank tenant_id
                  then []
                  else ("tenant_id", num (rt.number tenant_id)) ∷ []))))
          "create failed"

  unfoldable pub update_operator : FormData → Action FormResult
  update_operator form =
      let id = number_field rt form "id" in
      let email = text_field form "email" in
      let password = text_field form "password" in
      let tenant_id = text_field form "tenant_id" in
      if not (truthy id)
      then pure (rejected "operator id is required" none)
      else if is_blank email && is_blank password && is_blank tenant_id
      then pure (reject "at least one field must be provided")
      else submit site "/operators" put "/api/v1/operators/{id}" (("id", num id) ∷ []) []
          (some (
            object (
              field_if_text "email" email
              ++ (field_if_text "password" password
                  ++ (if is_blank tenant_id
                      then []
                      else ("tenant_id", num (rt.number tenant_id)) ∷ [])))))
          "update failed"

  unfoldable pub delete_operator : Number → Action FormResult
  delete_operator id =
      submit site "/operators" delete "/api/v1/operators/{id}" (("id", num id) ∷ []) [] none
        "delete failed"
