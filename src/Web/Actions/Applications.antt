-- ===== src/Web/Actions/Applications.antt =====
-- web/src/app/[locale]/(dashboard)/applications/actions.ts
use Prim.Native.String.{String, [], ◌∷◌}
use voxeltoad.Common.{Bool, none, some, [], ◌∷◌, if◌then◌else◌}
use voxeltoad.Js.Json.{bool, str, object}
use voxeltoad.Web.Action.{post, patch, delete, Action, pure}
use voxeltoad.Web.Client.{Site}
use voxeltoad.Web.Errors.{FormResult}
use voxeltoad.Web.Form.{FormData, text_field, is_blank, reject, submit}

module _ (site : Site) where
  unfoldable pub create_application : FormData → Action FormResult
  create_application form =
      let name = text_field form "name" in
      let owner_group = text_field form "owner_group" in
      if is_blank name
      then pure (reject "name is required")
      else if is_blank owner_group
      then pure (reject "owner group is required")
      else submit site "/applications" post "/api/v1/applications" [] []
          (some (object (("name", str name) ∷ ("owner_group", str owner_group) ∷ [])))
          "create failed"

  unfoldable pub set_application_enabled : String → Bool → Action FormResult
  set_application_enabled name enabled =
      submit site "/applications" patch "/api/v1/applications/{name}" (("name", str name) ∷ []) []
        (some (object (("enabled", bool enabled) ∷ []))) "update failed"

  unfoldable pub delete_application : String → Action FormResult
  delete_application name =
      submit site "/applications" delete "/api/v1/applications/{name}" (("name", str name) ∷ []) []
        none "delete failed"
