-- ===== src/Web/Actions/Groups.antt =====
-- web/src/app/[locale]/(dashboard)/groups/actions.ts
use Prim.Native.String.{String, [], ◌∷◌}
use voxeltoad.Common.{Bool, none, some, [], ◌∷◌, if◌then◌else◌}
use voxeltoad.Js.Json.{bool, str, object}
use voxeltoad.Web.Action.{post, patch, delete, Action, pure}
use voxeltoad.Web.Client.{Site}
use voxeltoad.Web.Errors.{FormResult}
use voxeltoad.Web.Form.{FormData, text_field, is_blank, reject, submit}

module _ (site : Site) where
  unfoldable pub create_group : FormData → Action FormResult
  create_group form =
      let name = text_field form "name" in
      if is_blank name
      then pure (reject "name is required")
      else submit site "/groups" post "/api/v1/groups" [] []
          (some (object (("name", str name) ∷ []))) "create failed"

  unfoldable pub set_group_enabled : String → Bool → Action FormResult
  set_group_enabled name enabled =
      submit site "/groups" patch "/api/v1/groups/{name}" (("name", str name) ∷ []) []
        (some (object (("enabled", bool enabled) ∷ []))) "update failed"

  unfoldable pub delete_group : String → Action FormResult
  delete_group name =
      submit site "/groups" delete "/api/v1/groups/{name}" (("name", str name) ∷ []) [] none
        "delete failed"
