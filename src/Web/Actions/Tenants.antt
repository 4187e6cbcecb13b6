-- ===== src/Web/Actions/Tenants.antt =====
-- web/src/app/[locale]/(dashboard)/tenants/actions.ts
use Prim.Native.String.{String, [], ◌∷◌}
use voxeltoad.Common.{Bool, some, [], ◌∷◌, if◌then◌else◌}
use voxeltoad.Js.Json.{bool, str, object}
use voxeltoad.Web.Action.{post, patch, Action, pure}
use voxeltoad.Web.Client.{Site}
use voxeltoad.Web.Errors.{FormResult}
use voxeltoad.Web.Form.{FormData, text_field, is_blank, reject, submit}

module _ (site : Site) where
  unfoldable pub create_tenant : FormData → Action FormResult
  create_tenant form =
      let name = text_field form "name" in
      if is_blank name
      then pure (reject "name is required")
      else submit site "/tenants" post "/api/v1/tenants" [] []
          (some (object (("name", str name) ∷ []))) "create failed"

  unfoldable pub set_tenant_enabled : String → Bool → Action FormResult
  set_tenant_enabled name enabled =
      submit site "/tenants" patch "/api/v1/tenants/{name}" (("name", str name) ∷ []) []
        (some (object (("enabled", bool enabled) ∷ []))) "update failed"
