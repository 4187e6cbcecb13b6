-- ===== src/Web/Actions/Roles.antt =====
-- web/src/app/[locale]/(dashboard)/roles/actions.ts: these actions throw by `unwrap`, and map the
-- text of whatever was thrown.
pub mod Keyless
use Prim.Native.String.{String, [], ◌∷◌}
use voxeltoad.Common.{
  ℕ, zero, suc, ◌+◌, ◌*◌, ◌^◌, Bool, true, false, not, ◌&&◌, ◌||◌, Option, none, some, List, [],
  ◌∷◌, ◌++◌, map, str_eq, code, leb, ltb, ◌==◌, if◌then◌else◌, ◌<>◌, trim, get_elem?, is_space,
}
use voxeltoad.Common.Int.{ℤ, pos, negsuc}
use voxeltoad.Js.Number.{
  Number, nan, infinite, finite, int, truthy, is_positive, le_zero, is_nan, is_safe_integer,
}
use voxeltoad.Js.Json.{Json, null, bool, num, str, object, array, obj, entries, lookup}
use voxeltoad.Js.Exception.{
  Exception, admin_error, range_error, redirecting, other_error, Outcome, returned, threw,
  exception_text,
}
use voxeltoad.Js.Runtime.{Runtime}
use voxeltoad.Web.I18n.{MappedError, map_backend_error}
use voxeltoad.Web.Session.{SessionData, has, includes}
use voxeltoad.Web.Action.{
  Method, post, patch, put, delete, get, Action, pure, throw, lift, try_catch, revalidate_path,
  redirect, ◌>>=◌, ◌>>◌,
}
use voxeltoad.Web.Client.{
  Site, Result, AdminClient, is_ok, server_admin_client, anon_admin_client, create_admin_client,
  send, unwrap, get_session, set_session, clear_session, ErrorBody,
}
use voxeltoad.Web.Errors.{
  FormResult, ok, rejected, rejected_by, to_form_error, on_auth_expired, message_or, is_error,
}
use voxeltoad.Web.Form.{
  FormData, text_field, get_field, number_field, get_all, or_empty, is_blank, field_if_text, reject,
  call, attempt, finish, submit,
}
use voxeltoad.Web.Actions.Lists.{split_at_code, nonempty}

-- `permsStr ? permsStr.split(",").filter(Boolean) : []`
unfoldable pub parse_permissions : String → List String
parse_permissions [] = []
parse_permissions (c ∷ s) = nonempty (split_at_code b',' (c ∷ s))

abbrev strings : List String → Json
strings xs = array (map (λ x. str x) xs)

abbrev or_tenant : Option String → String
or_tenant none = "tenant"
or_tenant (some s) = s

module _ (site : Site) where
  -- `client.METHOD(…)` under `unwrap`, then `revalidatePath("/roles"); return { ok: true };`
  unfoldable pub role_request :
      Method → String → List (String × Json) → Option Json → Action FormResult
  role_request method path path_params body = do
    client ← server_admin_client site
    result ← send site client method path path_params [] body
    data_ ← lift (unwrap result)
    revalidate_path "/roles"
    pure ok

  unfoldable pub create_role : FormData → Action FormResult
  create_role form =
      let name = text_field form "name" in
      let scope_kind = trim (or_tenant (get_field form "scope_kind")) in
      let description = text_field form "description" in
      let permissions = parse_permissions (text_field form "permissions") in
      if is_blank name
      then pure (rejected "Name is required" none)
      else try_catch
          (role_request post "/api/v1/roles" [] (
            some (
              object (
                ("name", str name)
                ∷ ("scope_kind", str scope_kind)
                ∷ ("description", str description)
                ∷ ("permissions", strings permissions)
                ∷ []))))
          (λ err. pure (rejected_by (map_backend_error (exception_text err))))

module _ (rt : Runtime) (site : Site) where
  unfoldable pub update_role : FormData → Action FormResult
  update_role form =
      let id = number_field rt form "role_id" in
      let description = text_field form "description" in
      let permissions = parse_permissions (text_field form "permissions") in
      if not (truthy id)
      then pure (rejected "Role ID is required" none)
      else try_catch
          (role_request site patch "/api/v1/roles/{id}" (("id", num id) ∷ []) (
            some (
              object
                (("permissions", strings permissions) ∷ field_if_text "description" description))))
          (λ err. pure (rejected_by (map_backend_error (exception_text err))))

module _ (site : Site) where
  unfoldable pub delete_role : Number → Action FormResult
  delete_role id =
      try_catch (role_request site delete "/api/v1/roles/{id}" (("id", num id) ∷ []) none)
        (λ err. pure (rejected (map_backend_error (exception_text err)).fallback none))
