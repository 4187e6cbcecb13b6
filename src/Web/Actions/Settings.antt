-- ===== src/Web/Actions/Settings.antt =====
-- web/src/app/[locale]/(dashboard)/settings/actions.ts
pub mod Saved
use Prim.Native.String.{String, [], ◌∷◌}
use voxeltoad.Common.{
  ℕ, zero, suc, ◌+◌, ◌*◌, ◌^◌, Bool, true, false, not, ◌&&◌, ◌||◌, Option, none, some, List, [],
  ◌∷◌, ◌++◌, map, str_eq, code, leb, ltb, ◌==◌, if◌then◌else◌, ◌<>◌, trim, get_elem?, is_space,
}
use voxeltoad.Common.Int.{ℤ, pos, negsuc}
use voxeltoad.Js.Number.{
  Number, nan, infinite, finite, int, truthy, is_positive, le_zero, is_nan, is_safe_integer,
}
use voxeltoad.Js.Json.{Json, null, bool, num, str, object, array, obj, entries, lookup}
use voxeltoad.Js.Exception.{
  Exception, admin_error, range_error, redirecting, other_error, Outcome, returned, threw,
  exception_text,
}
use voxeltoad.Js.Runtime.{Runtime}
use voxeltoad.Web.I18n.{MappedError, map_backend_error}
use voxeltoad.Web.Session.{SessionData, has, includes}
use voxeltoad.Web.Action.{
  Method, post, patch, put, delete, get, Action, pure, throw, lift, try_catch, revalidate_path,
  redirect, ◌>>=◌, ◌>>◌,
}
use voxeltoad.Web.Client.{
  Site, Result, AdminClient, is_ok, server_admin_client, anon_admin_client, create_admin_client,
  send, unwrap, get_session, set_session, clear_session, ErrorBody,
}
use voxeltoad.Web.Errors.{
  FormResult, ok, rejected, rejected_by, to_form_error, on_auth_expired, message_or, is_error,
}
use voxeltoad.Web.Form.{
  FormData, text_field, get_field, get_all, or_empty, is_blank, field_if_text, reject, call,
  attempt, finish, submit,
}

abbrev is_true : Option String → Bool
is_true none = false
is_true (some s) = str_eq s "true"

-- `x || 0`
abbrev or_zero : Number → Number
or_zero x = if truthy x then x else int (pos 0)

module _ (rt : Runtime) (site : Site) where
  -- `Number(formData.get(key) ?? fallback) || 0`
  unfoldable pub setting : FormData → String → ℕ → Number
  setting form key fallback =
      or_zero (elim (get_field form key) [ none ↦ int (pos fallback) | some s ↦ rt.number s ])

  unfoldable pub settings_body : FormData → Json
  settings_body form = object (
      (
        "trace",
        object (
            ("capture_payload_enabled", bool (is_true (get_field form "capture_enabled")))
            ∷ ("max_body_kb", num (setting form "max_body_kb" 0))
            ∷ ("retention_days", num (setting form "retention_days" 7))
            ∷ []),
      )
      ∷ (
        "ingress",
        object (("anthropic_disabled", bool (is_true (get_field form "anthropic_disabled"))) ∷ []),
      )
      ∷ [])

  -- this action tests `error` alone, and not `response.ok`
  unfoldable pub settings_failure : Option ErrorBody → Option FormResult
  settings_failure none = none
  settings_failure (some body) = some (reject (message_or (some body) "save failed"))

  unfoldable pub update_settings : FormData → Action FormResult
  update_settings form = do
    outcome ← attempt site (do
      client ← server_admin_client site
      result ← send site client put "/api/v1/gateway-settings" [] [] (some (settings_body form))
      pure (settings_failure result.error))
    finish "/settings" outcome
