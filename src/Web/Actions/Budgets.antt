-- ===== src/Web/Actions/Budgets.antt =====
-- web/src/app/[locale]/(dashboard)/budgets/actions.ts. The translations of next-intl are a
-- parameter, `t`.
pub mod Guard
use Prim.Native.String.{String, [], ◌∷◌}
use voxeltoad.Common.{
  ℕ, zero, suc, ◌+◌, ◌*◌, ◌^◌, Bool, true, false, not, ◌&&◌, ◌||◌, Option, none, some, List, [],
  ◌∷◌, ◌++◌, map, str_eq, code, leb, ltb, ◌==◌, if◌then◌else◌, ◌<>◌, trim, get_elem?, is_space,
}
use voxeltoad.Common.Int.{ℤ, pos, negsuc}
use voxeltoad.Js.Number.{
  Number, nan, infinite, finite, int, truthy, is_positive, le_zero, is_nan, is_safe_integer,
}
use voxeltoad.Js.Json.{Json, null, bool, num, str, object, array, obj, entries, lookup}
use voxeltoad.Js.Exception.{
  Exception, admin_error, range_error, redirecting, other_error, Outcome, returned, threw,
  exception_text,
}
use voxeltoad.Js.Runtime.{Runtime}
use voxeltoad.Web.I18n.{MappedError, map_backend_error}
use voxeltoad.Web.Session.{SessionData, has, includes}
use voxeltoad.Web.Action.{
  Method, post, patch, put, delete, get, Action, pure, throw, lift, try_catch, revalidate_path,
  redirect, ◌>>=◌, ◌>>◌,
}
use voxeltoad.Web.Client.{
  Site, Result, AdminClient, is_ok, server_admin_client, anon_admin_client, create_admin_client,
  send, unwrap, get_session, set_session, clear_session, ErrorBody,
}
use voxeltoad.Web.Errors.{
  FormResult, ok, rejected, rejected_by, failure_of, to_form_error, on_auth_expired, message_or,
  is_error,
}
use voxeltoad.Web.Form.{
  FormData, text_field, get_field, number_field, get_all, or_empty, is_blank, field_if_text, reject,
  call, attempt, finish, submit,
}
use voxeltoad.Money.{display_to_micro}
use voxeltoad.Js.Exception
use voxeltoad.Web.Actions.Lists.{split_at_code}

abbrev pub equals : Option String → String → Bool
equals none s = false
equals (some x) s = str_eq x s

-- `String(form.get(key))`, which is "null" for a missing field
abbrev or_null_text : Option String → String
or_null_text none = "null"
or_null_text (some s) = s

abbrev or_utc : Option String → String
or_utc none = "UTC"
or_utc (some s) = s

-- `filter((item) => item.trim() !== "")`
unfoldable pub nonblank : List String → List String
nonblank [] = []
nonblank (item ∷ items) =
    let rest = nonblank items in if is_blank (trim item) then rest else item ∷ rest

module _ (rt : Runtime) where
  -- `amount`: a safe integer of micro-units, or a RangeError
  unfoldable pub amount : Option String → Outcome Number
  amount input = Exception.◌>>=◌ (display_to_micro rt (or_empty input)) (λ value.
      if is_safe_integer value
      then returned value
      else threw (range_error "unsafe monetary amount"))

  unfoldable pub thresholds : Option String → Json
  thresholds raw =
      array (map (λ x. num (rt.number x)) (nonblank (split_at_code b',' (or_empty raw))))

module _ (t : String → String) (site : Site) where
  unfoldable pub write_guard : String → String → Action (Option FormResult)
  write_guard tenant permission = do
    session ← get_session site
    pure (
        if not (equals session.scope_kind "global") || not (has session permission)
        then some (rejected (t "forbiddenWrite") none)
        else if is_blank (trim tenant)
        then some (rejected (t "selectTenant") none)
        else none)

  abbrev pub remap : FormResult → FormResult
  remap ok = ok
  remap (rejected error key) = rejected_by (map_backend_error error)

  unfoldable pub action_error : Exception → Action FormResult
  action_error (range_error message) = pure (rejected (t "invalidAmount") none)
  action_error err = do result ← to_form_error site err; pure (remap result)

  -- `unwrap(await client.METHOD(path, { params, body }))` in a block that builds its body first
  unfoldable pub budget_request :
      Outcome Json
      → Method
      → String
      → List (String × Json)
      → List (String × Json)
      → Action (Option FormResult)
  budget_request body method path path_params query = do
    content ← lift body
    client ← server_admin_client site
    result ← send site client method path path_params query (some content)
    data_ ← lift (unwrap result)
    pure none

  -- what all three actions do behind their guard
  unfoldable pub guarded : String → String → Action (Option FormResult) → Action FormResult
  guarded tenant permission block = do
    denied ← write_guard tenant permission
    elim denied [
      | some result ↦ pure result
      | none ↦ do
        outcome ← try_catch block (λ err. do result ← action_error err; pure (some result))
        elim outcome [
          | some result ↦ pure result
          | none ↦ do
            revalidate_path "/[locale]/budgets"
            revalidate_path "/[locale]/budgets/[id]"
            pure ok
        ]
    ]

module _ (rt : Runtime) (t : String → String) (site : Site) where
  unfoldable pub budget_spec : FormData → Outcome Json
  budget_spec form = Exception.◌>>=◌ (amount rt (get_field form "limit")) (λ limit. returned (
      object (
        ("name", str (text_field form "name"))
        ∷ ("scope_kind", str (or_null_text (get_field form "scope_kind")))
        ∷ ("scope_ref", str (text_field form "scope_ref"))
        ∷ ("environment", str (or_empty (get_field form "environment")))
        ∷ ("period", str (or_null_text (get_field form "period")))
        ∷ ("timezone", str (trim (or_utc (get_field form "timezone"))))
        ∷ ("currency", str (or_null_text (get_field form "currency")))
        ∷ ("limit", num limit)
        ∷ ("mode", str (or_null_text (get_field form "mode")))
        ∷ ("thresholds", thresholds rt (get_field form "thresholds"))
        ∷ [])))

  unfoldable pub create_budget : String → FormData → Action FormResult
  create_budget tenant form = guarded t site tenant "budget.write" (
      budget_request t site (budget_spec form) post "/api/v1/budgets" []
        (("tenant", str tenant) ∷ []))

  unfoldable pub budget_patch : Number → FormData → Outcome Json
  budget_patch version form =
      let base : List (String × Json) =
        ("version", num version)
        ∷ ("enabled", bool (equals (get_field form "enabled") "true"))
        ∷ [] in
      let changed =
        Exception.◌>>=◌ (amount rt (get_field form "limit"))
          (λ limit. returned (object (base ++ ("limit", num limit) ∷ []))) in
      if equals (get_field form "limitChanged") "true" then changed else returned (object base)

  unfoldable pub update_budget : String → Number → Number → FormData → Action FormResult
  update_budget tenant id version form = guarded t site tenant "budget.write" (
      budget_request t site (budget_patch version form) patch "/api/v1/budgets/{id}"
        (("id", num id) ∷ []) (("tenant", str tenant) ∷ []))

  unfoldable pub resolution : Number → FormData → Outcome Json
  resolution version form =
      let action = or_null_text (get_field form "action") in
      let base : List (String × Json) =
        ("version", num version)
        ∷ ("action", str action)
        ∷ ("reason", str (text_field form "reason"))
        ∷ ("evidence", str (text_field form "evidence"))
        ∷ [] in
      let settled =
        Exception.◌>>=◌ (amount rt (get_field form "actual"))
          (λ actual. returned (object (base ++ ("actual", num actual) ∷ []))) in
      if str_eq action "settle" then settled else returned (object base)

  unfoldable pub resolve_reservation : String → String → Number → FormData → Action FormResult
  resolve_reservation tenant id version form = guarded t site tenant "budget.resolve" (
      budget_request t site (resolution version form) post
        "/api/v1/billing-reservations/{id}/resolve" (("id", str id) ∷ [])
        (("tenant", str tenant) ∷ []))
