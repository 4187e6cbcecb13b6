-- ===== src/Web/Actions/Providers.antt =====
-- web/src/app/[locale]/(dashboard)/providers/actions.ts
pub mod Credential
pub mod Rotation
use Prim.Native.String.{String, [], ◌∷◌}
use voxeltoad.Common.{
  ℕ, zero, suc, ◌+◌, ◌*◌, ◌^◌, Bool, true, false, not, ◌&&◌, ◌||◌, Option, none, some, List, [],
  ◌∷◌, ◌++◌, map, str_eq, code, leb, ltb, ◌==◌, if◌then◌else◌, ◌<>◌, trim, get_elem?, is_space,
}
use voxeltoad.Common.Int.{ℤ, pos, negsuc}
use voxeltoad.Js.Number.{
  Number, nan, infinite, finite, int, truthy, is_positive, le_zero, is_nan, is_safe_integer,
}
use voxeltoad.Js.Json.{Json, null, bool, num, str, object, array, obj, entries, lookup}
use voxeltoad.Js.Exception.{
  Exception, admin_error, range_error, redirecting, other_error, Outcome, returned, threw,
  exception_text,
}
use voxeltoad.Js.Runtime.{Runtime}
use voxeltoad.Web.I18n.{MappedError, map_backend_error}
use voxeltoad.Web.Session.{SessionData, has, includes}
use voxeltoad.Web.Action.{
  Method, post, patch, put, delete, get, Action, pure, throw, lift, try_catch, revalidate_path,
  redirect, ◌>>=◌, ◌>>◌,
}
use voxeltoad.Web.Client.{
  Site, Result, AdminClient, is_ok, server_admin_client, anon_admin_client, create_admin_client,
  send, unwrap, get_session, set_session, clear_session, ErrorBody,
}
use voxeltoad.Web.Errors.{
  FormResult, ok, rejected, rejected_by, failure_of, to_form_error, on_auth_expired, message_or,
  is_error,
}
use voxeltoad.Web.Form.{
  FormData, text_field, get_field, number_field, get_all, or_empty, is_blank, field_if_text, reject,
  call, attempt, finish, submit,
}

abbrev element : List String → ℕ → String
element xs i = or_empty (get_elem? xs i)

-- one row of `collectEndpoints`, from the i-th elements of the three lists
abbrev endpoint_row : String → String → String → List Json
endpoint_row id adapter base_url =
    if is_blank adapter && is_blank base_url
    then []
    else object
        (field_if_text "id" id ++ (("adapter", str adapter) ∷ ("base_url", str base_url) ∷ []))
      ∷ []

-- the loop of `collectEndpoints` over the adapters
unfoldable pub collect_rows : ℕ → List String → List String → List String → List Json
collect_rows i [] base_urls ids = []
collect_rows i (adapter ∷ adapters) base_urls ids =
    endpoint_row (trim (element ids i)) (trim adapter) (trim (element base_urls i))
    ++ collect_rows (i + 1) adapters base_urls ids

unfoldable pub collect_endpoints : FormData → List Json
unfolding collect_rows
collect_endpoints form =
    collect_rows 0 (get_all form "endpoint_adapter") (get_all form "endpoint_base_url")
      (get_all form "endpoint_id")

-- `if (endpoints.length > 0) body.endpoints = endpoints`
abbrev pub field_if_any : String → List Json → List (String × Json)
field_if_any key [] = []
field_if_any key (x ∷ xs) = (key, array (x ∷ xs)) ∷ []

module _ (rt : Runtime) where
  -- `if (weight) body.weight = Number(weight)`
  unfoldable pub weight_field : String → List (String × Json)
  weight_field weight = if is_blank weight then [] else ("weight", num (rt.number weight)) ∷ []

  unfoldable pub create_body : FormData → String → Json
  create_body form name = object (
      ("name", str name)
      ∷ (field_if_text "type" (text_field form "type")
          ++ (field_if_any "endpoints" (collect_endpoints form)
              ++ (field_if_text "api_key" (text_field form "api_key")
                  ++ (field_if_text "api_key_ref" (text_field form "api_key_ref")
                      ++ weight_field (text_field form "weight"))))))

  -- the body of `updateProvider` is without the credential, and without its reference if the
  -- credential is being rotated
  unfoldable pub update_fields : FormData → List (String × Json)
  update_fields form =
      field_if_text "type" (text_field form "type")
      ++ (field_if_any "endpoints" (collect_endpoints form)
          ++ ((if is_blank (text_field form "api_key")
                then field_if_text "api_key_ref" (text_field form "api_key_ref")
                else [])
              ++ weight_field (text_field form "weight")))

module _ (rt : Runtime) (site : Site) where
  unfoldable pub create_provider : FormData → Action FormResult
  create_provider form =
      let name = text_field form "name" in
      if is_blank name
      then pure (reject "name is required")
      else submit site "/providers" post "/api/v1/providers" [] [] (some (create_body rt form name))
          "create failed"

  -- step (a): the generic update, if there is a field to send
  unfoldable pub update_generic :
      AdminClient → String → List (String × Json) → Action (Option FormResult)
  update_generic client name [] = pure none
  update_generic client name (f ∷ fs) = do
    result ←
        send site client patch "/api/v1/providers/{name}" (("name", str name) ∷ []) []
          (some (object (f ∷ fs)))
    pure (failure_of result "update failed")

  -- step (b): the rotation of the credential, if a key was given
  unfoldable pub update_credential : AdminClient → String → String → Action (Option FormResult)
  update_credential client name [] = pure none
  update_credential client name (c ∷ key) = do
    result ←
        send site client patch "/api/v1/providers/{name}/credential" (("name", str name) ∷ []) []
          (some (object (("api_key", str (c ∷ key)) ∷ [])))
    pure (failure_of result "credential update failed")

  unfoldable pub update_steps : FormData → String → Action (Option FormResult)
  update_steps form name = do
    client ← server_admin_client site
    generic ← update_generic client name (update_fields rt form)
    elim generic [
      | some result ↦ pure (some result)
      | none ↦ update_credential client name (text_field form "api_key")
    ]

  unfoldable pub update_provider : FormData → Action FormResult
  update_provider form =
      let name = text_field form "name" in
      if is_blank name
      then pure (reject "name is required")
      else (do outcome ← attempt site (update_steps form name); finish "/providers" outcome)

module _ (site : Site) where
  unfoldable pub delete_provider : String → Action FormResult
  delete_provider name =
      submit site "/providers" delete "/api/v1/providers/{name}" (("name", str name) ∷ []) [] none
        "delete failed"

-- `ProviderTestOutcome`
pub data ProviderTestOutcome : Type 0 where
  passed : Json → Option Json → ProviderTestOutcome
  failed : String → Option String → ProviderTestOutcome

pub record ProviderTestSpec : Type 0 where
  pub name : String
  pub adapter : String
  pub base_url : String
  pub api_key : String
  pub api_key_ref : String

abbrev is_true : Option Json → Bool
is_true (some (bool b)) = b
is_true _ = false

abbrev or_null : Option Json → Json
or_null none = null
or_null (some v) = v

abbrev error_of : Option Json → String
error_of (some (str s)) = s
error_of _ = "test failed"

-- `toOutcome`, on a payload of the type that the API documents
unfoldable pub to_outcome : Option Json → ProviderTestOutcome
to_outcome (some (obj fs)) =
    if is_true (lookup "ok" (entries fs))
    then passed (or_null (lookup "latency_ms" (entries fs))) (lookup "status" (entries fs))
    else failed (error_of (lookup "error" (entries fs))) none
to_outcome _ = failed "test failed" none

-- `testHttpFailure`
unfoldable pub test_http_failure : Option ErrorBody → ProviderTestOutcome
test_http_failure error =
    let mapped = map_backend_error (message_or error "test failed") in
    failed mapped.fallback mapped.key

abbrev of_form_error : FormResult → ProviderTestOutcome
of_form_error ok = failed "unexpected error" none
of_form_error (rejected error key) = failed error key

module _ (site : Site) where
  unfoldable pub run_test : String → List (String × Json) → Option Json → Action ProviderTestOutcome
  run_test path path_params body =
      try_catch
        (do
          client ← server_admin_client site
          result ← send site client post path path_params [] body
          pure (
              if is_error result.error || not (is_ok result)
              then test_http_failure result.error
              else to_outcome result.payload))
        (λ err. do fe ← to_form_error site err; pure (of_form_error fe))

  unfoldable pub test_provider : String → Action ProviderTestOutcome
  test_provider name = run_test "/api/v1/providers/{name}/test" (("name", str name) ∷ []) none

  unfoldable pub test_provider_connection : ProviderTestSpec → Action ProviderTestOutcome
  test_provider_connection spec = run_test "/api/v1/provider-tests" [] (
      some (
        object (
          ("adapter", str spec.adapter)
          ∷ ("base_url", str spec.base_url)
          ∷ (field_if_text "name" spec.name
              ++ (field_if_text "api_key" spec.api_key
                  ++ field_if_text "api_key_ref" spec.api_key_ref)))))
