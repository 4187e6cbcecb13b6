-- ===== src/Web/Actions/Keys.antt =====
-- web/src/app/[locale]/(dashboard)/api-keys/actions.ts
pub mod Once
use Prim.Native.String.{String, [], ◌∷◌}
use voxeltoad.Common.{
  Bool, true, false, not, ◌&&◌, ◌||◌, Option, none, some, List, [], ◌∷◌, ◌++◌, map, str_eq,
  if◌then◌else◌,
}
use voxeltoad.Js.Json.{Json, null, num, str, object, array, obj, entries, lookup}
use voxeltoad.Js.Exception.{
  Exception, admin_error, range_error, redirecting, other_error, Outcome, returned, threw,
}
use voxeltoad.Js.Runtime.{Runtime}
use voxeltoad.Js.Access.{as_string, member}
use voxeltoad.Web.I18n.{map_backend_error}
use voxeltoad.Web.Action.{
  Method, post, patch, delete, Action, pure, throw, lift, try_catch, revalidate_path, ◌>>=◌, ◌>>◌,
}
use voxeltoad.Web.Client.{Site, server_admin_client, send, unwrap}
use voxeltoad.Web.Errors.{FormResult, ok, rejected, rejected_by, to_form_error}
use voxeltoad.Web.Form.{FormData, text_field, get_field, number_field, get_all, or_empty, is_blank}

-- `FormResult & { apiKey?: string }`: the result, and the key that was created
pub record KeyResult : Type 0 where
  pub result : FormResult
  pub api_key : Option String

abbrev pub without_key : FormResult → KeyResult
without_key r = record { result = r; api_key = none }

-- what `formError` makes of the result of `toFormError`
abbrev pub remap : Exception → FormResult → FormResult
remap err ok = ok
remap (admin_error status message type_name) (rejected error key) =
    rejected_by (map_backend_error message)
remap err (rejected error key) = rejected error key

-- `.filter(Boolean)` on texts
abbrev nonempty_texts : List String → List String
nonempty_texts [] = []
nonempty_texts (s ∷ ss) = let rest = nonempty_texts ss in if is_blank s then rest else s ∷ rest

abbrev is_true : Option String → Bool
is_true none = false
is_true (some s) = str_eq s "true"

abbrev is_empty : List String → Bool
is_empty [] = true
is_empty (s ∷ ss) = false

abbrev strings : List String → Json
strings ss = array (map (λ s. str s) ss)

-- `return { ok: true, apiKey: data.api_key }`, which throws if there are no data
abbrev pub created_key : Option Json → Action KeyResult
created_key none = throw (other_error "TypeError" "Cannot read properties of undefined")
created_key (some v) = do
  key ← lift (member "api_key" v)
  pure (record { result = ok; api_key = as_string key })

unfoldable pub allowed_models : FormData → List String
allowed_models form = nonempty_texts (get_all form "allowed_models")

module _ (site : Site) where
  unfoldable pub form_error : Exception → Action FormResult
  form_error err = do result ← to_form_error site err; pure (remap err result)

  -- `unwrap(await client.METHOD(…)); revalidatePath("/api-keys")`, with the data
  unfoldable pub key_request :
      Method → String → List (String × Json) → Option Json → Action (Option Json)
  key_request method path path_params body = do
    client ← server_admin_client site
    result ← send site client method path path_params [] body
    data_ ← lift (unwrap result)
    revalidate_path "/api-keys"
    pure data_

  unfoldable pub revoke_api_key : String → Action FormResult
  revoke_api_key key_id =
      try_catch
        (do
          data_ ← key_request delete "/api/v1/api-keys/{key_id}" (("key_id", str key_id) ∷ []) none
          pure ok)
        form_error

module _ (rt : Runtime) (site : Site) where
  unfoldable pub create_key_body : FormData → Json
  create_key_body form =
      let models = allowed_models form in
      object (
        ("key_id", str (text_field form "key_id"))
        ∷ ("group_id", num (number_field rt form "group_id"))
        ∷ ("application_id", num (number_field rt form "application_id"))
        ∷ ("environment", str (or_empty (get_field form "environment")))
        ∷ (if is_empty models then [] else ("allowed_models", strings models) ∷ []))

  unfoldable pub create_api_key : FormData → Action KeyResult
  create_api_key form =
      try_catch
        (do
          data_ ← key_request site post "/api/v1/api-keys" [] (some (create_key_body form))
          created_key data_)
        (λ err. do result ← form_error site err; pure (without_key result))

  unfoldable pub update_key_body : FormData → Json
  update_key_body form =
      let models = allowed_models form in
      let bind = is_true (get_field form "bind_identity") in
      object (
        (if not (is_empty models) || is_true (get_field form "had_models") || not bind
          then ("allowed_models", strings models) ∷ []
          else [])
        ++ (if bind
            then ("group_id", num (number_field rt form "group_id"))
              ∷ ("application_id", num (number_field rt form "application_id"))
              ∷ ("environment", str (or_empty (get_field form "environment")))
              ∷ []
            else []))

  unfoldable pub update_api_key : FormData → Action FormResult
  update_api_key form =
      try_catch
        (do
          data_ ←
              key_request site patch "/api/v1/api-keys/{key_id}"
                (("key_id", str (text_field form "key_id")) ∷ []) (some (update_key_body form))
          pure ok)
        (form_error site)
