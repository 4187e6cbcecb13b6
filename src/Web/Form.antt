-- ===== src/Web/Form.antt =====
-- The fields of a submitted form, and the steps that the server actions share.
use Prim.Native.String.{String, [], ◌∷◌}
use voxeltoad.Common.{
  Bool, true, false, Option, none, some, List, [], ◌∷◌, str_eq, if◌then◌else◌, trim,
}
use voxeltoad.Common.Int.{pos}
use voxeltoad.Js.Number.{Number, int}
use voxeltoad.Js.Runtime.{Runtime}
use voxeltoad.Js.Json.{Json, str, lookup}
use voxeltoad.Web.I18n.{map_backend_error}
use voxeltoad.Web.Action.{Action, Method, pure, try_catch, revalidate_path, ◌>>=◌, ◌>>◌}
use voxeltoad.Web.Client.{Site, server_admin_client, send}
use voxeltoad.Web.Errors.{FormResult, ok, rejected_by, to_form_error, failure_of}

-- `FormData` with text entries
abbrev pub FormData : Type 0
FormData = List (String × String)

-- `formData.get(key)`; `none` is null
unfoldable pub get_field : FormData → String → Option String
unfolding lookup
get_field form key = lookup key form

-- `formData.getAll(key)`
unfoldable pub get_all : FormData → String → List String
get_all [] key = []
get_all ((k, v) ∷ form) key = let rest = get_all form key in if str_eq k key then v ∷ rest else rest

abbrev pub or_empty : Option String → String
or_empty none = []
or_empty (some s) = s

-- `String(formData.get(key) ?? "").trim()`
unfoldable pub text_field : FormData → String → String
unfolding get_field
text_field form key = trim (or_empty (get_field form key))

-- `Number(formData.get(key))`, where `Number(null)` is zero
unfoldable pub number_field : Runtime → FormData → String → Number
unfolding get_field
number_field rt form key = elim (get_field form key) [ none ↦ int (pos 0) | some s ↦ rt.number s ]

-- `!s`
abbrev pub is_blank : String → Bool
is_blank [] = true
is_blank (c ∷ s) = false

-- `if (s) body.key = s`
abbrev pub field_if_text : String → String → List (String × Json)
field_if_text key s = if is_blank s then [] else (key, str s) ∷ []

-- The early return of a validation in the action itself.
abbrev pub reject : String → FormResult
reject message = rejected_by (map_backend_error message)

module _ (site : Site) where
  -- `const client = await serverAdminClient(); const { error, response } = await client.METHOD(…)`
  -- and the early return on a failure
  unfoldable pub call :
      Method
      → String
      → List (String × Json)
      → List (String × Json)
      → Option Json
      → String
      → Action (Option FormResult)
  call method path path_params query body fallback = do
    client ← server_admin_client site
    result ← send site client method path path_params query body
    pure (failure_of result fallback)

  -- `try { … } catch (err) { return toFormError(err); }`; `none` is the end of the block
  unfoldable pub attempt : Action (Option FormResult) → Action (Option FormResult)
  attempt block = try_catch block (λ err. do result ← to_form_error site err; pure (some result))

-- what follows the block: `revalidatePath(path); return { ok: true };`
unfoldable pub finish : String → Option FormResult → Action FormResult
finish path (some result) = pure result
finish path none = do revalidate_path path; pure ok

module _ (site : Site) where
  -- One admin call in a `try` block, then `revalidatePath`: the shape of most server actions.
  unfoldable pub submit :
      String
      → Method
      → String
      → List (String × Json)
      → List (String × Json)
      → Option Json
      → String
      → Action FormResult
  submit page method path path_params query body fallback = do
    outcome ← attempt site (call site method path path_params query body fallback)
    finish page outcome
