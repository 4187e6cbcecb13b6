-- ===== src/Web/Errors.antt =====
-- web/src/lib/errors.ts: what a failed admin call becomes for a page or a form.
use Prim.Native.String.{String}
use voxeltoad.Common.{Bool, true, false, Option, none, some, ◌==◌, not, ◌||◌, if◌then◌else◌}
use voxeltoad.Js.Exception.{Exception, admin_error}
use voxeltoad.Web.I18n.{MappedError, map_backend_error}
use voxeltoad.Web.Action.{Action, pure, throw, redirect, ◌>>◌}
use voxeltoad.Web.Client.{Site, Result, ErrorBody, is_ok, clear_session}

pub data FormResult : Type 0 where
  ok : FormResult
  -- `error` and `errorKey`
  rejected : String → Option String → FormResult

-- `{ ok: false, error: mapped.fallback, errorKey: mapped.key }`
abbrev pub rejected_by : MappedError → FormResult
rejected_by mapped = rejected mapped.fallback mapped.key

unfoldable pub on_auth_expired {ℓ} : {A : Type ℓ} → Exception → Action A
on_auth_expired (admin_error status message type_name) =
    if status == 401 then redirect "/logout" else throw (admin_error status message type_name)
on_auth_expired err = throw err

pub data ForbiddenOutcome : Type 0 where
  forbidden : String → ForbiddenOutcome

unfoldable pub handle_admin_error : Exception → Action ForbiddenOutcome
handle_admin_error (admin_error status message type_name) =
    if status == 401
    then redirect "/logout"
    else if status == 403
    then pure (forbidden message)
    else throw (admin_error status message type_name)
handle_admin_error err = throw err

module _ (site : Site) where
  unfoldable pub to_form_error : Exception → Action FormResult
  to_form_error (admin_error status message type_name) =
      if status == 401
      then (do clear_session site; redirect "/login")
      else pure (rejected message none)
  to_form_error err = pure (rejected "unexpected error" none)

abbrev pub message_or : Option ErrorBody → String → String
message_or none fallback = fallback
message_or (some body) fallback = elim body.message [ none ↦ fallback | some m ↦ m ]

abbrev pub is_error : Option ErrorBody → Bool
is_error none = false
is_error (some body) = true

-- `if (error || !response.ok) { const message = error?.error?.message ?? fallback; … }`: the early
-- return of the server actions, if it is taken
unfoldable pub failure_of : Result → String → Option FormResult
failure_of r fallback =
    if is_error r.error || not (is_ok r)
    then some (rejected_by (map_backend_error (message_or r.error fallback)))
    else none
