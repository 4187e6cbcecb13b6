-- ===== src/Web/Actions/Settings/Saved.antt =====
-- What `updateSettings` takes for a saved form.
use voxeltoad.Common.{◌≡◌, ◌⊎◌, inl, inr, refl, none, some, Option-cases, List, ◌++◌, ◌∷◌, []}
use voxeltoad.Js.Runtime.{Runtime}
use voxeltoad.Js.Exception.{returned}
use voxeltoad.Web.Action.{World, Request, try_catch, pure, revalidate_path, ◌>>=◌}
use voxeltoad.Web.Client.{Site, Result, ErrorBody, AdminClient, server_admin_client, send}
use voxeltoad.Web.Errors.{ok, message_or}
use voxeltoad.Web.Form.{FormData, attempt, finish, reject}
use voxeltoad.Web.Actions.Settings.{update_settings, settings_failure}

-- If the client can be built and the API answers with `result`, the form is reported as saved and the
-- page revalidated exactly where the answer has no error body, whatever its status; otherwise the
-- message of the body, or "save failed", is reported and nothing is revalidated.
pub update_settings-answer :
    (rt : Runtime) (site : Site) (form : FormData) (w : World) (client : AdminClient)
    (result : Result)
    → server_admin_client site w ≡ (returned client, w)
    → ((past : List Request) (request : Request) → site.reply past request ≡ returned result)
    → ((result.error ≡ none)
        × ((update_settings rt site form w).0 ≡ returned ok)
        × ((update_settings rt site form w).1.revalidated ≡ w.revalidated ++ "/settings" ∷ []))
      ⊎ ((body : ErrorBody) × (result.error ≡ some body)
          × ((update_settings rt site form w).0
              ≡ returned (reject (message_or (some body) "save failed")))
          × ((update_settings rt site form w).1.revalidated ≡ w.revalidated))
unfolding update_settings attempt try_catch send finish settings_failure pure revalidate_path ◌>>=◌
update_settings-answer rt site form w client result built answer =
    elim (Option-cases result.error) [
      | inl absent ↦ inl (absent, rw (built, answer, absent) refl, rw (built, answer, absent) refl)
      | inr (body, e) ↦ inr (body, e, rw (built, answer, e) refl, rw (built, answer, e) refl)
    ]
