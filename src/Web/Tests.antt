-- ===== src/Web/Tests.antt =====
-- The server actions of the control panel on a small environment, and the theorems at it.
use Prim.Native.String.{String, [], ◌∷◌}
use voxeltoad.Common.{◌≡◌, ◌↔◌, ◌⊎◌, refl, true, none, some, arith, [], ◌∷◌, strip_prefix, trim}
use voxeltoad.Common.Int.{pos}
use voxeltoad.Js.Number.{int}
use voxeltoad.Js.Json.{lookup}
use voxeltoad.Js.Exception.{returned, threw, admin_error}
use voxeltoad.Js.Samples.{plain_runtime}
use voxeltoad.Web.I18n.{map_backend_error, has_dot}
use voxeltoad.Web.I18n.Mapping.{map_backend_error-key, map_backend_error-plain}
use voxeltoad.Web.Session.{has, has_any}
use voxeltoad.Web.Session.Permissions.{Grants, GrantsOne, has_iff, has_any_iff}
use voxeltoad.Web.Client.{ErrorBody, create_admin_client, unwrap}
use voxeltoad.Web.Client.Unwrapping.{IsSuccess, unwrap_cases}
use voxeltoad.Web.Errors.{ok, message_or}
use voxeltoad.Web.Form.{reject, is_blank, text_field}
use voxeltoad.Web.Writes.{page_of, run, create_tenant}
use voxeltoad.Web.Writes.Calls.{IsHonestOutcome}
use voxeltoad.Web.Writes.Honest.{run-IsHonestOutcome}
use voxeltoad.Web.Writes.Refused.{IsRefused, run-IsRefused}
use voxeltoad.Web.Actions.Providers.{update_provider, update_fields}
use voxeltoad.Web.Actions.Providers.Credential.{update_fields-Absent}
use voxeltoad.Web.Actions.Providers.Rotation.{IsRotated, update_provider-IsRotated}
use voxeltoad.Web.Actions.Budgets.{create_budget, update_budget, resolve_reservation}
use voxeltoad.Web.Actions.Budgets.Guard.{IsGuarded, budget_actions-IsGuarded}
use voxeltoad.Web.Actions.Roles.{create_role, update_role, delete_role}
use voxeltoad.Web.Actions.Roles.Keyless.{IsKeyless, role_actions-IsKeyless}
use voxeltoad.Web.Actions.Settings.{update_settings}
use voxeltoad.Web.Actions.Settings.Saved.{update_settings-answer}
use voxeltoad.Web.Login.{login_action, first_page}
use voxeltoad.Web.Login.Accepted.{IsLogin, login_action-IsLogin}
use voxeltoad.Web.Login.Landing.{Lands, first_page-Lands}
use voxeltoad.Web.Samples.{accepted, denied, site_with, operator, start, form, built}

mapped_key_example :
    (map_backend_error "errors.a.b" ≡ record { key = some "a.b"; fallback = "errors.a.b" })
    × (map_backend_error "errors.a.b: soon" ≡ record { key = some "a.b"; fallback = trim "soon" })
mapped_key_example =
    map_backend_error-key "a.b" "soon" (unfold has_dot in refl)
      (omega arith, (omega arith, (omega arith, tt)))

mapped_plain_example : map_backend_error "no" ≡ record { key = none; fallback = "no" }
mapped_plain_example = map_backend_error-plain "no" (unfold strip_prefix in refl)

has_example : (has operator "usage.read" ≡ true) ↔ Grants operator "usage.read"
has_example = has_iff operator "usage.read"

has_any_example :
    (has_any operator ("audit.read" ∷ "usage.read" ∷ []) ≡ true)
    ↔ GrantsOne operator ("audit.read" ∷ "usage.read" ∷ [])
has_any_example = has_any_iff operator ("audit.read" ∷ "usage.read" ∷ [])

unwrap_example :
    (IsSuccess denied × (unwrap denied ≡ returned denied.payload))
    ⊎ ((IsSuccess denied → ⊥)
        × ((message : String) × (type_name : String) × (unwrap denied
              ≡ threw (admin_error denied.status message type_name))))
unwrap_example = unwrap_cases denied

run_example :
    IsHonestOutcome
      (site_with accepted)
      (page_of (create_tenant form))
      start
      (run plain_runtime (site_with accepted) (create_tenant form) start)
run_example = run-IsHonestOutcome plain_runtime (site_with accepted) (create_tenant form) start

run-IsRefused_example :
    IsRefused
      (site_with denied)
      start
      (run plain_runtime (site_with denied) (create_tenant form) start)
run-IsRefused_example =
    run-IsRefused plain_runtime (site_with denied) (create_tenant form) start
      (create_admin_client (some "t0")) built (λ past request. (denied, refl, refl))

update_fields_example :
    (lookup "api_key" (update_fields plain_runtime form) ≡ none)
    × ((is_blank (text_field form "api_key") ≡ true)
        ⊎ (lookup "api_key_ref" (update_fields plain_runtime form) ≡ none))
update_fields_example = update_fields-Absent plain_runtime form

update_provider-IsRotated_example :
    IsRotated
      (site_with accepted)
      start
      (update_provider plain_runtime (site_with accepted) form start)
update_provider-IsRotated_example =
    update_provider-IsRotated plain_runtime (site_with accepted) form start

guarded_example :
    IsGuarded "acme" "budget.write" start
      (create_budget plain_runtime (λ s. s) (site_with accepted) "acme" form start)
    × IsGuarded "acme" "budget.write" start (
        update_budget plain_runtime
          (λ s. s)
          (site_with accepted)
          "acme"
          (int (pos 1))
          (int (pos 2))
          form
          start)
    × IsGuarded "acme" "budget.resolve" start (
        resolve_reservation plain_runtime
          (λ s. s)
          (site_with accepted)
          "acme"
          "r"
          (int (pos 2))
          form
          start)
guarded_example =
    budget_actions-IsGuarded plain_runtime (λ s. s) (site_with accepted) "acme" "r" (int (pos 1))
      (int (pos 2)) form start

role_actions-IsKeyless_example :
    IsKeyless (create_role (site_with denied) form start)
    × IsKeyless (update_role plain_runtime (site_with denied) form start)
    × IsKeyless (delete_role (site_with denied) (int (pos 1)) start)
role_actions-IsKeyless_example =
    role_actions-IsKeyless plain_runtime (site_with denied) (λ past request. (denied, refl)) form
      (int (pos 1)) start

settings_example :
    ((denied.error ≡ none)
      × ((update_settings plain_runtime (site_with denied) form start).0 ≡ returned ok)
      × ((update_settings plain_runtime (site_with denied) form start).1.revalidated
          ≡ "/settings" ∷ []))
    ⊎ ((body : ErrorBody) × (denied.error ≡ some body)
        × ((update_settings plain_runtime (site_with denied) form start).0
            ≡ returned (reject (message_or (some body) "save failed")))
        × ((update_settings plain_runtime (site_with denied) form start).1.revalidated ≡ []))
settings_example =
    update_settings-answer plain_runtime (site_with denied) form start
      (create_admin_client (some "t0")) denied built (λ past request. refl)

login_action-IsLogin_example :
    IsLogin (site_with accepted) form start (login_action (site_with accepted) form start)
login_action-IsLogin_example = login_action-IsLogin (site_with accepted) form start

lands_example : Lands operator (first_page operator)
lands_example = first_page-Lands operator
