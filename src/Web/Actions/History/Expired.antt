-- ===== src/Web/Actions/History/Expired.antt =====
-- What a rollback of the configuration comes to.
use Prim.Native.String.{String}
use voxeltoad.Common.{◌≡◌, ◌≢◌, ◌⊎◌, inl, inr, refl, List, [], ◌∷◌, ◌++◌, arith, Bool-cases, ◌==◌}
use voxeltoad.Js.Number.{Number}
use voxeltoad.Js.Exception.{Outcome, returned, threw, admin_error, redirecting}
use voxeltoad.Web.Action.{World, Request, throw, lift, try_catch, revalidate_path, redirect, ◌>>=◌}
use voxeltoad.Web.Client.{Site, Result, AdminClient, server_admin_client, send}
use voxeltoad.Web.Client.Unwrapping.{IsSuccess, unwrap_cases}
use voxeltoad.Web.Errors.{on_auth_expired}
use voxeltoad.Web.Actions.History.{history_request, rollback_action}

-- What an answer of the API makes of an action: a success returns; a 401 sends the operator to the
-- logout page; any other answer is thrown with its status.
abbrev pub IsAnswered {ℓ} : {A : Type ℓ} → Result → A → Outcome A → Type ℓ
IsAnswered result a outcome =
    (IsSuccess result × (outcome ≡ returned a))
    ⊎ (((IsSuccess result → ⊥) × (result.status ≡ 401) × (outcome ≡ threw (redirecting "/logout")))
        ⊎ ((IsSuccess result → ⊥)
            × (result.status ≢ 401)
            × ((message : String) × (type_name : String) × (outcome
                  ≡ threw (admin_error result.status message type_name)))))

-- A rollback for which the client can be built and the API answers returns only for a success, and
-- then the history page was revalidated. For a 401 it goes to the logout page, and any other answer is
-- thrown with its status; then nothing is revalidated. The session is kept in every case.
pub rollback_action-IsAnswered :
    (site : Site) (version : Number) (w : World) (client : AdminClient) (result : Result)
    → server_admin_client site w ≡ (returned client, w)
    → ((past : List Request) (request : Request) → site.reply past request ≡ returned result)
    → IsAnswered result tt (rollback_action site version w).0
      × ((rollback_action site version w).1.session ≡ w.session)
      × ((IsSuccess result
            × ((rollback_action site version w).1.revalidated
                ≡ w.revalidated ++ "/config/history" ∷ []))
          ⊎ ((IsSuccess result → ⊥)
              × ((rollback_action site version w).1.revalidated ≡ w.revalidated)))
unfolding rollback_action history_request try_catch send lift on_auth_expired redirect throw
    revalidate_path ◌>>=◌
rollback_action-IsAnswered site version w client result built answer = elim (unwrap_cases result) [
  | inl (good, u) ↦ (
    inl (good, rw (built, answer, u) refl),
    rw (built, answer, u) refl,
    inl (good, rw (built, answer, u) refl),
  )
  | inr (bad, (message, type_name, u)) ↦ elim (Bool-cases (result.status == 401)) [
    | inl e ↦ (
      inr (inl (bad, ground (arith, e), rw (built, answer, u, e) refl)),
      rw (built, answer, u, e) refl,
      inr (bad, rw (built, answer, u, e) refl),
    )
    | inr e ↦ (
      inr (
          inr (
            bad,
            (λ same. ground (arith, e, same)),
            (message, type_name, rw (built, answer, u, e) refl),
          )),
      rw (built, answer, u, e) refl,
      inr (bad, rw (built, answer, u, e) refl),
    )
  ]
]
