-- ===== src/Web/Actions/Budgets/Guard.antt =====
-- What `writeGuard` and `amount` keep away from the API.
use Prim.Native.String.{String}
use voxeltoad.Common.{
  ◌≡◌, ◌≢◌, ◌⊎◌, inl, inr, refl, true, false, ◌&&◌, Option, none, some, arith, Bool-cases, eq_iff,
  trim,
}
use voxeltoad.Js.Number.{Number}
use voxeltoad.Js.Runtime.{Runtime}
use voxeltoad.Js.Exception.{Exception, other_error, Outcome, returned, threw}
use voxeltoad.Web.Session.{SessionData, has}
use voxeltoad.Web.Session.Permissions.{Grants, has_iff}
use voxeltoad.Web.Action.{World, Action, pure, throw, ◌>>=◌}
use voxeltoad.Web.Client.{Site, is_set, long_enough, get_session, require_session_secret}
use voxeltoad.Web.Errors.{FormResult, ok, rejected}
use voxeltoad.Web.Form.{FormData, is_blank}
use voxeltoad.Web.Actions.Budgets.{
  equals, write_guard, guarded, create_budget, update_budget, resolve_reservation,
}

-- The session is of the global scope and grants the permission, and a tenant is named.
pub record IsPermitted (session : SessionData) (tenant permission : String) : Type 0 where
  pub global : session.scope_kind ≡ some "global"
  pub granted : Grants session permission
  pub named : is_blank (trim tenant) ≡ false

equals_sound : (o : Option String) (s : String) → equals o s ≡ true → o ≡ some s
equals_sound none s h = cc
equals_sound (some x) s h = rw ((eq_iff x s).0 h) refl

-- What the guard may come to.
guard_cases :
    (t : String → String) (site : Site) (tenant permission : String) (w : World)
    → IsPermitted w.session tenant permission
      ⊎ (((err : Exception) × (write_guard t site tenant permission w ≡ (threw err, w)))
          ⊎ ((message : String) × (write_guard t site tenant permission w
                ≡ (returned (some (rejected message none)), w))))
unfolding write_guard get_session require_session_secret pure throw ◌>>=◌
guard_cases t site tenant permission w =
    elim (Bool-cases (is_set site.session_secret && long_enough site.session_secret)) [
      | inr bad ↦ inr (
          inl (
            other_error "Error"
                "SESSION_SECRET must be set and at least 32 characters (see web/.env.example)",
            rw bad refl,
          ))
      | inl good ↦ elim (Bool-cases (equals w.session.scope_kind "global")) [
        | inr other ↦ inr (inr (t "forbiddenWrite", rw (good, other) refl))
        | inl global ↦ elim (Bool-cases (has w.session permission)) [
          | inr denied ↦ inr (inr (t "forbiddenWrite", rw (good, global, denied) refl))
          | inl may ↦ elim (Bool-cases (is_blank (trim tenant))) [
            | inl blank ↦ inr (inr (t "selectTenant", rw (good, global, may, blank) refl))
            | inr named ↦ inl record {
              global = equals_sound _ _ global;
              granted = (has_iff w.session permission).0 may;
              named = named;
            }
          ]
        ]
      ]
    ]

-- Without the permission nothing happens, and no success is reported.
abbrev pub IsGuarded : String → String → World → Outcome FormResult × World → Type 0
IsGuarded tenant permission w r =
    IsPermitted w.session tenant permission ⊎ ((r.1 ≡ w) × (r.0 ≢ returned ok))

guarded-IsGuarded :
    (t : String → String) (site : Site) (tenant permission : String)
    (block : Action (Option FormResult)) (w : World)
    → IsGuarded tenant permission w (guarded t site tenant permission block w)
unfolding guarded pure ◌>>=◌
guarded-IsGuarded t site tenant permission block w = elim (guard_cases t site tenant permission w) [
  | inl permitted ↦ inl permitted
  | inr (inl (err, e)) ↦ inr (rw e (refl, λ bad. ground (arith, bad)))
  | inr (inr (message, e)) ↦ inr (rw e (refl, λ bad. ground (arith, bad)))
]

-- Each of the three actions changes a budget or a reservation only for a session of the global scope
-- that is granted the permission, with a tenant that is not blank: otherwise it sends no request,
-- revalidates nothing, keeps the session and does not report a success.
pub budget_actions-IsGuarded :
    (rt : Runtime) (t : String → String) (site : Site) (tenant reservation : String)
    (id version : Number) (form : FormData) (w : World)
    → IsGuarded tenant "budget.write" w (create_budget rt t site tenant form w)
      × IsGuarded tenant "budget.write" w (update_budget rt t site tenant id version form w)
      × IsGuarded tenant "budget.resolve" w
          (resolve_reservation rt t site tenant reservation version form w)
unfolding create_budget update_budget resolve_reservation
budget_actions-IsGuarded rt t site tenant reservation id version form w = (
  guarded-IsGuarded t site tenant _ _ w,
  guarded-IsGuarded t site tenant _ _ w,
  guarded-IsGuarded t site tenant _ _ w,
)
