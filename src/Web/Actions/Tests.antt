-- ===== src/Web/Actions/Tests.antt =====
-- The actions on API keys and on the configuration history on a small environment.
use voxeltoad.Common.{◌≡◌, ◌⊎◌, refl, sym, ap, [], ◌∷◌, some}
use voxeltoad.Common.Int.{pos}
use voxeltoad.Js.Number.{int}
use voxeltoad.Js.Samples.{plain_runtime}
use voxeltoad.Web.Client.{create_admin_client}
use voxeltoad.Web.Client.Unwrapping.{IsSuccess}
use voxeltoad.Web.Writes.Calls.{returned-injective}
use voxeltoad.Web.Samples.{accepted, denied, site_with, operator, start, form, built}
use voxeltoad.Web.Actions.Keys.{create_api_key}
use voxeltoad.Web.Actions.Keys.Once.{Documented, IsCreated, create_api_key-IsCreated}
use voxeltoad.Web.Actions.History.{rollback_action}
use voxeltoad.Web.Actions.History.Expired.{IsAnswered, rollback_action-IsAnswered}

accepted-Documented : Documented (site_with accepted)
accepted-Documented past request how where_ good =
    (_, ap (λ r. r.payload) (sym (returned-injective good.answer)))

create_api_key-IsCreated_example :
    IsCreated
      (site_with accepted)
      start
      (create_api_key plain_runtime (site_with accepted) form start)
create_api_key-IsCreated_example =
    create_api_key-IsCreated plain_runtime (site_with accepted) accepted-Documented form start

rollback_action-IsAnswered_example :
    IsAnswered denied tt (rollback_action (site_with denied) (int (pos 3)) start).0
    × ((rollback_action (site_with denied) (int (pos 3)) start).1.session ≡ operator)
    × ((IsSuccess denied
          × ((rollback_action (site_with denied) (int (pos 3)) start).1.revalidated
              ≡ "/config/history" ∷ []))
        ⊎ ((IsSuccess denied → ⊥)
            × ((rollback_action (site_with denied) (int (pos 3)) start).1.revalidated ≡ [])))
rollback_action-IsAnswered_example =
    rollback_action-IsAnswered (site_with denied) (int (pos 3)) start
      (create_admin_client (some "t0")) denied built (λ past request. refl)
