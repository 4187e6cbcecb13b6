-- ===== src/Web/Actions/Quotas.antt =====
-- web/src/app/[locale]/(dashboard)/quotas/actions.ts
use Prim.Native.String.{[], ◌∷◌}
use voxeltoad.Common.{not, ◌||◌, some, [], ◌∷◌, if◌then◌else◌}
use voxeltoad.Common.Int.{pos}
use voxeltoad.Js.Number.{int, truthy, le_zero}
use voxeltoad.Js.Json.{num, str, object}
use voxeltoad.Js.Runtime.{Runtime}
use voxeltoad.Web.Action.{post, Action, pure}
use voxeltoad.Web.Client.{Site}
use voxeltoad.Web.Errors.{FormResult}
use voxeltoad.Web.Form.{FormData, text_field, number_field, is_blank, reject, submit}

module _ (rt : Runtime) (site : Site) where
  unfoldable pub topup_quota : FormData → Action FormResult
  topup_quota form =
      let scope = text_field form "scope" in
      let amount = number_field rt form "amount" in
      let currency_raw = text_field form "currency" in
      let currency = if is_blank currency_raw then "USD" else currency_raw in
      if is_blank scope
      then pure (reject "scope is required")
      else if not (truthy amount) || le_zero amount
      then pure (reject "amount must be positive")
      else submit site "/quotas" post "/api/v1/quotas/topup" [] []
          (some (
            object (
              ("scope", str scope)
              ∷ ("delta", num (rt.times amount (int (pos 1000000))))
              ∷ ("currency", str currency)
              ∷ [])))
          "top-up failed"
