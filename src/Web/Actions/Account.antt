-- ===== src/Web/Actions/Account.antt =====
-- web/src/app/[locale]/(dashboard)/actions.ts
use Prim.Native.String.{[], ◌∷◌}
use voxeltoad.Common.{none, some, [], ◌∷◌, if◌then◌else◌}
use voxeltoad.Js.Json.{str, object}
use voxeltoad.Web.Action.{post, Action, pure, redirect, ◌>>=◌, ◌>>◌}
use voxeltoad.Web.Client.{Site, clear_session}
use voxeltoad.Web.Errors.{FormResult, ok}
use voxeltoad.Web.Form.{FormData, text_field, is_blank, reject, call, attempt}

module _ (site : Site) where
  unfoldable pub logout_action : Action (Unit {0})
  logout_action = do clear_session site; redirect "/login"

  unfoldable pub change_password : FormData → Action FormResult
  change_password form =
      let password = text_field form "password" in
      let password_block = attempt site (
        call site post "/api/v1/operators/me/password" [] []
          (some (object (("password", str password) ∷ []))) "password change failed") in
      if is_blank password then pure (reject "password is required") else (do
        outcome ← password_block
        elim outcome [ some result ↦ pure result | none ↦ pure ok ])
