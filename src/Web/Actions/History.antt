-- ===== src/Web/Actions/History.antt =====
-- web/src/app/[locale]/(dashboard)/config/history/actions.ts
pub mod Expired
use Prim.Native.String.{String}
use voxeltoad.Common.{Option, none, some, List, [], ◌∷◌}
use voxeltoad.Js.Number.{Number}
use voxeltoad.Js.Json.{Json, num, object}
use voxeltoad.Web.Action.{
  Method, get, post, Action, pure, lift, try_catch, revalidate_path, ◌>>=◌, ◌>>◌,
}
use voxeltoad.Web.Client.{Site, server_admin_client, send, unwrap}
use voxeltoad.Web.Errors.{on_auth_expired}

module _ (site : Site) where
  -- `unwrap(await client.METHOD(…))` in a `try` block that ends in `onAuthExpired`
  unfoldable pub history_request :
      Method
      → String
      → List (String × Json)
      → List (String × Json)
      → Option Json
      → Action (Option Json)
  history_request method path path_params query body =
      try_catch
        (do
          client ← server_admin_client site
          result ← send site client method path path_params query body
          lift (unwrap result))
        (λ err. on_auth_expired err)

  unfoldable pub rollback_action : Number → Action (Unit {0})
  rollback_action version = do
    data_ ←
        history_request post "/api/v1/config/rollback" [] []
          (some (object (("version", num version) ∷ [])))
    revalidate_path "/config/history"

  unfoldable pub diff_action : Number → Number → Action (Option Json)
  diff_action from to =
      history_request get "/api/v1/config/history/diff" []
        (("from", num from) ∷ ("to", num to) ∷ []) none

  unfoldable pub snapshot_action : Number → Action (Option Json)
  snapshot_action version =
      history_request get "/api/v1/config/history/{version}" (("version", num version) ∷ []) [] none

  unfoldable pub preview_action : Json → Action (Option Json)
  preview_action body = history_request post "/api/v1/config/preview" [] [] (some body)
