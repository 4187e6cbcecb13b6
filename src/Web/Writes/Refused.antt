-- ===== src/Web/Writes/Refused.antt =====
-- An answer of the admin API that is not a success.
use Prim.Native.String.{String}
use voxeltoad.Common.{◌≡◌, ◌⊎◌, inl, inr, refl, true, not, ◌||◌, Option, List, [], ◌∷◌, ◌++◌}
use voxeltoad.Js.Json.{Json}
use voxeltoad.Js.Exception.{Outcome, returned, threw}
use voxeltoad.Js.Runtime.{Runtime}
use voxeltoad.Web.I18n.{map_backend_error}
use voxeltoad.Web.Action.{World, Request, Method, Action, pure, try_catch, ◌>>=◌}
use voxeltoad.Web.Client.{Site, Result, AdminClient, is_ok, server_admin_client, send}
use voxeltoad.Web.Errors.{FormResult, ok, rejected, rejected_by, failure_of, message_or, is_error}
use voxeltoad.Web.Form.{call, attempt, finish, submit}
use voxeltoad.Web.Writes.{Write, run}
use voxeltoad.Web.Writes.Rules.{IsWrite, by_call, by_rejection}
use voxeltoad.Web.Writes.Family.{run-IsWrite}

-- The API answers every request, and none with a success.
abbrev pub Refuses : Site → Type 0
Refuses site =
    (past : List Request) (request : Request)
    → (result : Result) × (site.reply past request ≡ returned result)
      × ((is_error result.error || not (is_ok result)) ≡ true)

-- The one request that was sent, its answer, and the report of that answer.
abbrev IsReported : Site → World → FormResult → World → Type 0
IsReported site w report w' =
    (request : Request) × (w'.sent ≡ w.sent ++ request ∷ [])
    × (result : Result) × (site.reply w.sent request ≡ returned result)
    × (fallback : String) × (report
        ≡ rejected_by (map_backend_error (message_or result.error fallback)))

-- What a write comes to where the API refuses.
abbrev pub IsRefused : Site → World → Outcome FormResult × World → Type 0
IsRefused site w (returned ok, w') = ⊥
IsRefused site w (returned (rejected message key), w') =
    (w'.session ≡ w.session)
    × (w'.revalidated ≡ w.revalidated)
    × ((w'.sent ≡ w.sent) ⊎ IsReported site w (rejected message key) w')
IsRefused site w (threw err, w') = ⊥

module _ (site : Site) (w : World) (client : AdminClient)
    (built : server_admin_client site w ≡ (returned client, w)) (refuses : Refuses site) where
  submit-IsRefused :
      (page : String) (method : Method) (path : String) (params query : List (String × Json))
      (body : Option Json) (fallback : String)
      → IsRefused site w (submit site page method path params query body fallback w)
  unfolding submit attempt call try_catch send failure_of finish pure ◌>>=◌
  submit-IsRefused page method path params query body fallback =
      let request : Request = record {
        authorization = client.authorization;
        method = method;
        path = path;
        path_params = params;
        query = query;
        body = body;
      } in
      let (result, answer, bad) = refuses w.sent request in
      rw (built, answer, bad) (refl, refl, inr (request, refl, result, answer, fallback, refl))

  IsWrite-IsRefused :
      {page : String} (a : Action FormResult) → IsWrite site page a → IsRefused site w (a w)
  unfolding pure
  IsWrite-IsRefused _ (by_call method path params query body fallback) =
      submit-IsRefused _ method path params query body fallback
  IsWrite-IsRefused _ (by_rejection m k) = (refl, refl, inl refl)

-- If the client can be built, and the API answers every request, but none with a success, then each of
-- the 23 server actions of one write call returns an error; it neither throws nor redirects, also for
-- a 401. It revalidates nothing and keeps the session. Unless it sent nothing, it sent one request,
-- and its error is the message of the error body in the answer, or else a fallback, as mapped for the
-- page.
pub run-IsRefused :
    (rt : Runtime) (site : Site) (op : Write) (w : World) (client : AdminClient)
    → server_admin_client site w ≡ (returned client, w)
    → Refuses site
    → IsRefused site w (run rt site op w)
run-IsRefused rt site op w client built refuses =
    IsWrite-IsRefused site w client built refuses _ (run-IsWrite rt site op)
