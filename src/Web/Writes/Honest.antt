-- ===== src/Web/Writes/Honest.antt =====
-- Every action of the family does what it reports.
use voxeltoad.Common.{inl, refl}
use voxeltoad.Js.Runtime.{Runtime}
use voxeltoad.Web.Client.{Site}
use voxeltoad.Web.Action.{World, Action, pure}
use voxeltoad.Web.Errors.{FormResult}
use voxeltoad.Web.Writes.{Write, page_of, run}
use voxeltoad.Web.Writes.Calls.{IsHonestOutcome, submit-outcome}
use voxeltoad.Web.Writes.Rules.{IsWrite, by_call, by_rejection}
use voxeltoad.Web.Writes.Family.{run-IsWrite}
use Prim.Native.String.{String}

IsWrite-IsHonestOutcome :
    {site : Site} {page : String} (w : World) (a : Action FormResult)
    → IsWrite site page a
    → IsHonestOutcome site page w (a w)
unfolding pure
IsWrite-IsHonestOutcome w _ (by_call method path params query body fallback) =
    submit-outcome _ _ method path params query body fallback w
IsWrite-IsHonestOutcome w _ (by_rejection m k) = (inl refl, refl, refl)

-- Of every action of the family, in every environment and from every state: it reports a success only
-- if it sent exactly one request, the API accepted it, and the page of the action was revalidated. If
-- it reports an error or throws, then it sent nothing or one request that did not succeed, and
-- revalidated nothing. Unless it throws, the session is as before.
pub run-IsHonestOutcome :
    (rt : Runtime) (site : Site) (op : Write) (w : World)
    → IsHonestOutcome site (page_of op) w (run rt site op w)
run-IsHonestOutcome rt site op w = IsWrite-IsHonestOutcome w _ (run-IsWrite rt site op)
