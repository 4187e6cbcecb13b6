-- ===== src/Web/Writes/Rules.antt =====
-- How an action is shown to be a write of one call from its parts.
use Prim.Native.String.{String}
use voxeltoad.Common.{Bool, true, false, Option, none, some, List, if◌then◌else◌}
use voxeltoad.Js.Json.{Json}
use voxeltoad.Js.Exception.{Exception, Outcome, returned, threw}
use voxeltoad.Web.Action.{Method, Action, pure}
use voxeltoad.Web.Client.{Site}
use voxeltoad.Web.Errors.{FormResult, rejected}
use voxeltoad.Web.Form.{submit}

-- An action that rejects its input, or makes one call and revalidates its page.
pub data IsWrite (site : Site) (page : String) : Action FormResult → Type 0 where
  by_call :
      (method : Method) (path : String) (params query : List (String × Json)) (body : Option Json)
      (fallback : String)
      → IsWrite site page (submit site page method path params query body fallback)
  by_rejection :
      (message : String) (key : Option String) → IsWrite site page (pure (rejected message key))

module _ {site : Site} {page : String} where
  pub submit-IsWrite :
      (method : Method) (path : String) (params query : List (String × Json)) (body : Option Json)
      (fallback : String)
      → IsWrite site page (submit site page method path params query body fallback)
  submit-IsWrite method path params query body fallback =
      by_call method path params query body fallback

  -- An early return of the action itself: nothing was done.
  pub pure-IsWrite : (m : String) (k : Option String) → IsWrite site page (pure (rejected m k))
  pure-IsWrite m k = by_rejection m k

  pub if-IsWrite :
      (test : Bool) {a b : Action FormResult}
      → IsWrite site page a
      → IsWrite site page b
      → IsWrite site page (if test then a else b)
  if-IsWrite true ha hb = ha
  if-IsWrite false ha hb = hb

  pub option-IsWrite :
      {A : Type 0} (o : Option A) {a : Action FormResult} {f : A → Action FormResult}
      → IsWrite site page a
      → ((x : A) → IsWrite site page (f x))
      → IsWrite site page (elim o [ none ↦ a | some x ↦ f x ])
  option-IsWrite none ha hf = ha
  option-IsWrite (some x) ha hf = hf x

  pub outcome-IsWrite :
      {A : Type 0} (o : Outcome A) {f : Exception → Action FormResult} {g : A → Action FormResult}
      → ((err : Exception) → IsWrite site page (f err))
      → ((x : A) → IsWrite site page (g x))
      → IsWrite site page (elim o [ threw err ↦ f err | returned x ↦ g x ])
  outcome-IsWrite (threw err) hf hg = hf err
  outcome-IsWrite (returned x) hf hg = hg x

pub ruleset write_rules =
    (submit-IsWrite, pure-IsWrite, if-IsWrite, option-IsWrite, outcome-IsWrite)
