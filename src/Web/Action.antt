-- ===== src/Web/Action.antt =====
-- A server action as a function of the state of the world that it works on: it may throw, and what
-- it did before it threw stays done.
use Prim.Native.String.{String}
use voxeltoad.Common.{Option, List, [], ◌∷◌, ◌++◌}
use voxeltoad.Js.Json.{Json}
use voxeltoad.Js.Exception.{Exception, Outcome, returned, threw}
use voxeltoad.Web.Session.{SessionData}

pub data Method : Type 0 where
  get post put patch delete : Method

-- A request to the admin API: the path is the OpenAPI path, with its parameters apart.
pub record Request : Type 0 where
  pub authorization : Option String
  pub method : Method
  pub path : String
  pub path_params : List (String × Json)
  pub query : List (String × Json)
  pub body : Option Json

pub record World : Type 0 where
  -- the session that the cookie carries
  pub session : SessionData
  -- the requests sent to the admin API, the first one first
  pub sent : List Request
  -- the paths given to `revalidatePath`, the first one first
  pub revalidated : List String

abbrev pub Action {ℓ} : Type ℓ → Type ℓ
Action A = World → Outcome A × World

module _ {ℓ} {A : Type ℓ} where
  unfoldable pub pure : A → Action A
  pure a w = (returned a, w)

  unfoldable pub throw : Exception → Action A
  throw e w = (threw e, w)

  -- a call that may throw and touches nothing
  unfoldable pub lift : Outcome A → Action A
  lift r w = (r, w)

  abbrev pub handle : Outcome A → (Exception → Action A) → Action A
  handle (returned a) handler w = (returned a, w)
  handle (threw e) handler w = handler e w

  -- `try { … } catch (err) { … }`
  unfoldable pub try_catch : Action A → (Exception → Action A) → Action A
  try_catch m handler w = let (r, w') = m w in handle r handler w'

module _ {ℓ κ} {A : Type ℓ} {B : Type κ} where
  abbrev pub continue : Outcome A → (A → Action B) → Action B
  continue (returned a) f w = f a w
  continue (threw e) f w = (threw e, w)

  infixl 5 ◌>>=◌
  unfoldable pub ◌>>=◌ : Action A → (A → Action B) → Action B
  ◌>>=◌ m f w = let (r, w') = m w in continue r f w'

infixl 5 ◌>>◌
abbrev pub ◌>>◌ {ℓ} : {B : Type ℓ} → Action (Unit {0}) → Action B → Action B
m >> n = m >>= λ _. n

-- `revalidatePath(path)`
unfoldable pub revalidate_path : String → Action (Unit {0})
revalidate_path path w = (returned tt, record w { revalidated = w.revalidated ++ path ∷ [] })

-- `redirect(target)`, which throws
unfoldable pub redirect {ℓ} : {A : Type ℓ} → String → Action A
unfolding throw
redirect target = throw (Exception.redirecting target)
