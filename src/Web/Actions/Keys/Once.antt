-- ===== src/Web/Actions/Keys/Once.antt =====
-- When the created key is shown.
use Prim.Native.String.{String}
use voxeltoad.Common.{◌≡◌, inl, inr, refl, ◌∙◌, Option, none, some, List, [], ◌∷◌, ◌++◌}
use voxeltoad.Js.Json.{Json, Fields, obj, entries, lookup}
use voxeltoad.Js.Access.{as_string, member}
use voxeltoad.Js.Exception.{
  Exception, Outcome, returned, threw, admin_error, range_error, redirecting, other_error,
}
use voxeltoad.Js.Runtime.{Runtime}
use voxeltoad.Web.Action.{
  World, Request, Method, post, pure, lift, try_catch, handle, continue, revalidate_path, ◌>>=◌,
  ◌>>◌,
}
use voxeltoad.Web.Client.{Site, Reply, send, unwrap}
use voxeltoad.Web.Client.Unwrapping.{server_admin_client_cases, unwrap_cases}
use voxeltoad.Web.Errors.{FormResult, ok, rejected, to_form_error}
use voxeltoad.Web.Form.{FormData}
use voxeltoad.Web.Writes.Calls.{
  Succeeds, NoSuccess, IsReport, after, failed_answer, thrown_answer, to_form_error-IsReport,
}
use voxeltoad.Web.Actions.Keys.{
  KeyResult, without_key, remap, created_key, form_error, key_request, create_key_body,
  create_api_key,
}

-- What a request comes to: the data of a success, with the page revalidated, or an exception.
abbrev IsKeyRequest : Site → Method → String → World → Outcome (Option Json) × World → Type 0
IsKeyRequest site method path w (returned data_, w') =
    (request : Request) × (request.method ≡ method)
    × (request.path ≡ path)
    × (w'.sent ≡ w.sent ++ request ∷ [])
    × (good : Succeeds site w.sent request) × (data_ ≡ good.result.payload)
    × (w'.revalidated ≡ w.revalidated ++ "/api-keys" ∷ [])
    × (w'.session ≡ w.session)
IsKeyRequest site method path w (threw err, w') =
    NoSuccess site w w' × (w'.revalidated ≡ w.revalidated) × (w'.session ≡ w.session)

-- The answer to a creation of a key that succeeds is an object, as the API documents it (201).
abbrev pub Documented : Site → Type 0
Documented site =
    (past : List Request) (request : Request)
    → request.method ≡ post
    → request.path ≡ "/api/v1/api-keys"
    → (good : Succeeds site past request) → (fs : Fields) × (good.result.payload ≡ some (obj fs))

abbrev key_of : Option Json → Option String
key_of (some (obj fs)) = as_string (lookup "api_key" (entries fs))
key_of _ = none

abbrev IsShown : Site → World → FormResult → Option String → World → Type 0
IsShown site w ok key w' =
    (request : Request) × (request.method ≡ post)
    × (request.path ≡ "/api/v1/api-keys")
    × (w'.sent ≡ w.sent ++ request ∷ [])
    × (good : Succeeds site w.sent request) × (key ≡ key_of good.result.payload)
    × (w'.revalidated ≡ w.revalidated ++ "/api-keys" ∷ [])
    × (w'.session ≡ w.session)
IsShown site w (rejected error error_key) key w' =
    (key ≡ none) × NoSuccess site w w' × (w'.revalidated ≡ w.revalidated) × (w'.session ≡ w.session)

-- What the creation of a key may come to.
abbrev pub IsCreated : Site → World → Outcome KeyResult × World → Type 0
IsCreated site w (returned r, w') = IsShown site w r.result r.api_key w'
IsCreated site w (threw err, w') = NoSuccess site w w' × (w'.revalidated ≡ w.revalidated)

module _ (site : Site) (w : World) where
  answered :
      (request : Request) (r : Reply)
      → site.reply w.sent request ≡ r
      → IsKeyRequest site request.method request.path w (
          continue r
            (λ result. do data_ ← lift (unwrap result); revalidate_path "/api-keys"; pure data_)
            (after site w request))
  unfolding lift revalidate_path pure ◌>>=◌
  answered request (threw err) e = (thrown_answer site w request err e, refl, refl)
  answered request (returned result) e = elim (unwrap_cases result) [
    | inl (good, u) ↦ rw u (
      request,
      refl,
      refl,
      refl,
      record { result = result; answer = e; success = good },
      refl,
      refl,
      refl,
    )
    | inr (bad, (message, type_name, u)) ↦
        rw u (failed_answer site w request result e bad, refl, refl)
  ]

  key_request-IsKeyRequest :
      (method : Method) (path : String) (params : List (String × Json)) (body : Option Json)
      → IsKeyRequest site method path w (key_request site method path params body w)
  unfolding key_request send ◌>>=◌
  key_request-IsKeyRequest method path params body = elim (server_admin_client_cases site w) [
    | inr (message, e) ↦ rw e (inl refl, refl, refl)
    | inl (client, e) ↦ rw e (answered _ _ refl)
  ]

  unmoved : (w' w2 : World) → NoSuccess site w w' → w2.sent ≡ w'.sent → NoSuccess site w w2
  unmoved w' w2 (inl e) s = inl (s ∙ e)
  unmoved w' w2 (inr (request, e, bad)) s = inr (request, s ∙ e, bad)

  mapped :
      (err : Exception) (m : String) (k : Option String) (w' : World)
      → NoSuccess site w w'
      → w'.revalidated ≡ w.revalidated
      → w'.session ≡ w.session
      → IsShown site w (remap err (rejected m k)) none w'
  mapped (admin_error status message type_name) m k w' quiet r s = (refl, quiet, r, s)
  mapped (range_error message) m k w' quiet r s = (refl, quiet, r, s)
  mapped (redirecting target) m k w' quiet r s = (refl, quiet, r, s)
  mapped (other_error name message) m k w' quiet r s = (refl, quiet, r, s)

  reported :
      (err : Exception) (w' : World)
      → NoSuccess site w w'
      → w'.revalidated ≡ w.revalidated
      → w'.session ≡ w.session
      → (r : Outcome FormResult × World) → IsReport w' r
      → IsCreated site w (
          continue
            (continue r.0 (λ result. pure (remap err result)) r.1).0
            (λ result. pure (without_key result))
            (continue r.0 (λ result. pure (remap err result)) r.1).1)
  unfolding pure
  reported err w' quiet rev kept (returned ok, w2) h = absurd h
  reported err w' quiet rev kept (returned (rejected m k), w2) (s, r, q) =
      mapped err m k w2 (unmoved w' w2 quiet s) (r ∙ rev) (q ∙ kept)
  reported err w' quiet rev kept (threw e, w2) (s, r) = (unmoved w' w2 quiet s, r ∙ rev)

  created :
      Documented site
      → (r : Outcome (Option Json) × World) → IsKeyRequest site post "/api/v1/api-keys" w r
      → IsCreated site w (
          handle
            (continue r.0 (λ data_. created_key data_) r.1).0
            (λ err. do result ← form_error site err; pure (without_key result))
            (continue r.0 (λ data_. created_key data_) r.1).1)
  unfolding form_error member lift pure ◌>>=◌
  created documented (returned data_, w') (request, how, where_, sent, good, e, rev, kept) =
      let (fs, p) = documented w.sent request how where_ good in
      rw (e ∙ p) (request, how, where_, sent, good, rw p refl, rev, kept)
  created documented (threw err, w') (quiet, rev, kept) =
      reported err w' quiet rev kept (to_form_error site err w')
        (to_form_error-IsReport site err w')

-- Where the API answers each successful POST to "/api/v1/api-keys" with an object, as documented, from
-- every state the creation of an API key shows a key only together with a success: then exactly one
-- request was sent, that POST, it succeeded, the key is the one in its answer, and "/api-keys" was
-- revalidated. If an error is shown or the action throws, then no key is shown, nothing is
-- revalidated, and no request succeeded. Unless it throws, the session is as before.
pub create_api_key-IsCreated :
    (rt : Runtime) (site : Site)
    → Documented site
    → (form : FormData) (w : World) → IsCreated site w (create_api_key rt site form w)
unfolding create_api_key try_catch ◌>>=◌
create_api_key-IsCreated rt site documented form w = created site w documented _ (
    key_request-IsKeyRequest site w post "/api/v1/api-keys" []
      (some (create_key_body rt site form)))
