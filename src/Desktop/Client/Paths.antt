-- ===== src/Desktop/Client/Paths.antt =====
-- A name in the path of a call stays one segment of the path.
use Prim.Native.String.{String, [], ◌∷◌}
use voxeltoad.Common.{ℕ, false, ◌≡◌, refl, Option, List, [], ◌∷◌, ◌++◌, ◌<>◌}
use voxeltoad.Js.Json.{Json}
use voxeltoad.Trace.Prefix.{All}
use voxeltoad.Desktop.Client.{Method, Param, Browser, Api, Call, base, get_json, send_json}
use voxeltoad.Desktop.Client.Endpoints.{
  list_trace_by_session, get_trace_by_request_id, update_provider, delete_provider, update_model,
  delete_model, update_route, delete_route, favorite_session, unfavorite_session, delete_session,
}
use voxeltoad.Desktop.Client.Encoding.{EncodeLaws, is_dotted, IsSegment, encode-IsSegment}

-- The functions that put a name in the path, with what stands before it.
abbrev pub named_operations : Browser → Json → ℕ → List (String × (String → Api Json))
named_operations browser body limit =
    ("/trace/sessions/", λ id. list_trace_by_session browser id limit)
    ∷ ("/trace/requests/", get_trace_by_request_id browser)
    ∷ ("/providers/", λ name. update_provider browser name body)
    ∷ ("/providers/", delete_provider browser)
    ∷ ("/models/", λ alias. update_model browser alias body)
    ∷ ("/models/", delete_model browser)
    ∷ ("/routes/", λ alias. update_route browser alias body)
    ∷ ("/routes/", delete_route browser)
    ∷ ("/session-favorites/", favorite_session browser)
    ∷ ("/session-favorites/", unfavorite_session browser)
    ∷ ("/sessions/", delete_session browser)
    ∷ []

-- The function makes one call, and its path is the prefix and one segment.
abbrev pub StaysUnder : String → List Call → String × (String → Api Json) → Type 0
StaysUnder name sent (prefix, operation) =
    (call : Call) × ((operation name sent).1 ≡ sent ++ call ∷ [])
    × (segment : String) × (call.path ≡ base <> (prefix <> segment))
    × IsSegment segment

module _ (browser : Browser) (laws : EncodeLaws browser) (name : String)
    (named : is_dotted name ≡ false) (sent : List Call) where
  get_stays :
      (prefix : String) (params : List (String × Param))
      → StaysUnder name sent
          (prefix, λ name. get_json browser (prefix <> browser.encode name) params)
  unfolding get_json
  get_stays prefix params = (_, refl, _, refl, encode-IsSegment browser laws name named)

  send_stays :
      (prefix : String) (method : Method) (body : Option Json)
      → StaysUnder name sent
          (prefix, λ name. send_json browser method (prefix <> browser.encode name) body)
  unfolding send_json
  send_stays prefix method body = (_, refl, _, refl, encode-IsSegment browser laws name named)

-- Where `encodeURIComponent` escapes as documented, each of the eleven functions that put an encoded
-- name in the path makes one call, for every name but "", "." and "..", and the name stays one segment
-- of its path, with neither a query nor a fragment, and is none of these three.
pub named_operations-StaysUnder :
    (browser : Browser) (body : Json) (limit : ℕ)
    → EncodeLaws browser
    → (name : String) (sent : List Call) → is_dotted name ≡ false
    → All (StaysUnder name sent) (named_operations browser body limit)
unfolding list_trace_by_session get_trace_by_request_id update_provider delete_provider update_model
    delete_model update_route delete_route favorite_session unfavorite_session delete_session
named_operations-StaysUnder browser body limit laws name sent named = (
  get_stays browser laws name named sent "/trace/sessions/" _,
  (
    get_stays browser laws name named sent "/trace/requests/" _,
    (
      send_stays browser laws name named sent "/providers/" _ _,
      (
        send_stays browser laws name named sent "/providers/" _ _,
        (
          send_stays browser laws name named sent "/models/" _ _,
          (
            send_stays browser laws name named sent "/models/" _ _,
            (
              send_stays browser laws name named sent "/routes/" _ _,
              (
                send_stays browser laws name named sent "/routes/" _ _,
                (
                  send_stays browser laws name named sent "/session-favorites/" _ _,
                  (
                    send_stays browser laws name named sent "/session-favorites/" _ _,
                    (send_stays browser laws name named sent "/sessions/" _ _, tt),
                  ),
                ),
              ),
            ),
          ),
        ),
      ),
    ),
  ),
)
