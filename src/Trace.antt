-- ===== src/Trace.antt =====
-- desktop-ui/src/components/trace: the analysis of one request's trace against an earlier one.
pub mod Prefix
pub mod Blocks
pub mod Baseline
pub mod Analyze
pub mod Output
mod Tests
use Prim.Native.String.{String}
use voxeltoad.Common.{
  ℕ, zero, suc, Bool, true, false, not, Option, none, some, List, [], ◌∷◌, str_eq, if◌then◌else◌,
  ltb, ◌<>◌, take, drop,
}
use voxeltoad.Js.Json.{Json, str, obj, entries, lookup}
use voxeltoad.Js.Exception.{Outcome, returned, ◌>>=◌}
use voxeltoad.Js.Runtime.{Runtime}
use voxeltoad.Js.Access.{member, or_else, to_text, array_or_empty, filter_by}

-- `TraceDetailLike`, less `stream`, which nothing here reads
pub record TraceDetailLike : Type 0 where
  pub messages : Option Json
  pub request_raw : Option Json
  pub response_raw : Option Json

unfoldable pub messages_of : Option TraceDetailLike → List Json
messages_of none = []
messages_of (some detail) = array_or_empty detail.messages

-- The three parts of `signature` as one text.
abbrev pub signature_text : Runtime → Option Json → Option Json → Option Json → String
signature_text rt role content id =
    to_text rt (or_else role (str ""))
    <> "|"
    <> rt.stringify (or_else content (str ""))
    <> "|"
    <> to_text rt (or_else id (str ""))

module _ (rt : Runtime) where
  unfoldable pub signature : Json → Outcome String
  signature m = do
    role ← member "role" m
    content ← member "content" m
    id ← member "tool_call_id" m
    returned (signature_text rt role content id)

  -- the loop of `commonPrefixLength`, which stops at the end of the shorter list
  unfoldable pub common_prefix_length : List Json → List Json → Outcome ℕ
  common_prefix_length [] b = returned 0
  common_prefix_length (x ∷ a) [] = returned 0
  common_prefix_length (x ∷ a) (y ∷ b) = do
    s ← signature x
    t ← signature y
    (let rest = (do n ← common_prefix_length a b; returned (suc n)) in
        if str_eq s t then rest else returned 0)

  -- the loop of `pickBaseline`: the best candidate so far and its score
  unfoldable pub pick_from {ℓ} :
      {T : Type ℓ} → (T → TraceDetailLike) → List Json → Option T → ℕ → List T → Outcome (Option T)
  pick_from detail current best best_len [] = returned best
  pick_from detail current best best_len (c ∷ candidates) = do
    len ← common_prefix_length current (messages_of (some (detail c)))
    pick_from detail current (if ltb best_len len then some c else best)
        (if ltb best_len len then len else best_len) candidates

  unfoldable pub pick_baseline {ℓ} :
      {T : Type ℓ} → (T → TraceDetailLike) → TraceDetailLike → List T → Outcome (Option T)
  pick_baseline detail current candidates = elim (messages_of (some current)) [
    | [] ↦ returned none
    | m ∷ ms ↦ pick_from detail (m ∷ ms) none 0 candidates
  ]

  -- `String(m.role ?? "") === "system"`
  unfoldable pub is_system : Json → Outcome Bool
  is_system m = do
    role ← member "role" m
    returned (str_eq (to_text rt (or_else role (str ""))) "system")

  unfoldable pub not_system : Json → Outcome Bool
  not_system m = do system ← is_system m; returned (not system)

-- `extractTools`
unfoldable pub extract_tools : Option Json → List Json
extract_tools (some (obj fs)) = array_or_empty (lookup "tools" (entries fs))
extract_tools _ = []
