-- ===== src/Trace/Output.antt =====
-- `parseOutput` of desktop-ui/src/components/trace/trace-categories.tsx: what a response says, be it
-- one JSON body or a stream of chunks.
pub mod Stream
pub mod Gather
mod Tests
use Prim.Native.String.{String, [], ◌∷◌}
use voxeltoad.Common.{Bool, true, false, Option, none, some, List, [], ◌∷◌, if◌then◌else◌}
use voxeltoad.Js.Json.{Json, null, bool, num, str, arr, obj, elements}
use voxeltoad.Js.Exception.{Outcome, returned, threw, ◌>>=◌}
use voxeltoad.Js.Runtime.{Runtime}
use voxeltoad.Js.Access.{member, is_truthy}
use voxeltoad.Trace.Blocks.{flatten_content}
use voxeltoad.Trace.Output.Stream.{reassemble_sse, first_of}

-- `OutputItem`
pub record OutputItem : Type 0 where
  pub text : String
  pub tool_calls : Option (List Json)
  pub raw : String

-- `typeof responseRaw === "string" ? responseRaw : JSON.stringify(responseRaw)`
abbrev pub raw_text : Runtime → Json → String
raw_text rt (str s) = s
raw_text rt v = rt.stringify v

-- `obj`; `none` is its `null`
abbrev pub response_object : Runtime → Json → Option Json
response_object rt (str s) = rt.json_parse s
response_object rt (arr xs) = some (arr xs)
response_object rt (obj fs) = some (obj fs)
response_object rt v = none

-- `Array.isArray(v) ? v : undefined`
abbrev pub array_only : Option Json → Option (List Json)
array_only (some (arr xs)) = some (elements xs)
array_only _ = none

abbrev first_message : Option (List Json) → Outcome (Option Json)
first_message none = returned none
first_message (some xs) = first_of "message" xs

-- the message of the first choice, if there is a truthy one
abbrev message_in : Option Json → Outcome (Option Json)
message_in none = returned none
message_in (some v) =
    if is_truthy v
    then (do choices ← member "choices" v; first_message (array_only choices))
    else returned none

abbrev some_calls : List Json → Option (List Json)
some_calls [] = none
some_calls (c ∷ cs) = some (c ∷ cs)

abbrev plain_item : String → OutputItem
plain_item raw = record { text = raw; tool_calls = none; raw = raw }

-- The result of `reassembleSSE`, and the text as it is if there is none or it threw.
abbrev stream_item : String → Outcome (Option (String × List Json)) → OutputItem
stream_item raw (returned (some (content, calls))) = record {
  text = content;
  tool_calls = some_calls calls;
  raw = raw;
}
stream_item raw (returned none) = plain_item raw
stream_item raw (threw e) = plain_item raw

module _ (rt : Runtime) where
  abbrev pub other_item : Json → OutputItem
  other_item (str s) = stream_item s (reassemble_sse rt s)
  other_item v = plain_item (raw_text rt v)

  abbrev pub message_item : Json → Json → Outcome OutputItem
  message_item v message = do
    content ← member "content" message
    text ← flatten_content rt content
    tool_calls ← member "tool_calls" message
    returned (record { text = text; tool_calls = array_only tool_calls; raw = raw_text rt v })

  abbrev item_for : Json → Option Json → Outcome OutputItem
  item_for v none = returned (other_item v)
  item_for v (some message) =
      if is_truthy message then message_item v message else returned (other_item v)

  abbrev item_of : Json → Outcome (Option OutputItem)
  item_of v = do
    message ← message_in (response_object rt v)
    item ← item_for v message
    returned (some item)

  unfoldable pub parse_output : Option Json → Outcome (Option OutputItem)
  parse_output none = returned none
  parse_output (some null) = returned none
  parse_output (some (str [])) = returned none
  parse_output (some v) = item_of v
