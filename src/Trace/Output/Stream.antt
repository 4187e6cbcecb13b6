-- ===== src/Trace/Output/Stream.antt =====
-- `reassembleSSE` of desktop-ui/src/components/trace/trace-categories.tsx: the text and the tool calls
-- of a streamed response, put together from its chunks.
use Prim.Native.String.{String, [], ◌∷◌}
use voxeltoad.Common.{
  Bool, true, false, ◌||◌, Option, none, some, List, [], ◌∷◌, map, str_eq, trim, trim_start,
  strip_prefix, ◌<>◌, if◌then◌else◌,
}
use voxeltoad.Common.Int.{pos}
use voxeltoad.Js.Number.{Number, int, same_key, is_less}
use voxeltoad.Js.Json.{Json, null, num, str, object}
use voxeltoad.Js.Exception.{Outcome, returned, ◌>>=◌}
use voxeltoad.Js.Runtime.{Runtime}
use voxeltoad.Js.Access.{member, or_else, array_or_empty, as_string, is_truthy, traverse}
use voxeltoad.Js.Split.{split_at_code}

-- One element of `delta.tool_calls`: the parts that are of the right type. The id is no empty text.
pub record Fragment : Type 0 where
  pub index : Number
  pub id : Option String
  pub name : Option String
  pub arguments : Option String

-- A call under construction: `{id, type: "function", function: {name, arguments}}`.
pub record ToolCall : Type 0 where
  pub id : String
  pub name : String
  pub arguments : String

abbrev pub new_call : ToolCall
new_call = record { id = ""; name = ""; arguments = "" }

abbrev number_or_zero : Option Json → Number
number_or_zero (some (num n)) = n
number_or_zero _ = int (pos 0)

abbrev if_nonempty : Option String → Option String
if_nonempty (some (c ∷ s)) = some (c ∷ s)
if_nonempty _ = none

unfoldable pub read_fragment : Json → Outcome Fragment
read_fragment call = do
  index ← member "index" call
  function ← member "function" call
  let new_function = or_else function (object [])
  name ← member "name" new_function
  arguments ← member "arguments" new_function
  id ← member "id" call
  returned (record {
    index = number_or_zero index;
    id = if_nonempty (as_string id);
    name = as_string name;
    arguments = as_string arguments;
  })

abbrev pub extend : String → Option String → String
extend s none = s
extend s (some t) = s <> t

abbrev pub replace : String → Option String → String
replace s none = s
replace s (some t) = t

unfoldable pub add_fragment : Fragment → ToolCall → ToolCall
add_fragment f c = record {
  id = replace c.id f.id;
  name = extend c.name f.name;
  arguments = extend c.arguments f.arguments;
}

-- `toolCallsByIndex.get` or a new call, and `set`: a key keeps its place.
unfoldable pub merge : List (Number × ToolCall) → Fragment → List (Number × ToolCall)
merge [] f = (f.index, add_fragment f new_call) ∷ []
merge ((k, c) ∷ calls) f =
    let rest = merge calls f in
    if same_key k f.index then (k, add_fragment f c) ∷ calls else (k, c) ∷ rest

unfoldable pub merge_all : List (Number × ToolCall) → List Fragment → List (Number × ToolCall)
merge_all calls [] = calls
merge_all calls (f ∷ fs) = merge_all (merge calls f) fs

pub record Stream : Type 0 where
  pub saw_any : Bool
  pub content : String
  pub calls : List (Number × ToolCall)

-- `line.trimStart()` behind "data:", trimmed; `none` for a line that is passed over
abbrev pub payload_behind : Option String → Option String
payload_behind none = none
payload_behind (some s) =
    let payload = trim s in
    if str_eq payload "[DONE]" || str_eq payload "" then none else some payload

unfoldable pub payload_of : String → Option String
payload_of line = payload_behind (strip_prefix "data:" (trim_start line))

-- `(xs[0] as … | undefined)?.key`
unfoldable pub first_of : String → List Json → Outcome (Option Json)
first_of key [] = returned none
first_of key (null ∷ xs) = returned none
first_of key (v ∷ xs) = member key v

abbrev read_delta : Stream → Json → Outcome Stream
read_delta s delta = do
  content ← member "content" delta
  tool_calls ← member "tool_calls" delta
  fragments ← traverse read_fragment (array_or_empty tool_calls)
  returned (record s {
    content = extend s.content (as_string content);
    calls = merge_all s.calls fragments;
  })

abbrev read_truthy_delta : Stream → Option Json → Outcome Stream
read_truthy_delta s none = returned s
read_truthy_delta s (some delta) = if is_truthy delta then read_delta s delta else returned s

unfoldable pub read_chunk : Stream → Json → Outcome Stream
read_chunk s chunk = do
  choices ← member "choices" chunk
  delta ← first_of "delta" (array_or_empty choices)
  read_truthy_delta (record s { saw_any = true }) delta

module _ (rt : Runtime) where
  abbrev read_parsed : Stream → Option Json → Outcome Stream
  read_parsed s none = returned s
  read_parsed s (some chunk) = read_chunk s chunk

  abbrev read_payload : Stream → Option String → Outcome Stream
  read_payload s none = returned s
  read_payload s (some payload) = read_parsed s (rt.json_parse payload)

  unfoldable pub read_lines : Stream → List String → Outcome Stream
  read_lines s [] = returned s
  read_lines s (line ∷ lines) = do s' ← read_payload s (payload_of line); read_lines s' lines

-- `Array.from(….entries()).sort((a, b) => a[0] - b[0])`, which is stable
abbrev pub insert : Number × ToolCall → List (Number × ToolCall) → List (Number × ToolCall)
insert e [] = e ∷ []
insert (k, c) ((j, d) ∷ es) =
    let rest = insert (k, c) es in if is_less j k then (j, d) ∷ rest else (k, c) ∷ (j, d) ∷ es

unfoldable pub sort_entries : List (Number × ToolCall) → List (Number × ToolCall)
sort_entries [] = []
sort_entries (e ∷ es) = insert e (sort_entries es)

unfoldable pub call_json : ToolCall → Json
call_json c = object (
    ("id", str c.id)
    ∷ ("type", str "function")
    ∷ ("function", object (("name", str c.name) ∷ ("arguments", str c.arguments) ∷ []))
    ∷ [])

abbrev pub entry_call : Number × ToolCall → Json
entry_call (k, c) = call_json c

abbrev stream_result : Stream → Option (String × List Json)
stream_result s =
    if s.saw_any then some (s.content, map entry_call (sort_entries s.calls)) else none

-- `reassembleSSE`; `none` is its `null`
unfoldable pub reassemble_sse : Runtime → String → Outcome (Option (String × List Json))
reassemble_sse rt transcript = do
  s ←
      read_lines rt (record { saw_any = false; content = ""; calls = [] })
        (split_at_code 10 transcript)
  returned (stream_result s)
