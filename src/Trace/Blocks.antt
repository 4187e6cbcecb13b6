-- ===== src/Trace/Blocks.antt =====
-- desktop-ui/src/components/trace/trace-categories.tsx: `blocksOf` and `flattenContent`.
pub mod Calls
use Prim.Native.String.{String, [], ◌∷◌}
use voxeltoad.Common.{
  Bool, true, false, ◌&&◌, ◌||◌, Option, none, some, List, [], ◌∷◌, ◌++◌, str_eq, if◌then◌else◌,
  ◌<>◌,
}
use voxeltoad.Js.Json.{Json, Items, Fields, null, bool, num, str, arr, obj, elements}
use voxeltoad.Js.Exception.{Outcome, returned, threw, ◌>>=◌}
use voxeltoad.Js.Runtime.{Runtime}
use voxeltoad.Js.Access.{member, or_else, to_text, array_or_empty, traverse}

pub data Block : Type 0 where
  text thinking : String → Block
  image : Block
  -- the name of the tool, and the call
  tool_use : String → Json → Block
  -- the id of the call, and the text
  tool_result : String → String → Block
  unknown : Json → Block

abbrev pub is_text : Option Json → Bool
is_text (some (str s)) = true
is_text _ = false

abbrev pub text_or_empty : Option Json → String
text_or_empty (some (str s)) = s
text_or_empty _ = []

-- `typeof v === "string" && v`
abbrev pub is_nonempty_text : Option Json → Bool
is_nonempty_text (some (str [])) = false
is_nonempty_text (some (str (c ∷ s))) = true
is_nonempty_text _ = false

module _ (rt : Runtime) where
  -- the block of one content part, by `p.type`, `p.text` and `p.thinking`
  abbrev pub part_kind : String → Option Json → Option Json → Json → Block
  part_kind kind content thought part =
      if str_eq kind "text" && is_text content
      then text (text_or_empty content)
      else if str_eq kind "image_url"
      then image
      else if str_eq kind "thinking" || str_eq kind "reasoning"
      then thinking (to_text rt (or_else thought (or_else content (str ""))))
      else unknown part

  unfoldable pub part_block : Json → Outcome Block
  part_block part = do
    kind ← member "type" part
    content ← member "text" part
    thought ← member "thinking" part
    returned (part_kind (to_text rt (or_else kind (str ""))) content thought part)

  unfoldable pub content_blocks : Option Json → Outcome (List Block)
  content_blocks none = returned []
  content_blocks (some null) = returned []
  content_blocks (some (str [])) = returned []
  content_blocks (some (str (c ∷ s))) = returned (text (c ∷ s) ∷ [])
  content_blocks (some (arr xs)) = traverse part_block (elements xs)
  content_blocks (some v) = returned (unknown v ∷ [])

  unfoldable pub call_block : Json → Outcome Block
  call_block call = do
    function ← member "function" call
    name ← member "name" (or_else function (obj Fields.end))
    returned (tool_use (to_text rt (or_else name (str "(tool)"))) call)

  -- `typeof content === "string" ? content : JSON.stringify(content ?? "")`
  abbrev result_text : Option Json → String
  result_text (some (str s)) = s
  result_text content = rt.stringify (or_else content (str ""))

  -- the block that `unshift` puts in front
  abbrev pub result_blocks : String → Option Json → Option Json → List Block
  result_blocks role call_id content =
      if str_eq role "tool" || is_nonempty_text call_id
      then tool_result (to_text rt (or_else call_id (str ""))) (result_text content) ∷ []
      else []

  unfoldable pub blocks_of : Json → Outcome (List Block)
  blocks_of message = do
    role ← member "role" message
    content ← member "content" message
    contents ← content_blocks content
    tool_calls ← member "tool_calls" message
    calls ← traverse call_block (array_or_empty tool_calls)
    call_id ← member "tool_call_id" message
    returned
        (result_blocks (to_text rt (or_else role (str ""))) call_id content ++ (contents ++ calls))

  abbrev join_lines : List String → String
  join_lines [] = []
  join_lines (s ∷ []) = s
  join_lines (s ∷ t ∷ ss) = s <> "\n" <> join_lines (t ∷ ss)

  abbrev is_kind : Option Json → String → Bool
  is_kind (some (str s)) kind = str_eq s kind
  is_kind _ kind = false

  unfoldable pub part_text : Json → Outcome String
  part_text part = do
    kind ← member "type" part
    content ← member "text" part
    returned (
        if is_kind kind "text" && is_text content
        then text_or_empty content
        else if is_kind kind "image_url"
        then "[image]"
        else rt.stringify part)

  unfoldable pub flatten_content : Option Json → Outcome String
  flatten_content none = returned []
  flatten_content (some null) = returned []
  flatten_content (some (str s)) = returned s
  flatten_content (some (arr xs)) = do
    parts ← traverse part_text (elements xs)
    returned (join_lines parts)
  flatten_content (some v) = returned (rt.stringify_indent v)
