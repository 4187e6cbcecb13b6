-- ===== src/Trace/Blocks/Calls.antt =====
-- The tool calls among the blocks.
use Prim.Native.String.{String, [], ◌∷◌}
use voxeltoad.Common.{
  ◌≡◌, refl, ap, ◌∙◌, Bool, true, false, ◌&&◌, ◌||◌, Option, none, some, List, [], ◌∷◌, ◌++◌,
  str_eq, Bool-cases, inl, inr, if◌then◌else◌,
}
use voxeltoad.Js.Json.{Json, Fields, null, bool, num, str, arr, obj, elements}
use voxeltoad.Js.Exception.{returned}
use voxeltoad.Js.Runtime.{Runtime}
use voxeltoad.Js.Access.{member, or_else, to_text, array_or_empty, traverse, IsRecord}
use voxeltoad.Trace.Prefix.{All, property}
use voxeltoad.Trace.Blocks.{
  Block, text, thinking, image, tool_use, tool_result, unknown, is_text, is_nonempty_text,
  part_kind, part_block, content_blocks, call_block, result_blocks, blocks_of,
}

-- The calls that the blocks show as uses of a tool, in order.
abbrev pub calls_in : List Block → List Json
calls_in [] = []
calls_in (tool_use name call ∷ bs) = call ∷ calls_in bs
calls_in (text s ∷ bs) = calls_in bs
calls_in (thinking s ∷ bs) = calls_in bs
calls_in (image ∷ bs) = calls_in bs
calls_in (tool_result id s ∷ bs) = calls_in bs
calls_in (unknown v ∷ bs) = calls_in bs

-- The parts of a content.
abbrev pub parts_of : Option Json → List Json
parts_of = array_or_empty

calls_in-append : (xs ys : List Block) → calls_in (xs ++ ys) ≡ calls_in xs ++ calls_in ys
calls_in-append [] ys = refl
calls_in-append (tool_use name call ∷ xs) ys = ap (λ l. call ∷ l) (calls_in-append xs ys)
calls_in-append (text s ∷ xs) ys = calls_in-append xs ys
calls_in-append (thinking s ∷ xs) ys = calls_in-append xs ys
calls_in-append (image ∷ xs) ys = calls_in-append xs ys
calls_in-append (tool_result id s ∷ xs) ys = calls_in-append xs ys
calls_in-append (unknown v ∷ xs) ys = calls_in-append xs ys

pub member-IsRecord :
    (key : String) (v : Json) → IsRecord v → member key v ≡ returned (property key v)
unfolding member
member-IsRecord key null h = elim h [ ]
member-IsRecord key (bool b) h = refl
member-IsRecord key (num n) h = refl
member-IsRecord key (str s) h = refl
member-IsRecord key (arr xs) h = refl
member-IsRecord key (obj fs) h = refl

-- A block that is no use of a tool.
abbrev Quiet : Block → Type 0
Quiet b = (bs : List Block) → calls_in (b ∷ bs) ≡ calls_in bs

if-Quiet : (test : Bool) (a b : Block) → Quiet a → Quiet b → Quiet (if test then a else b)
if-Quiet true a b ha hb = ha
if-Quiet false a b ha hb = hb

or_else-IsRecord : (o : Option Json) → IsRecord (or_else o (obj Fields.end))
or_else-IsRecord none = tt
or_else-IsRecord (some null) = tt
or_else-IsRecord (some (bool b)) = tt
or_else-IsRecord (some (num n)) = tt
or_else-IsRecord (some (str s)) = tt
or_else-IsRecord (some (arr xs)) = tt
or_else-IsRecord (some (obj fs)) = tt

module _ (rt : Runtime) where
  part_kind-Quiet :
      (kind : String) (content thought : Option Json) (part : Json)
      → Quiet (part_kind rt kind content thought part)
  part_kind-Quiet kind content thought part =
      if-Quiet (str_eq kind "text" && is_text content) _ _ (λ bs. refl)
        (if-Quiet (str_eq kind "image_url") _ _ (λ bs. refl)
          (if-Quiet (str_eq kind "thinking" || str_eq kind "reasoning") _ _ (λ bs. refl)
            (λ bs. refl)))

  parts-returned :
      (parts : List Json)
      → All IsRecord parts
      → (bs : List Block) × (traverse (part_block rt) parts ≡ returned bs) × (calls_in bs ≡ [])
  unfolding traverse part_block
  parts-returned [] h = ([], refl, refl)
  parts-returned (p ∷ parts) (hp, h) =
      let (bs, e, quiet) = parts-returned parts h in
      (
        part_kind rt (to_text rt (or_else (property "type" p) (str ""))) (property "text" p)
              (property "thinking" p) p
            ∷ bs,
        rw
            (
              member-IsRecord "type" p hp,
              member-IsRecord "text" p hp,
              member-IsRecord "thinking" p hp,
              e,
            )
            refl,
        part_kind-Quiet (to_text rt (or_else (property "type" p) (str ""))) (property "text" p)
              (property "thinking" p) p bs
            ∙ quiet,
      )

  calls-returned :
      (calls : List Json)
      → All IsRecord calls
      → (bs : List Block) × (traverse (call_block rt) calls ≡ returned bs) × (calls_in bs ≡ calls)
  unfolding traverse call_block
  calls-returned [] h = ([], refl, refl)
  calls-returned (c ∷ calls) (hc, h) =
      let (bs, e, same) = calls-returned calls h in
      let function = or_else (property "function" c) (obj Fields.end) in
      (
        tool_use (to_text rt (or_else (property "name" function) (str "(tool)"))) c ∷ bs,
        rw
            (
              member-IsRecord "function" c hc,
              member-IsRecord "name" function (or_else-IsRecord _),
              e,
            )
            refl,
        ap (λ l. c ∷ l) same,
      )

  content-returned :
      (content : Option Json)
      → All IsRecord (parts_of content)
      → (bs : List Block) × (content_blocks rt content ≡ returned bs) × (calls_in bs ≡ [])
  unfolding content_blocks
  content-returned none h = ([], refl, refl)
  content-returned (some null) h = ([], refl, refl)
  content-returned (some (bool b)) h = (unknown (bool b) ∷ [], refl, refl)
  content-returned (some (num n)) h = (unknown (num n) ∷ [], refl, refl)
  content-returned (some (str [])) h = ([], refl, refl)
  content-returned (some (str (c ∷ s))) h = (text (c ∷ s) ∷ [], refl, refl)
  content-returned (some (arr xs)) h = parts-returned (elements xs) h
  content-returned (some (obj fs)) h = (unknown (obj fs) ∷ [], refl, refl)

  results-quiet :
      (role : String) (id content : Option Json) (bs : List Block)
      → calls_in (result_blocks rt role id content ++ bs) ≡ calls_in bs
  results-quiet role id content bs = elim (Bool-cases (str_eq role "tool" || is_nonempty_text id)) [
    | inl shown ↦ rw shown refl
    | inr hidden ↦ rw hidden refl
  ]

  -- Of a message that is not `null`, with no `null` among the parts of its content and its tool calls,
  -- `blocksOf` returns, and the uses of tools among its blocks are exactly the tool calls of the
  -- message, in order, each once.
  pub blocks_of-calls :
      (message : Json)
      → IsRecord message
      → All IsRecord (parts_of (property "content" message))
      → All IsRecord (array_or_empty (property "tool_calls" message))
      → (bs : List Block) × (blocks_of rt message ≡ returned bs)
        × (calls_in bs ≡ array_or_empty (property "tool_calls" message))
  unfolding blocks_of
  blocks_of-calls message hm hp hc =
      let (contents, e, quiet) = content-returned (property "content" message) hp in
      let (calls, f, same) = calls-returned (array_or_empty (property "tool_calls" message)) hc in
      let role = to_text rt (or_else (property "role" message) (str "")) in
      let id = property "tool_call_id" message in
      let content = property "content" message in
      (
        result_blocks rt role id content ++ (contents ++ calls),
        rw
            (
              member-IsRecord "role" message hm,
              member-IsRecord "content" message hm,
              member-IsRecord "tool_calls" message hm,
              member-IsRecord "tool_call_id" message hm,
              e,
              f,
            )
            refl,
        results-quiet role id content (contents ++ calls)
            ∙ (calls_in-append contents calls ∙ rw (quiet, same) refl),
      )
