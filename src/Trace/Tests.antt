-- ===== src/Trace/Tests.antt =====
-- The trace analysis on a small session, and the theorems at it.
use Prim.Native.String.{String}
use mathlib.Core.List.{map}
use voxeltoad.Common.{ℕ, ◌≡◌, Option, none, some, List, [], ◌∷◌}
use voxeltoad.Js.Json.{Json, str, object, array, lookup}
use voxeltoad.Js.Exception.{returned}
use voxeltoad.Js.Samples.{plain_runtime}
use voxeltoad.Trace.{TraceDetailLike, messages_of, common_prefix_length, pick_baseline}
use voxeltoad.Trace.Prefix.{
  property, signature_of, IsLongestPrefix, common_prefix_length-IsLongestPrefix,
}
use voxeltoad.Trace.Baseline.{IsBaseline, pick_baseline-IsBaseline}
use voxeltoad.Js.Access.{array_or_empty}
use voxeltoad.Trace.Blocks.{Block, blocks_of}
use voxeltoad.Trace.Blocks.Calls.{calls_in, blocks_of-calls}
use voxeltoad.Trace.Output.{parse_output}
use voxeltoad.Trace.Analyze.{AnalyzesTo, analyze-IsAnalysis}

abbrev message : String → String → Json
message role id = object (("role", str role) ∷ ("tool_call_id", str id) ∷ [])

abbrev rules : Json
rules = message "system" ""

abbrev hello : Json
hello = message "user" "a"

abbrev answer : Json
answer = message "assistant" "b"

abbrev request : List Json → TraceDetailLike
request ms = record { messages = some (array ms); request_raw = none; response_raw = none }

abbrev first : TraceDetailLike
first = request (rules ∷ hello ∷ [])

abbrev second : TraceDetailLike
second = request (rules ∷ hello ∷ answer ∷ [])

longest_example :
    (n : ℕ) × (common_prefix_length plain_runtime (rules ∷ hello ∷ answer ∷ []) (rules ∷ hello ∷ [])
      ≡ returned n)
    × IsLongestPrefix n
        (map (signature_of plain_runtime) (rules ∷ hello ∷ answer ∷ []))
        (map (signature_of plain_runtime) (rules ∷ hello ∷ []))
longest_example =
    common_prefix_length-IsLongestPrefix plain_runtime (rules ∷ hello ∷ answer ∷ [])
      (rules ∷ hello ∷ []) (tt, (tt, (tt, tt))) (tt, (tt, tt))

pick_baseline-IsBaseline_example :
    (r : Option TraceDetailLike) × (pick_baseline plain_runtime (λ c. c) second (first ∷ [])
      ≡ returned r)
    × IsBaseline plain_runtime (λ c. c) second (first ∷ []) r
pick_baseline-IsBaseline_example =
    pick_baseline-IsBaseline plain_runtime (λ c. c) second (first ∷ [])
      (unfold messages_of in (tt, (tt, (tt, tt)))) (unfold messages_of in ((tt, (tt, tt)), tt))

abbrev answered : TraceDetailLike
answered = record second { response_raw = some (str "plain") }

analysis_example :
    AnalyzesTo plain_runtime answered (some first) (parse_output plain_runtime (some (str "plain")))
analysis_example =
    analyze-IsAnalysis plain_runtime answered (some first)
      (unfold messages_of in (tt, (tt, (tt, tt)))) (unfold messages_of in (tt, (tt, tt)))

abbrev listing : Json
listing = object (("function", object (("name", str "ls") ∷ [])) ∷ [])

abbrev calling : Json
calling = object (
    ("role", str "assistant")
    ∷ ("content", array (object (("type", str "text") ∷ ("text", str "hi") ∷ []) ∷ []))
    ∷ ("tool_calls", array (listing ∷ []))
    ∷ [])

blocks_of-calls_example :
    (bs : List Block) × (blocks_of plain_runtime calling ≡ returned bs)
    × (calls_in bs ≡ array_or_empty (property "tool_calls" calling))
blocks_of-calls_example =
    blocks_of-calls plain_runtime calling tt (unfold lookup in (tt, tt)) (unfold lookup in (tt, tt))
