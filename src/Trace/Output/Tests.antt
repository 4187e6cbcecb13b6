-- ===== src/Trace/Output/Tests.antt =====
-- Two tool calls whose fragments are interleaved.
use Prim.Native.String.{String}
use voxeltoad.Common.{ℕ, ◌≡◌, Option, none, some, List, [], ◌∷◌, map}
use voxeltoad.Trace.Output.Stream.{merge_all}
use voxeltoad.Trace.Output.Gather.{
  Piece, to_fragment, find_call, pieces_at, assembled, merge_all-assembled,
}

abbrev piece : ℕ → Option String → Option String → Option String → Piece
piece i id name arguments = record { place = i; id = id; name = name; arguments = arguments }

abbrev pieces : List Piece
pieces =
    piece 0 (some "call_a") (some "read") (some "")
    ∷ piece 1 (some "call_b") (some "list") none
    ∷ piece 0 none none (some "{\"path\":")
    ∷ piece 1 none none (some "{}")
    ∷ piece 0 none none (some "\"a\"}")
    ∷ []

merge_all-assembled_example :
    find_call 0 (merge_all [] (map to_fragment pieces)) ≡ assembled (pieces_at 0 pieces)
merge_all-assembled_example = merge_all-assembled pieces 0
