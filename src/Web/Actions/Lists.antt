-- ===== src/Web/Actions/Lists.antt =====
-- Texts that hold lists: `split`, `filter(Boolean)` and `parseList`.
use Prim.Native.String.{String}
use voxeltoad.Common.{code, ◌||◌, List, ◌==◌, is_space}
pub use voxeltoad.Js.Split.{split_by, split_at_code, nonempty}

-- `raw.split(/[,\s]+/).map(trim).filter(Boolean)`: a run of separators counts as one in the source
-- and as several here, which differ in empty pieces alone, and a piece has no space to trim.
unfoldable pub parse_list : String → List String
parse_list raw = nonempty (split_by (λ c. code c == b',' || is_space c) raw)
