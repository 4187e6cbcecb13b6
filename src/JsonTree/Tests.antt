-- ===== src/JsonTree/Tests.antt =====
-- The tree of a small value, and the theorems at it.
use voxeltoad.Common.{◌≡◌, refl, true, [], ◌∷◌}
use voxeltoad.Js.Json.{Json, null, bool, str, object, array}
use voxeltoad.JsonTree.{build_tree, collapsed_preview}
use voxeltoad.JsonTree.Reading.{value_of, value_of-build_tree}
use voxeltoad.Js.Samples.{plain_runtime}
use voxeltoad.Js.Decimal.{decimal}

abbrev sample : Json
sample = object (("a", array (str "x" ∷ null ∷ [])) ∷ ("b", bool true) ∷ [])

value_of-build_tree_example : value_of (build_tree sample "root" "root") ≡ sample
value_of-build_tree_example = value_of-build_tree sample "root" "root"

previews :
    collapsed_preview plain_runtime (build_tree (array (null ∷ [])) "root" "root") ≡ "[…] 1 item"
unfolding collapsed_preview build_tree decimal
previews = refl
