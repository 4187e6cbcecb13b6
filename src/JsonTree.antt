-- ===== src/JsonTree.antt =====
-- desktop-ui/src/lib/json-tree.ts: the tree that the JSON view shows.
pub mod Reading
mod Tests
use Prim.Native.String.{String, [], ◌∷◌}
use voxeltoad.Common.{
  ℕ, ◌+◌, Bool, true, false, Option, none, some, List, [], ◌∷◌, ◌==◌, length, if◌then◌else◌, ◌<>◌,
}
use voxeltoad.Js.Number.{Number}
use voxeltoad.Js.Json.{Json, Items, Fields, null, bool, num, str, arr, obj, elements, entries}
use voxeltoad.Js.Decimal.{decimal}
use voxeltoad.Js.Runtime.{Runtime}

pub data JsonNodeType : Type 0 where
  object_node array_node string_node number_node boolean_node null_node : JsonNodeType

-- `JsonNode`: path, key, type, `primitiveValue` if there is one, children, and size. `children` is
-- `absent` for a primitive value.
mutual
  pub data JsonNode : Type 0 where
    node : String → String → JsonNodeType → Option Json → Nodes → ℕ → JsonNode

  pub data Nodes : Type 0 where
    absent : Nodes
    last : Nodes
    next : JsonNode → Nodes → Nodes

-- `typeOf`
abbrev pub type_of : Json → JsonNodeType
type_of null = null_node
type_of (arr xs) = array_node
type_of (str s) = string_node
type_of (num n) = number_node
type_of (bool b) = boolean_node
type_of (obj fs) = object_node

unfoldable pub child_path : String → String → Bool → String
child_path parent_path key is_index =
    if is_index then parent_path <> "[" <> key <> "]" else parent_path <> "." <> key

unfoldable mutual
  pub build_tree : Json → String → String → JsonNode
  build_tree (obj fs) key path =
      node path key (type_of (obj fs)) none (build_fields fs path) (length (entries fs))
  build_tree (arr xs) key path =
      node path key (type_of (arr xs)) none (build_items xs 0 path) (length (elements xs))
  build_tree null key path = node path key (type_of null) (some null) absent 0
  build_tree (bool b) key path = node path key (type_of (bool b)) (some (bool b)) absent 0
  build_tree (num n) key path = node path key (type_of (num n)) (some (num n)) absent 0
  build_tree (str s) key path = node path key (type_of (str s)) (some (str s)) absent 0

  -- the children of an object
  pub build_fields : Fields → String → Nodes
  build_fields Fields.end path = last
  build_fields (Fields.field k v fs) path =
      next (build_tree v k (child_path path k false)) (build_fields fs path)

  -- the children of an array, from the i-th one
  pub build_items : Items → ℕ → String → Nodes
  build_items Items.nil i path = last
  build_items (Items.cons v xs) i path =
      next (build_tree v (decimal i) (child_path path (decimal i) true))
        (build_items xs (i + 1) path)

pub data ParseResult : Type 0 where
  ok : JsonNode → ParseResult
  failed : String → ParseResult

module _ (rt : Runtime) where
  -- `parseJsonValue` of a value that is not `undefined`
  unfoldable pub parse_json_value : Json → ParseResult
  parse_json_value (str s) = elim (rt.json_parse s) [
    | none ↦ failed s
    | some v ↦ ok (build_tree v "root" "root")
  ]
  parse_json_value v = ok (build_tree v "root" "root")

  abbrev count_text : ℕ → String → String → String
  count_text n one many = decimal n <> " " <> (if n == 1 then one else many)

  unfoldable pub collapsed_preview : JsonNode → String
  collapsed_preview (node path key object_node value children size) =
      "{…} " <> count_text size "key" "keys"
  collapsed_preview (node path key array_node value children size) =
      "[…] " <> count_text size "item" "items"
  collapsed_preview _ = ""

  -- `String(v)` of a primitive value
  abbrev text_of : Option Json → String
  text_of none = "undefined"
  text_of (some (num n)) = rt.number_text n
  text_of (some (bool b)) = if b then "true" else "false"
  text_of (some (str s)) = s
  text_of (some v) = rt.object_text v

  abbrev stringify_value : Option Json → String
  stringify_value none = "undefined"
  stringify_value (some v) = rt.stringify v

  unfoldable pub primitive_display : JsonNode → String
  primitive_display (node path key string_node value children size) = stringify_value value
  primitive_display (node path key null_node value children size) = "null"
  primitive_display (node path key type_name value children size) = text_of value
