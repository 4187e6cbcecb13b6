-- ===== src/JsonTree/Reading.antt =====
-- The tree holds the value, and its sizes are right.
use Prim.Native.String.{String}
use text.Mathlib.TextLemmas.{append_assoc}
use voxeltoad.Common.{◌≡◌, refl, ap, ℕ, suc, ◌+◌, false, Option, none, some, length, ◌<>◌}
use voxeltoad.Js.Json.{Json, Items, Fields, null, bool, num, str, arr, obj, elements, entries}
use voxeltoad.JsonTree.{
  JsonNode, Nodes, node, absent, last, next, object_node, array_node, string_node, number_node,
  boolean_node, null_node, build_tree, build_fields, build_items, child_path,
}

abbrev or_null : Option Json → Json
or_null none = null
or_null (some v) = v

abbrev key_of : JsonNode → String
key_of (node path key kind value children size) = key

-- The value that a tree shows.
unfoldable mutual
  pub value_of : JsonNode → Json
  value_of (node path key object_node value children size) = obj (fields_of children)
  value_of (node path key array_node value children size) = arr (items_of children)
  value_of (node path key string_node value children size) = or_null value
  value_of (node path key number_node value children size) = or_null value
  value_of (node path key boolean_node value children size) = or_null value
  value_of (node path key null_node value children size) = or_null value

  pub fields_of : Nodes → Fields
  fields_of absent = Fields.end
  fields_of last = Fields.end
  fields_of (next n ns) = Fields.field (key_of n) (value_of n) (fields_of ns)

  pub items_of : Nodes → Items
  items_of absent = Items.nil
  items_of last = Items.nil
  items_of (next n ns) = Items.cons (value_of n) (items_of ns)

unfoldable pub count_nodes : Nodes → ℕ
count_nodes absent = 0
count_nodes last = 0
count_nodes (next n ns) = suc (count_nodes ns)

-- Every size in the tree is the number of the node's children.
unfoldable mutual
  pub IsSized : JsonNode → Type 0
  IsSized (node path key kind value children size) =
      (size ≡ count_nodes children) × AllSized children

  pub AllSized : Nodes → Type 0
  AllSized absent = Unit
  AllSized last = Unit
  AllSized (next n ns) = IsSized n × AllSized ns

key_of-build_tree : (v : Json) (key path : String) → key_of (build_tree v key path) ≡ key
unfolding build_tree
key_of-build_tree null key path = refl
key_of-build_tree (bool b) key path = refl
key_of-build_tree (num n) key path = refl
key_of-build_tree (str s) key path = refl
key_of-build_tree (arr xs) key path = refl
key_of-build_tree (obj fs) key path = refl

mutual
  unfolding value_of build_tree

  reads : (v : Json) (key path : String) → value_of (build_tree v key path) ≡ v
  reads null key path = refl
  reads (bool b) key path = refl
  reads (num n) key path = refl
  reads (str s) key path = refl
  reads (arr xs) key path = ap arr (reads_items xs 0 path)
  reads (obj fs) key path = ap obj (reads_fields fs path)

  reads_fields : (fs : Fields) (path : String) → fields_of (build_fields fs path) ≡ fs
  reads_fields Fields.end path = refl
  reads_fields (Fields.field k v fs) path =
      rw
        (
          key_of-build_tree v k (child_path path k false),
          reads v k (child_path path k false),
          reads_fields fs path,
        )
        refl

  reads_items : (xs : Items) (i : ℕ) (path : String) → items_of (build_items xs i path) ≡ xs
  reads_items Items.nil i path = refl
  reads_items (Items.cons v xs) i path = rw (reads v _ _, reads_items xs (i + 1) path) refl

-- The value can be read back from its tree, wherever the tree stands.
pub value_of-build_tree : (v : Json) (key path : String) → value_of (build_tree v key path) ≡ v
value_of-build_tree v key path = reads v key path

mutual
  unfolding IsSized build_tree count_nodes

  sized : (v : Json) (key path : String) → IsSized (build_tree v key path)
  sized null key path = (refl, tt)
  sized (bool b) key path = (refl, tt)
  sized (num n) key path = (refl, tt)
  sized (str s) key path = (refl, tt)
  sized (arr xs) key path = (count_items xs 0 path, sized_items xs 0 path)
  sized (obj fs) key path = (count_fields fs path, sized_fields fs path)

  sized_fields : (fs : Fields) (path : String) → AllSized (build_fields fs path)
  sized_fields Fields.end path = tt
  sized_fields (Fields.field k v fs) path =
      (sized v k (child_path path k false), sized_fields fs path)

  sized_items : (xs : Items) (i : ℕ) (path : String) → AllSized (build_items xs i path)
  sized_items Items.nil i path = tt
  sized_items (Items.cons v xs) i path = (sized v _ _, sized_items xs (i + 1) path)

  count_fields :
      (fs : Fields) (path : String) → length (entries fs) ≡ count_nodes (build_fields fs path)
  count_fields Fields.end path = refl
  count_fields (Fields.field k v fs) path = ap suc (count_fields fs path)

  count_items :
      (xs : Items) (i : ℕ) (path : String)
      → length (elements xs) ≡ count_nodes (build_items xs i path)
  count_items Items.nil i path = refl
  count_items (Items.cons v xs) i path = ap suc (count_items xs (i + 1) path)

-- Every size that the tree shows is the number of the node's children.
pub build_tree-IsSized : (v : Json) (key path : String) → IsSized (build_tree v key path)
build_tree-IsSized v key path = sized v key path

-- The path of a member of a member is that of one member whose key joins the two by a point, so paths
-- are not unique.
pub child_path_joined :
    (path k l : String)
    → child_path (child_path path k false) l false ≡ child_path path (k <> "." <> l) false
unfolding child_path
child_path_joined path k l = simp (append_assoc)
