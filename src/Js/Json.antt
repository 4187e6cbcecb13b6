-- ===== src/Js/Json.antt =====
-- JSON values, as `JSON.parse` returns them and as request bodies are built. An object's keys are
-- in the order of `Object.entries`.
use Prim.Native.String.{String}
use voxeltoad.Common.{Bool, Option, none, some, List, [], ◌∷◌, str_eq, if◌then◌else◌}
use voxeltoad.Js.Number.{Number}

mutual
  pub data Json : Type 0 where
    null : Json
    bool : Bool → Json
    num : Number → Json
    str : String → Json
    arr : Items → Json
    obj : Fields → Json

  pub data Items : Type 0 where
    nil : Items
    cons : Json → Items → Items

  pub data Fields : Type 0 where
    end : Fields
    field : String → Json → Fields → Fields

-- The elements of an array, in order.
abbrev pub elements : Items → List Json
elements nil = []
elements (cons x xs) = x ∷ elements xs

-- `Object.entries(o)`
abbrev pub entries : Fields → List (String × Json)
entries end = []
entries (field k v fs) = (k, v) ∷ entries fs

abbrev pub to_items : List Json → Items
to_items [] = nil
to_items (x ∷ xs) = cons x (to_items xs)

abbrev pub to_fields : List (String × Json) → Fields
to_fields [] = end
to_fields ((k, v) ∷ fs) = field k v (to_fields fs)

-- An object literal.
abbrev pub object : List (String × Json) → Json
object fs = obj (to_fields fs)

abbrev pub array : List Json → Json
array xs = arr (to_items xs)

unfoldable pub lookup {ℓ} : {V : Type ℓ} → String → List (String × V) → Option V
lookup k [] = none
lookup k ((j, v) ∷ m) = if str_eq j k then some v else lookup k m
