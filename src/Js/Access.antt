-- ===== src/Js/Access.antt =====
-- Reading a value of unknown shape, as the source does behind its casts to
-- `Record<string, unknown>`: `undefined` is `none`, and a property of `null` is a TypeError.
use Prim.Native.String.{String, [], ◌∷◌}
use voxeltoad.Js.Number.{truthy}
use voxeltoad.Common.{Bool, true, false, Option, none, some, List, [], ◌∷◌, if◌then◌else◌}
use voxeltoad.Js.Json.{Json, null, bool, num, str, arr, obj, elements, entries, lookup}
use voxeltoad.Js.Exception.{Outcome, returned, threw, other_error, ◌>>=◌}
use voxeltoad.Js.Runtime.{Runtime}

-- `v.key`. The keys that the source reads are no properties of strings, numbers or arrays.
unfoldable pub member : String → Json → Outcome (Option Json)
member key null = threw (other_error "TypeError" "Cannot read properties of null")
member key (obj fs) = returned (lookup key (entries fs))
member key v = returned none

-- `v ?? fallback`
abbrev pub or_else : Option Json → Json → Json
or_else none fallback = fallback
or_else (some null) fallback = fallback
or_else (some v) fallback = v

-- `if (v)`
abbrev pub is_truthy : Json → Bool
is_truthy null = false
is_truthy (bool b) = b
is_truthy (num n) = truthy n
is_truthy (str []) = false
is_truthy (str (c ∷ s)) = true
is_truthy v = true

-- `String(v)`
unfoldable pub to_text : Runtime → Json → String
to_text rt null = "null"
to_text rt (bool b) = if b then "true" else "false"
to_text rt (num n) = rt.number_text n
to_text rt (str s) = s
to_text rt v = rt.object_text v

-- `Array.isArray(v) ? v : []`
abbrev pub array_or_empty : Option Json → List Json
array_or_empty (some (arr xs)) = elements xs
array_or_empty _ = []

-- `typeof v === "string"`, with the text
abbrev pub as_string : Option Json → Option String
as_string (some (str s)) = some s
as_string _ = none

-- A value that has properties: anything but `null`.
abbrev pub IsRecord : Json → Type 0
IsRecord null = ⊥
IsRecord v = Unit

module _ {ℓ κ} {A : Type ℓ} {B : Type κ} where
  unfoldable pub traverse : (A → Outcome B) → List A → Outcome (List B)
  traverse f [] = returned []
  traverse f (x ∷ xs) = do y ← f x; ys ← traverse f xs; returned (y ∷ ys)

module _ {ℓ} {A : Type ℓ} where
  -- `xs.filter(test)` where the test may throw
  unfoldable pub filter_by : (A → Outcome Bool) → List A → Outcome (List A)
  filter_by test [] = returned []
  filter_by test (x ∷ xs) = do
    keep ← test x
    rest ← filter_by test xs
    returned (if keep then x ∷ rest else rest)
