-- ===== src/Web/I18n.antt =====
-- web/src/lib/i18n-errors.ts: the key and the fallback text of a backend message.
pub mod Mapping
use Prim.Native.String.{String, [], ◌∷◌}
use voxeltoad.Common.{
  Bool, true, false, ◌&&◌, ◌||◌, Option, none, some, Char, code, ◌==◌, if◌then◌else◌, strip_prefix,
  trim,
}
use voxeltoad.Js.Exception.{Exception, admin_error, range_error, redirecting, other_error}

pub record MappedError : Type 0 where
  -- the path within the "errors" namespace, if the message is a key
  pub key : Option String
  pub fallback : String

abbrev starts_with_blank : String → Bool
starts_with_blank [] = false
starts_with_blank (c ∷ s) = code c == 32

abbrev rest_of : String → String
rest_of [] = []
rest_of (c ∷ s) = s

abbrev put_before : Char → Option (String × String) → Option (String × String)
put_before c none = none
put_before c (some (key, context)) = some (c ∷ key, context)

-- The texts before and behind the first ": ", if there is one (`indexOf` and two slices).
unfoldable pub split_at_colon : String → Option (String × String)
split_at_colon [] = none
split_at_colon (c ∷ s) =
    let later = put_before c (split_at_colon s) in
    if code c == b':' && starts_with_blank s then some ([], rest_of s) else later

-- `keyPart.includes(".")`
unfoldable pub has_dot : String → Bool
has_dot [] = false
has_dot (c ∷ s) = code c == b'.' || has_dot s

unfoldable pub map_backend_error : String → MappedError
map_backend_error message = elim (strip_prefix "errors." message) [
  | none ↦ record { key = none; fallback = message }
  | some rest ↦ elim (split_at_colon rest) [
    | none ↦
        if has_dot rest
        then record { key = some rest; fallback = message }
        else record { key = none; fallback = message }
    | some (key_part, context) ↦
        if has_dot key_part
        then record { key = some key_part; fallback = trim context }
        else record { key = none; fallback = message }
  ]
]
