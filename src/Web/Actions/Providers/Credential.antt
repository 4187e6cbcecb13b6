-- ===== src/Web/Actions/Providers/Credential.antt =====
-- What `updateProvider` sends, and how it keeps the credential apart.
use Prim.Native.String.{String, [], ◌∷◌}
use voxeltoad.Common.{
  ◌≡◌, ◌⊎◌, inl, inr, refl, Bool, true, false, none, List, [], ◌∷◌, ◌++◌, arith, str_eq, Bool-cases,
  if◌then◌else◌,
}
use voxeltoad.Js.Json.{Json, lookup}
use voxeltoad.Js.Runtime.{Runtime}
use voxeltoad.Web.Form.{FormData, text_field, is_blank, field_if_text}
use voxeltoad.Web.Actions.Providers.{update_fields, weight_field, field_if_any}

-- The fields have no such key.
abbrev Absent : String → List (String × Json) → Type 0
Absent key fields = lookup key fields ≡ none

Absent-nil : (key : String) → Absent key []
unfolding lookup
Absent-nil key = refl

Absent-append :
    (key : String) (xs ys : List (String × Json))
    → Absent key xs
    → Absent key ys
    → Absent key (xs ++ ys)
unfolding lookup
Absent-append key [] ys hx hy = hy
Absent-append key ((k, v) ∷ xs) ys hx hy = ground (arith, Absent-append key xs ys, hx, hy)

Absent-field_if_text : (key k s : String) → str_eq k key ≡ false → Absent key (field_if_text k s)
unfolding lookup
Absent-field_if_text key k [] h = refl
Absent-field_if_text key k (c ∷ s) h = rw h refl

Absent-field_if_any :
    (key k : String) (xs : List Json) → str_eq k key ≡ false → Absent key (field_if_any k xs)
unfolding lookup
Absent-field_if_any key k [] h = refl
Absent-field_if_any key k (x ∷ xs) h = rw h refl

Absent-weight_field :
    (rt : Runtime) (key s : String) → str_eq "weight" key ≡ false → Absent key (weight_field rt s)
unfolding lookup weight_field
Absent-weight_field rt key [] h = refl
Absent-weight_field rt key (c ∷ s) h = rw h refl

if-Absent :
    (key : String) (test : Bool) (xs ys : List (String × Json))
    → Absent key xs
    → Absent key ys
    → Absent key (if test then xs else ys)
if-Absent key true xs ys hx hy = hx
if-Absent key false xs ys hx hy = hy

-- A key other than those of the type, of the endpoints and of the weight stands in the fields of the
-- generic update only where it stands in the middle part.
others :
    (rt : Runtime) (key kind weight : String) (endpoints : List Json)
    (middle : List (String × Json))
    → str_eq "type" key ≡ false
    → str_eq "endpoints" key ≡ false
    → str_eq "weight" key ≡ false
    → Absent key middle
    → Absent key (
        field_if_text "type" kind
        ++ (field_if_any "endpoints" endpoints ++ (middle ++ weight_field rt weight)))
others rt key kind weight endpoints middle a b c h =
    Absent-append key _ _ (Absent-field_if_text key "type" kind a) (
      Absent-append key _ _ (Absent-field_if_any key "endpoints" endpoints b)
        (Absent-append key middle _ h (Absent-weight_field rt key weight c)))

-- The generic update of a provider never carries the credential, and it carries the reference of the
-- credential only if the form gives no new credential.
pub update_fields-Absent :
    (rt : Runtime) (form : FormData)
    → (lookup "api_key" (update_fields rt form) ≡ none)
      × ((is_blank (text_field form "api_key") ≡ true)
          ⊎ (lookup "api_key_ref" (update_fields rt form) ≡ none))
unfolding update_fields
update_fields-Absent rt form = (
  others rt "api_key" _ _ _ _ refl refl refl (
      if-Absent "api_key" (is_blank (text_field form "api_key")) _ _
        (Absent-field_if_text "api_key" "api_key_ref" _ refl) (Absent-nil "api_key")),
  elim (Bool-cases (is_blank (text_field form "api_key"))) [
    | inl blank ↦ inl blank
    | inr given ↦
        inr (others rt "api_key_ref" _ _ _ _ refl refl refl (rw given (Absent-nil "api_key_ref")))
  ],
)
