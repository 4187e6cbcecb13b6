-- ===== src/Web/I18n/Mapping.antt =====
-- Which messages map to a key, and to what.
use Prim.Native.String.{String, [], ◌∷◌}
use text.Mathlib.TextLemmas.{nil-append, cons-append}
use voxeltoad.Common.{
  ◌≡◌, refl, true, none, some, arith, ◌<>◌, Lacks, strip_prefix, strip_prefix-append, trim,
}
use voxeltoad.Web.I18n.{split_at_colon, has_dot, map_backend_error}

split_at_colon-append :
    (k context : String)
    → Lacks b':' k
    → split_at_colon (k <> (": " <> context)) ≡ some (k, context)
unfolding split_at_colon
split_at_colon-append [] context h = rw nil-append (rw (cons-append, cons-append, nil-append) refl)
split_at_colon-append (c ∷ k) context (hc, h) =
    rw (cons-append c k (": " <> context)) (rw (split_at_colon-append k context h) (ground arith))

split_at_colon-Lacks : (k : String) → Lacks b':' k → split_at_colon k ≡ none
unfolding split_at_colon
split_at_colon-Lacks [] h = refl
split_at_colon-Lacks (c ∷ k) (hc, h) = rw (split_at_colon-Lacks k h) (ground arith)

-- A key of the backend, alone or followed by ": " and a context, maps to the key behind "errors."
-- and to the trimmed context, or to the message itself where there is no context; the key has a dot
-- and no colon.
pub map_backend_error-key :
    (k context : String)
    → has_dot k ≡ true
    → Lacks b':' k
    → (map_backend_error ("errors." <> k) ≡ record { key = some k; fallback = "errors." <> k })
      × (map_backend_error ("errors." <> (k <> (": " <> context)))
          ≡ record { key = some k; fallback = trim context })
unfolding map_backend_error
map_backend_error-key k context dot h = (
  ground (arith, strip_prefix-append "errors." k, split_at_colon-Lacks k h),
  ground (
    arith,
    strip_prefix-append "errors." (k <> (": " <> context)),
    split_at_colon-append k context h,
  ),
)

-- A message that does not begin with "errors." has no key and is its own fallback.
pub map_backend_error-plain :
    (message : String)
    → strip_prefix "errors." message ≡ none
    → map_backend_error message ≡ record { key = none; fallback = message }
unfolding map_backend_error
map_backend_error-plain message h = ground arith
