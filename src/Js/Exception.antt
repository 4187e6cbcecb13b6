-- ===== src/Js/Exception.antt =====
-- What the front ends throw, and the result of a call that may throw.
use Prim.Native.String.{String, [], ◌∷◌}
use voxeltoad.Common.{ℕ, ◌<>◌}

pub data Exception : Type 0 where
  -- `AdminError` of sdk/typescript/src/admin.ts: status, message, type
  admin_error : ℕ → String → String → Exception
  -- `RangeError`
  range_error : String → Exception
  -- `redirect(target)` of Next.js throws
  redirecting : String → Exception
  -- any other `Error`, such as a failed fetch: its name and its message
  other_error : String → String → Exception

pub data Outcome {ℓ} (A : Type ℓ) : Type ℓ where
  returned : A → Outcome A
  threw : Exception → Outcome A

abbrev named : String → String → String
named name [] = name
named name (c ∷ s) = name <> ": " <> (c ∷ s)

-- `String(err)`
unfoldable pub exception_text : Exception → String
exception_text (admin_error status message type_name) = named "AdminError" message
exception_text (range_error message) = named "RangeError" message
exception_text (redirecting target) = "Error: NEXT_REDIRECT"
exception_text (other_error name message) = named name message

-- `String(e?.message ?? e)`
unfoldable pub error_message : Exception → String
error_message (admin_error status message type_name) = message
error_message (range_error message) = message
error_message (redirecting target) = "NEXT_REDIRECT"
error_message (other_error name message) = message

infixl 5 ◌>>=◌
abbrev pub ◌>>=◌ {ℓ κ} : {A : Type ℓ} {B : Type κ} → Outcome A → (A → Outcome B) → Outcome B
returned a >>= f = f a
threw e >>= f = threw e
