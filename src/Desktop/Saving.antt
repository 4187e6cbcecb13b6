-- ===== src/Desktop/Saving.antt =====
-- What the forms of the desktop pages have in common: the end of `onSubmit`.
use Prim.Native.String.{String}
use voxeltoad.Common.{Bool, true, false, Option, none, some, List, [], ◌∷◌, ◌++◌, if◌then◌else◌}
use voxeltoad.Js.Json.{Json}
use voxeltoad.Js.Exception.{Outcome, returned, threw, error_message}
use voxeltoad.Js.Access.{member, is_truthy}
use voxeltoad.Desktop.Client.{Call}

-- `toast.success(text)` and `toast.warning(value)`
pub data Notice : Type 0 where
  success : String → Notice
  warning : Json → Notice

-- The form after `onSubmit`: `saved` says that `onSuccess` was called.
pub record Ending : Type 0 where
  pub error : Option String
  pub pending : Bool
  pub notices : List Notice
  pub saved : Bool

-- A handler that calls the gateway and catches what the call throws.
abbrev pub Handler : Type 0
Handler = List Call → Ending × List Call

unfoldable pub refused : String → Ending
refused text = record { error = some text; pending = false; notices = []; saved = false }

abbrev pub warning_of : Option Json → List Notice
warning_of none = []
warning_of (some v) = if is_truthy v then warning v ∷ [] else []

abbrev after_warning : List Notice → Outcome (Option Json) → Ending
after_warning notices (returned w) = record {
  error = none;
  pending = false;
  notices = notices ++ warning_of w;
  saved = true;
}
after_warning notices (threw e) = record {
  error = some (error_message e);
  pending = false;
  notices = notices;
  saved = false;
}

-- `if (res.warning) …; onSuccess()` in `try`, behind the notices of a call that returned
unfoldable pub finish : List Notice → Outcome Json → Ending
finish notices (returned res) = after_warning notices (member "warning" res)
finish notices (threw e) = record {
  error = some (error_message e);
  pending = false;
  notices = [];
  saved = false;
}

abbrev pub finished : List Notice → Outcome Json × List Call → Ending × List Call
finished notices r = (finish notices r.0, r.1)
