-- ===== src/Desktop/Client/Tests.antt =====
-- A browser on a small gateway, and the theorems on the client at it.
use Prim.Native.String.{String, [], ◌∷◌}
use voxeltoad.Common.{◌≡◌, refl, if◌then◌else◌, none, some, [], ◌∷◌, str_eq}
use voxeltoad.Js.Json.{str, object, lookup}
use voxeltoad.Js.Exception.{returned, threw, other_error}
use voxeltoad.Js.Access.{to_text}
use voxeltoad.Js.Runtime.{Runtime}
use voxeltoad.Js.Samples.{plain_runtime}
use voxeltoad.Trace.Prefix.{All}
use voxeltoad.Desktop.Client.{
  Browser, Response, is_ok, error_of, parse, parse_body, read_get, read_send,
}
use voxeltoad.Desktop.Client.Agreement.{IsRegular, read_get-read_send}
use text.Mathlib.TextLemmas.{nil-append}
use voxeltoad.Desktop.Client.Encoding.{is_unreserved, EncodeLaws}
use voxeltoad.Desktop.Client.Paths.{named_operations, StaysUnder, named_operations-StaysUnder}

-- An escaping that writes nothing behind the "%".
escape : String → String
escape [] = []
escape (c ∷ s) = let rest = escape s in if is_unreserved c then c ∷ rest else "%" ∷ rest

-- A runtime that reads one error body.
abbrev error_text : String
error_text = "{error}"

abbrev small_runtime : Runtime
small_runtime = record plain_runtime {
  json_parse =
      λ s. if str_eq s error_text then some (object (("error", str "busy") ∷ [])) else none;
}

abbrev browser : Browser
browser = record {
  runtime = small_runtime;
  encode = escape;
  syntax_error = λ s. other_error "SyntaxError" s;
  fetch = λ sent call. returned (record { status = 409; text = error_text });
}

browser_laws : EncodeLaws browser
unfolding escape
browser_laws = record {
  empty = refl;
  kept = λ c s plain. rw plain refl;
  escaped = λ c s special. ([], tt, rw (special, nil-append (escape s)) refl);
}

named_operations-StaysUnder_example :
    All (StaysUnder "a/b" []) (named_operations browser (object []) 200)
named_operations-StaysUnder_example =
    named_operations-StaysUnder browser (object []) 200 browser_laws "a/b" [] refl

abbrev conflict : Response
conflict = record { status = 409; text = error_text }

conflict-IsRegular : IsRegular browser conflict
unfolding is_ok error_of parse parse_body lookup
conflict-IsRegular = record { body = λ e. absurd cc; error = λ e. refl }

read_get-read_send_example : read_get browser conflict ≡ read_send browser conflict
read_get-read_send_example =
    read_get-read_send browser conflict (record { no_empty = refl }) conflict-IsRegular

busy_test : read_get browser conflict ≡ threw (other_error "Error" "busy")
unfolding read_get is_ok error_of parse lookup to_text
busy_test = refl
