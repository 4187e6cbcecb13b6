-- ===== src/Desktop/Routes/Tests.antt =====
-- A stored route, and the theorem on the form at it.
use Prim.Native.String.{String}
use voxeltoad.Common.{ℕ, ◌≡◌, refl, none, some, [], ◌∷◌, ◌++◌, ◌<>◌, arith}
use voxeltoad.Js.Exception.{returned, other_error}
use voxeltoad.Js.Samples.{plain_runtime, plain_runtime_laws}
use voxeltoad.Desktop.Client.{Browser, Method, base}
use voxeltoad.Desktop.Routes.{Route, initial, strategy_label, route_json, submit}
use voxeltoad.Desktop.Routes.RoundTrip.{IsStored, saved_route, submit-saved_route}

abbrev browser : Browser
browser = record {
  runtime = plain_runtime;
  encode = λ s. s;
  syntax_error = λ s. other_error "SyntaxError" s;
  fetch = λ sent call. returned (record { status = 200; text = "{}" });
}

abbrev keys : ℕ → String
keys n = "row"

-- One provider without a weight, one with the weight zero.
abbrev stored : Route
stored = record {
  model_alias = "fast";
  providers =
      record { name = "local"; weight = none } ∷ record { name = "remote"; weight = some 0 } ∷ [];
  strategy = "weighted";
}

stored-IsStored : IsStored stored
stored-IsStored = record {
  model_alias = refl;
  strategy = refl;
  some_provider = λ e. cc;
  providers =
      (record { name = refl; weight = tt }, (record { name = refl; weight = omega arith }, tt));
}

label_test : strategy_label (some "weighted") ≡ "加权"
unfolding strategy_label
label_test = refl

submit-saved_route_example :
    (submit browser (some stored) (initial keys (some stored)) []).1
    ≡ []
      ++ record {
        method = Method.put;
        path = base <> ("/routes/" <> "fast");
        query = [];
        body = some (route_json (saved_route stored));
      }
        ∷ []
submit-saved_route_example =
    submit-saved_route browser keys stored [] plain_runtime_laws stored-IsStored
