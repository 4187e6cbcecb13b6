-- ===== src/Desktop/Providers/Tests.antt =====
-- A stored provider, and the theorems on the form at it.
use Prim.Native.String.{String, [], ◌∷◌}
use voxeltoad.Common.{
  ℕ, ◌≡◌, ◌⊎◌, refl, none, some, [], ◌∷◌, ◌++◌, ◌<>◌, trim, trim_start, trim_end, strip_prefix,
  is_space,
}
use voxeltoad.Js.Exception.{returned, other_error}
use voxeltoad.Js.Samples.{plain_runtime}
use voxeltoad.Desktop.Client.{Browser, Method, base}
use voxeltoad.Desktop.Saving.{refused}
use voxeltoad.Desktop.Providers.Fields.{Provider, default_timeouts, is_plain, initial}
use voxeltoad.Desktop.Providers.Submit.{provider_body, provider_json, submit}
use voxeltoad.Desktop.Providers.RoundTrip.{IsStored, saved_provider, submit-initial}
use voxeltoad.Desktop.Providers.Guards.{IsComplete, saving_call, submit-IsComplete}

abbrev browser : Browser
browser = record {
  runtime = plain_runtime;
  encode = λ s. s;
  syntax_error = λ s. other_error "SyntaxError" s;
  fetch = λ sent call. returned (record { status = 200; text = "{}" });
}

abbrev keys : ℕ → String
keys n = "row"

-- A custom brand with a literal credential.
abbrev stored : Provider
stored = record {
  name = "local";
  type_name = "ollama";
  endpoints =
      record {
        id = none;
        adapter = "openai";
        base_url = "http://localhost";
        timeouts = some default_timeouts;
      }
      ∷ [];
  api_key_ref = "plain:// key ";
  timeouts = default_timeouts;
  weight = 7;
}

stored-IsStored : IsStored stored
unfolding trim trim_start trim_end is_space strip_prefix is_plain
stored-IsStored = record {
  name = record { no_ends = refl; has_text = refl };
  type_name = record { no_ends = refl; has_text = refl };
  some_endpoint = λ e. cc;
  endpoints = (
    record { id = λ e. cc; adapter = refl; base_url = record { no_ends = refl; has_text = refl } },
    tt,
  );
  has_credential = refl;
  credential = λ e. absurd cc;
}

submit-initial_example :
    (submit browser (some stored) (initial keys (some stored)) []).1
    ≡ []
      ++ record {
        method = Method.put;
        path = base <> ("/providers/" <> "local");
        query = [];
        body = some (provider_json (saved_provider stored));
      }
        ∷ []
submit-initial_example = submit-initial keys stored stored-IsStored browser []

submit-IsComplete_example :
    ((text : String) × (submit browser none (initial keys none) [] ≡ (refused text, [])))
    ⊎ (IsComplete (provider_body none (initial keys none))
        × ((submit browser none (initial keys none) []).1
            ≡ [] ++ saving_call browser none (provider_body none (initial keys none)) ∷ []))
submit-IsComplete_example = submit-IsComplete browser none (initial keys none) []
