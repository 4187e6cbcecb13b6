-- ===== src/Desktop/Models/Tests.antt =====
-- A stored model, and the theorem on the form at it.
use Prim.Native.String.{[], ◌∷◌}
use voxeltoad.Common.{
  ◌≡◌, refl, none, some, [], ◌∷◌, ◌++◌, ◌<>◌, arith, trim, trim_start, trim_end, is_space,
}
use voxeltoad.Common.Int.{pos}
use voxeltoad.Js.Exception.{returned, other_error}
use voxeltoad.Js.Samples.{plain_runtime, plain_runtime_laws}
use voxeltoad.Desktop.Client.{Browser, Method, base}
use voxeltoad.Desktop.Models.Fields.{Model, Arithmetic, initial}
use voxeltoad.Desktop.Models.Submit.{model_json, submit}
use voxeltoad.Desktop.Models.Stored.{ZeroLaw, IsStored, saved_model}
use voxeltoad.Desktop.Models.Saved.{submit-saved_model}

abbrev env : Arithmetic
env = record { uuid = λ n. "row"; divide = λ x y. x; number_text = λ x. "0"; round = λ x. x }

zero_law : ZeroLaw plain_runtime env
zero_law = record { exact = refl }

abbrev browser : Browser
browser = record {
  runtime = plain_runtime;
  encode = λ s. s;
  syntax_error = λ s. other_error "SyntaxError" s;
  fetch = λ sent call. returned (record { status = 200; text = "{}" });
}

-- A model with a price of 1.234567 units.
abbrev stored : Model
stored = record {
  alias = "fast";
  description = none;
  context_length = some 128000;
  capabilities = some ("a" ∷ "b" ∷ []);
  tags = none;
  upstreams =
      record {
        provider = "local";
        upstream_model = "llama";
        default_max_tokens = none;
        pricing = some (record {
          prompt_per_1m = pos 1234567;
          completion_per_1m = pos 2000000;
          currency = "EUR";
          cache_hit_multiplier = some 0;
        });
      }
      ∷ [];
}

stored-IsStored : IsStored stored
unfolding trim trim_start trim_end is_space
stored-IsStored = record {
  alias = record { no_ends = refl; has_text = refl };
  description = tt;
  context_length = (omega arith, omega arith);
  capabilities = (
    record { no_ends = refl; begins = refl; no_comma = (λ e. omega (arith, e), tt) },
    (record { no_ends = refl; begins = refl; no_comma = (λ e. omega (arith, e), tt) }, tt),
  );
  tags = tt;
  some_upstream = λ e. cc;
  upstreams = (
    record {
      provider = refl;
      upstream_model = record { no_ends = refl; has_text = refl };
      max_tokens = tt;
      pricing = record { prompt = omega arith; completion = omega arith; multiplier = refl };
    },
    tt,
  );
}

submit-saved_model_example :
    (submit browser env (some stored) (initial env "" (some stored)) []).1
    ≡ []
      ++ record {
        method = Method.put;
        path = base <> ("/models/" <> "fast");
        query = [];
        body = some (model_json (saved_model stored));
      }
        ∷ []
submit-saved_model_example =
    submit-saved_model browser env plain_runtime_laws zero_law "" stored [] stored-IsStored
