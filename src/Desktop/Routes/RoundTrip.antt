-- ===== src/Desktop/Routes/RoundTrip.antt =====
-- Opening a stored route in the form and saving it unchanged.
use Prim.Native.String.{String}
use voxeltoad.Common.{
  ℕ, suc, ◌≤◌, ◌≡◌, ◌≢◌, refl, ap, true, false, Option, none, some, List, [], ◌∷◌, ◌++◌, map, trim,
  trim_start, trim_end, if◌then◌else◌, ◌<>◌,
}
use voxeltoad.Common.Int.{pos}
use voxeltoad.Js.Number.{Number, int, max_safe}
use voxeltoad.Js.Runtime.{Runtime, NumberLaws}
use voxeltoad.Trace.Prefix.{All}
use voxeltoad.Desktop.Client.{Browser, Call, Method, base, send_json}
use voxeltoad.Desktop.Client.Endpoints.{update_route}
use voxeltoad.Desktop.Providers.Fields.{is_nonempty}
use voxeltoad.Desktop.Providers.Submit.{is_empty}
use voxeltoad.Desktop.Models.Stored.{decimal-filled, number-decimal}
use voxeltoad.Desktop.Routes.{
  RouteProvider, Route, SentProvider, SentRoute, weight_text, rows_from, initial, has_unnamed,
  refusal, sent_provider, route_body, route_json, submit,
}

abbrev IsWeight : Option ℕ → Type 0
IsWeight none = Unit
IsWeight (some n) = n ≤ max_safe

pub record IsStoredProvider (p : RouteProvider) : Type 0 where
  pub name : is_nonempty p.name ≡ true
  -- a double holds the weight exactly
  pub weight : IsWeight p.weight

-- What a stored route satisfies: it has an alias, a strategy and a provider.
pub record IsStored (r : Route) : Type 0 where
  pub model_alias : is_nonempty r.model_alias ≡ true
  pub strategy : is_nonempty r.strategy ≡ true
  pub some_provider : r.providers ≢ []
  pub providers : All IsStoredProvider r.providers

abbrev as_number : Option ℕ → Option Number
as_number none = none
as_number (some n) = some (int (pos n))

abbrev pub saved_provider : RouteProvider → SentProvider
saved_provider p = record { name = p.name; weight = as_number p.weight }

abbrev pub saved_route : Route → SentRoute
saved_route r = record {
  model_alias = r.model_alias;
  providers = map saved_provider r.providers;
  strategy = r.strategy;
}

rows_named :
    (uuid : ℕ → String) (n : ℕ) (ps : List RouteProvider)
    → All IsStoredProvider ps
    → has_unnamed (rows_from uuid n ps) ≡ false
rows_named uuid n [] h = refl
rows_named uuid n (p ∷ ps) (hp, h) = rw hp.name (rows_named uuid (suc n) ps h)

rows_filled :
    (uuid : ℕ → String) (ps : List RouteProvider) → ps ≢ [] → is_empty (rows_from uuid 0 ps) ≡ false
rows_filled uuid [] h = absurd (h refl)
rows_filled uuid (p ∷ ps) h = refl

refusal-initial :
    (uuid : ℕ → String) (r : Route) → IsStored r → refusal (initial uuid (some r)) ≡ none
unfolding refusal initial
refusal-initial uuid r h =
    rw
      (
        h.model_alias,
        h.strategy,
        rows_filled uuid r.providers h.some_provider,
        rows_named uuid 0 r.providers h.providers,
      )
      refl

module _ (rt : Runtime) (laws : NumberLaws rt) where
  weight_kept :
      (o : Option ℕ)
      → IsWeight o
      → (if is_nonempty (trim (weight_text o)) then some (rt.number (weight_text o)) else none)
        ≡ as_number o
  unfolding trim trim_start trim_end
  weight_kept none h = refl
  weight_kept (some n) h = rw (decimal-filled n) (ap some (number-decimal rt laws n h))

  rows_sent :
      (uuid : ℕ → String) (n : ℕ) (ps : List RouteProvider)
      → All IsStoredProvider ps
      → map (sent_provider rt) (rows_from uuid n ps) ≡ map saved_provider ps
  unfolding sent_provider
  rows_sent uuid n [] h = refl
  rows_sent uuid n (p ∷ ps) (hp, h) =
      rw (weight_kept p.weight hp.weight)
        (ap (λ l. saved_provider p ∷ l) (rows_sent uuid (suc n) ps h))

  route_body-initial :
      (uuid : ℕ → String) (r : Route)
      → IsStored r
      → route_body rt (initial uuid (some r)) ≡ saved_route r
  unfolding route_body initial
  route_body-initial uuid r h = rw (rows_sent uuid 0 r.providers h.providers) refl

-- For a stored route with an alias, a strategy, and at least one provider, all named and with weights
-- that a double holds exactly: opening it in the form and saving it unchanged makes one call, which
-- puts the route as it was: its strategy, and its providers in their order with their weights.
pub submit-saved_route :
    (browser : Browser) (uuid : ℕ → String) (r : Route) (sent : List Call)
    → NumberLaws browser.runtime
    → IsStored r
    → (submit browser (some r) (initial uuid (some r)) sent).1
      ≡ sent
        ++ record {
          method = Method.put;
          path = base <> ("/routes/" <> browser.encode r.model_alias);
          query = [];
          body = some (route_json (saved_route r));
        }
          ∷ []
unfolding submit update_route send_json
submit-saved_route browser uuid r sent laws h =
    rw (refusal-initial uuid r h, route_body-initial browser.runtime laws uuid r h) refl
