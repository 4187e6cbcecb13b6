-- ===== src/Desktop/Providers/RoundTrip.antt =====
-- Opening a stored provider in the form and saving it unchanged.
use Prim.Native.String.{String, [], ◌∷◌}
use mathlib.Core.Path.{subst}
use voxeltoad.Common.{
  ℕ, suc, ◌≡◌, refl, ◌≢◌, true, false, Option, none, some, List, [], ◌∷◌, ◌++◌, map, str_eq, eq_iff,
  trim, if◌then◌else◌, Bool-cases, inl, inr, ◌<>◌,
}
use voxeltoad.Trace.Prefix.{All}
use voxeltoad.Desktop.Client.{Browser, Call, Method, base, send_json}
use voxeltoad.Desktop.Client.Endpoints.{update_provider}
use voxeltoad.Desktop.Providers.Fields.{
  Endpoint, Provider, preset_brands, custom_type_value, is_nonempty, includes, is_plain,
  endpoint_to_row, rows_from, initial_rows, initial_type, initial_custom, initial, or_empty,
  CredMode,
}
use voxeltoad.Desktop.Providers.Submit.{
  type_value, credential, credential_for, has_incomplete, is_empty, set_id, row_endpoint,
  provider_body, refusal, provider_json, submit,
}

-- A text that is not empty, with no space at its ends.
pub record IsTrimmed (s : String) : Type 0 where
  pub no_ends : trim s ≡ s
  pub has_text : is_nonempty s ≡ true

pub record IsStoredEndpoint (ep : Endpoint) : Type 0 where
  -- the id is missing or not empty
  pub id : ep.id ≢ some []
  pub adapter : is_nonempty ep.adapter ≡ true
  pub base_url : IsTrimmed ep.base_url

-- What a stored provider satisfies: it has an endpoint, and its texts are trimmed. A literal
-- credential may have spaces.
pub record IsStored (p : Provider) : Type 0 where
  pub name : IsTrimmed p.name
  pub type_name : IsTrimmed p.type_name
  pub some_endpoint : p.endpoints ≢ []
  pub endpoints : All IsStoredEndpoint p.endpoints
  pub has_credential : is_nonempty p.api_key_ref ≡ true
  pub credential : is_plain p.api_key_ref ≡ false → trim p.api_key_ref ≡ p.api_key_ref

-- The endpoint as the form sends it.
abbrev pub without_timeouts : Endpoint → Endpoint
without_timeouts ep = record ep { timeouts = none }

-- The provider with all its fields, less the timeouts that an endpoint has of its own.
abbrev pub saved_provider : Provider → Provider
saved_provider p = record p { endpoints = map without_timeouts p.endpoints }

set_id-or_empty : (o : Option String) → o ≢ some [] → set_id (or_empty o) ≡ o
set_id-or_empty none h = refl
set_id-or_empty (some []) h = absurd (h refl)
set_id-or_empty (some (c ∷ s)) h = refl

row_endpoint-endpoint_to_row :
    (uuid : ℕ → String) (n : ℕ) (ep : Endpoint)
    → IsStoredEndpoint ep
    → row_endpoint (endpoint_to_row uuid n ep) ≡ without_timeouts ep
unfolding row_endpoint endpoint_to_row
row_endpoint-endpoint_to_row uuid n ep h = rw (set_id-or_empty ep.id h.id, h.base_url.no_ends) refl

rows_from-endpoints :
    (uuid : ℕ → String) (n : ℕ) (eps : List Endpoint)
    → All IsStoredEndpoint eps
    → map row_endpoint (rows_from uuid n eps) ≡ map without_timeouts eps
rows_from-endpoints uuid n [] h = refl
rows_from-endpoints uuid n (ep ∷ eps) (he, h) =
    cc (row_endpoint-endpoint_to_row uuid n ep he, rows_from-endpoints uuid (suc n) eps h)

rows_from_complete :
    (uuid : ℕ → String) (n : ℕ) (eps : List Endpoint)
    → All IsStoredEndpoint eps
    → has_incomplete (rows_from uuid n eps) ≡ false
unfolding has_incomplete endpoint_to_row
rows_from_complete uuid n [] h = refl
rows_from_complete uuid n (ep ∷ eps) (he, h) =
    rw
      (he.adapter, he.base_url.no_ends, he.base_url.has_text, rows_from_complete uuid (suc n) eps h)
      refl

custom-not_preset :
    (s : String) → includes s preset_brands ≡ true → str_eq s custom_type_value ≡ false
unfolding includes
custom-not_preset s h = elim (Bool-cases (str_eq s custom_type_value)) [
  | inl same ↦
      let found : includes custom_type_value preset_brands ≡ true =
        subst (λ t. includes t preset_brands ≡ true) ((eq_iff s custom_type_value).0 same) h in
      absurd cc
  | inr other ↦ other
]

-- The type that the form shows for a provider of this type.
type_shown :
    (t : String)
    → IsTrimmed t
    → (if str_eq (initial_type t) custom_type_value
        then trim (initial_custom t)
        else initial_type t)
      ≡ t
type_shown t h = elim (Bool-cases (includes t preset_brands)) [
  | inl preset ↦ rw (preset, custom-not_preset t preset) refl
  | inr other ↦ rw (other, h.has_text) h.no_ends
]

credential_kept :
    (ref : String)
    → (is_plain ref ≡ false → trim ref ≡ ref)
    → credential_for
        (if is_plain ref then CredMode.by_key else CredMode.by_ref)
        (if is_plain ref then "" else ref)
        ""
        ref
      ≡ ref
credential_kept ref h = elim (Bool-cases (is_plain ref)) [
  | inl plain ↦ rw plain refl
  | inr other ↦ rw other (h other)
]

initial_rows-rows_from :
    (uuid : ℕ → String) (eps : List Endpoint)
    → eps ≢ []
    → initial_rows uuid eps ≡ rows_from uuid 0 eps
initial_rows-rows_from uuid [] h = absurd (h refl)
initial_rows-rows_from uuid (ep ∷ eps) h = refl

rows_from-some :
    (uuid : ℕ → String) (eps : List Endpoint) → eps ≢ [] → is_empty (rows_from uuid 0 eps) ≡ false
rows_from-some uuid [] h = absurd (h refl)
rows_from-some uuid (ep ∷ eps) h = refl

module _ (uuid : ℕ → String) (p : Provider) (h : IsStored p) where
  type_value-initial : type_value (initial uuid (some p)) ≡ p.type_name
  unfolding type_value initial
  type_value-initial = type_shown p.type_name h.type_name

  credential-initial : credential (some p) (initial uuid (some p)) ≡ p.api_key_ref
  unfolding credential initial
  credential-initial = credential_kept p.api_key_ref h.credential

  endpoints-initial : (initial uuid (some p)).endpoints ≡ rows_from uuid 0 p.endpoints
  unfolding initial
  endpoints-initial = initial_rows-rows_from uuid p.endpoints h.some_endpoint

  name-initial : (initial uuid (some p)).name ≡ p.name
  unfolding initial
  name-initial = refl

  provider_body-initial : provider_body (some p) (initial uuid (some p)) ≡ saved_provider p
  unfolding provider_body type_value initial credential
  provider_body-initial =
      rw
        (
          name-initial,
          h.name.no_ends,
          type_value-initial,
          credential-initial,
          endpoints-initial,
          rows_from-endpoints uuid 0 p.endpoints h.endpoints,
        )
        refl

  refusal-initial : refusal (some p) (initial uuid (some p)) ≡ none
  unfolding refusal type_value credential
  refusal-initial =
      rw
        (
          name-initial,
          h.name.no_ends,
          h.name.has_text,
          type_value-initial,
          h.type_name.has_text,
          credential-initial,
          h.has_credential,
          endpoints-initial,
          rows_from-some uuid p.endpoints h.some_endpoint,
          rows_from_complete uuid 0 p.endpoints h.endpoints,
        )
        refl

  -- For a stored provider whose name and type are trimmed and not empty, whose credential is not empty,
  -- and trimmed unless it is in plain text, and which has an endpoint, each endpoint with an adapter, a
  -- trimmed base URL that is not empty, and an id that is missing or not empty: opening it in the form
  -- and saving it unchanged makes one call, which puts the provider as it was, with its credential,
  -- weight and timeouts, but drops the timeouts that an endpoint has of its own.
  pub submit-initial :
      (browser : Browser) (sent : List Call)
      → (submit browser (some p) (initial uuid (some p)) sent).1
        ≡ sent
          ++ record {
            method = Method.put;
            path = base <> ("/providers/" <> browser.encode p.name);
            query = [];
            body = some (provider_json (saved_provider p));
          }
            ∷ []
  unfolding submit update_provider send_json
  submit-initial browser sent = rw (refusal-initial, provider_body-initial) refl
