-- ===== src/Desktop/Providers/Guards.antt =====
-- What the provider form sends.
use Prim.Native.String.{String}
use voxeltoad.Common.{
  ◌≡◌, refl, ◌∙◌, ◌⊎◌, inl, inr, Bool, true, false, not, ◌||◌, Option, none, some, List, [], ◌∷◌,
  ◌++◌, map, trim, if◌then◌else◌, Option-cases, ◌<>◌,
}
use voxeltoad.Trace.Prefix.{All}
use voxeltoad.Desktop.Client.{Browser, Call, Method, base, send_json}
use voxeltoad.Desktop.Client.Endpoints.{create_provider, update_provider}
use voxeltoad.Desktop.Saving.{refused}
use voxeltoad.Desktop.Providers.Fields.{Endpoint, Provider, EndpointRow, Form, is_nonempty}
use voxeltoad.Desktop.Providers.Submit.{
  is_empty, type_value, credential, has_incomplete, row_endpoint, provider_body, refusal,
  provider_json, save_provider, submit,
}

pub record IsCompleteEndpoint (ep : Endpoint) : Type 0 where
  pub adapter : is_nonempty ep.adapter ≡ true
  pub base_url : is_nonempty ep.base_url ≡ true

-- What a provider needs before it is sent.
pub record IsComplete (p : Provider) : Type 0 where
  pub name : is_nonempty p.name ≡ true
  pub type_name : is_nonempty p.type_name ≡ true
  pub has_credential : is_nonempty p.api_key_ref ≡ true
  pub some_endpoint : is_empty p.endpoints ≡ false
  pub endpoints : All IsCompleteEndpoint p.endpoints

-- A guard that refuses on a test and passes only without it.
pub guard_passed {ℓ} :
    {A : Type ℓ} (test : Bool) (a : A) (rest : Option A)
    → (if test then some a else rest) ≡ none
    → (test ≡ false) × (rest ≡ none)
guard_passed true a rest e = cc
guard_passed false a rest e = (refl, e)

pub or_false : (a b : Bool) → not a || not b ≡ false → (a ≡ true) × (b ≡ true)
or_false true true e = (refl, refl)
or_false true false e = cc
or_false false b e = cc

or_false_three :
    (a b c : Bool) → not a || not b || not c ≡ false → (a ≡ true) × (b ≡ true) × (c ≡ true)
or_false_three true true true e = (refl, refl, refl)
or_false_three true true false e = cc
or_false_three true false c e = cc
or_false_three false b c e = cc

pub if_false :
    (test rest : Bool) → (if test then true else rest) ≡ false → (test ≡ false) × (rest ≡ false)
if_false true rest e = cc
if_false false rest e = (refl, e)

complete_rows :
    (rows : List EndpointRow)
    → has_incomplete rows ≡ false
    → All IsCompleteEndpoint (map row_endpoint rows)
unfolding has_incomplete row_endpoint
complete_rows [] e = tt
complete_rows (r ∷ rows) e =
    let (test, rest) = if_false _ (has_incomplete rows) e in
    let (adapter, url) = or_false (is_nonempty r.adapter) (is_nonempty (trim r.base_url)) test in
    (record { adapter = adapter; base_url = url }, complete_rows rows rest)

pub is_empty-map {ℓ κ} :
    {A : Type ℓ} {B : Type κ} (f : A → B) (xs : List A) → is_empty (map f xs) ≡ is_empty xs
is_empty-map f [] = refl
is_empty-map f (x ∷ xs) = refl

accepted-IsComplete :
    (stored : Option Provider) (f : Form)
    → refusal stored f ≡ none
    → IsComplete (provider_body stored f)
unfolding refusal provider_body
accepted-IsComplete stored f e =
    let (texts, more) = guard_passed _ _ _ e in
    let (rows, most) = guard_passed _ _ _ more in
    let (urls, all) = guard_passed _ _ _ most in
    let (name, kind, cred) =
      or_false_three (is_nonempty (trim f.name)) (is_nonempty (type_value f))
        (is_nonempty (credential stored f)) texts in
    record {
      name = name;
      type_name = kind;
      has_credential = cred;
      some_endpoint = is_empty-map row_endpoint f.endpoints ∙ rows;
      endpoints = complete_rows f.endpoints urls;
    }

-- The call that saves a provider.
abbrev pub saving_call : Browser → Option Provider → Provider → Call
saving_call browser none body = record {
  method = Method.post;
  path = base <> "/providers";
  query = [];
  body = some (provider_json body);
}
saving_call browser (some p) body = record {
  method = Method.put;
  path = base <> ("/providers/" <> browser.encode body.name);
  query = [];
  body = some (provider_json body);
}

module _ (browser : Browser) where
  save_provider-sends :
      (stored : Option Provider) (body : Provider) (sent : List Call)
      → (save_provider browser stored body sent).1 ≡ sent ++ saving_call browser stored body ∷ []
  unfolding create_provider update_provider send_json
  save_provider-sends none body sent = refl
  save_provider-sends (some p) body sent = refl

  -- `onSubmit` of the provider form either refuses the form with a text, and then calls nothing, or
  -- makes one call, which creates or updates the provider that the form stands for, and that provider
  -- is complete: it has a name, a type, a credential and an endpoint, and each endpoint has an adapter
  -- and a URL.
  pub submit-IsComplete :
      (stored : Option Provider) (f : Form) (sent : List Call)
      → ((text : String) × (submit browser stored f sent ≡ (refused text, sent)))
        ⊎ (IsComplete (provider_body stored f)
            × ((submit browser stored f sent).1
                ≡ sent ++ saving_call browser stored (provider_body stored f) ∷ []))
  unfolding submit
  submit-IsComplete stored f sent = elim (Option-cases (refusal stored f)) [
    | inl fine ↦ inr (
      accepted-IsComplete stored f fine,
      rw fine (save_provider-sends stored (provider_body stored f) sent),
    )
    | inr (text, e) ↦ inl (text, rw e refl)
  ]
