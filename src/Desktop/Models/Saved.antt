-- ===== src/Desktop/Models/Saved.antt =====
-- Opening a stored model in the form and saving it unchanged.
use Prim.Native.String.{String, [], ◌∷◌}
use voxeltoad.Common.{
  ℕ, zero, suc, ◌*◌, ◌≤◌, ◌≡◌, ◌≢◌, refl, ap, ◌∙◌, true, false, Option, none, some, List, [], ◌∷◌,
  ◌++◌, map, trim, trim_start, trim_end, ◌<>◌, arith,
}
use voxeltoad.Common.Int.{ℤ, pos}
use voxeltoad.Js.Number.{int, max_safe, is_nan, is_less}
use voxeltoad.Js.Exception.{returned}
use voxeltoad.Js.Runtime.{Runtime, NumberLaws}
use voxeltoad.Js.Access.{traverse}
use voxeltoad.Money.{micro_to_display}
use voxeltoad.Money.Display.{cents}
use voxeltoad.Money.RoundTrip.{rounded, display_to_micro-micro_to_display}
use voxeltoad.Trace.Prefix.{All}
use voxeltoad.Desktop.Client.{Browser, Call, Method, base, send_json}
use voxeltoad.Desktop.Client.Endpoints.{update_model}
use voxeltoad.Desktop.Providers.Fields.{is_nonempty}
use voxeltoad.Desktop.Providers.Submit.{is_empty}
use voxeltoad.Desktop.Models.Fields.{
  Pricing, ModelUpstream, Model, SentUpstream, Arithmetic, prompt_text, completion_text,
  multiplier_text, percent_of, to_draft, drafts_from, initial_upstreams, initial,
}
use voxeltoad.Desktop.Models.Submit.{
  parse_price, percent, is_percent, parse_upstream, model_body, model_json, submit,
}
use voxeltoad.Desktop.Models.Stored.{
  ZeroLaw, IsOptional, IsStoredPricing, IsStoredUpstream, IsStored, prompt_of, completion_of,
  or_zero, multiplier_of, saved_upstream, saved_model, price-filled, filled_text, filled_list,
  filled_count,
}

module _ (rt : Runtime) (env : Arithmetic) (laws : NumberLaws rt) (zero_law : ZeroLaw rt env) where
  parse_price-shown :
      (z : ℤ)
      → cents z * 10000 ≤ max_safe
      → parse_price rt env (micro_to_display z) ≡ returned (int (rounded z))
  unfolding parse_price
  parse_price-shown z h = rw (price-filled z) (display_to_micro-micro_to_display rt laws z h)

  parse_price-prompt :
      (p : Option Pricing)
      → IsOptional IsStoredPricing p
      → parse_price rt env (prompt_text p) ≡ returned (prompt_of p)
  unfolding parse_price trim trim_end trim_start
  parse_price-prompt none h = refl
  parse_price-prompt (some p) h = parse_price-shown p.prompt_per_1m h.prompt

  parse_price-completion :
      (p : Option Pricing)
      → IsOptional IsStoredPricing p
      → parse_price rt env (completion_text p) ≡ returned (completion_of p)
  unfolding parse_price trim trim_end trim_start
  parse_price-completion none h = refl
  parse_price-completion (some p) h = parse_price-shown p.completion_per_1m h.completion

  abbrev IsPercentOf : ℕ → String → Type 0
  IsPercentOf m text =
      (is_percent rt env (percent rt env text) ≡ true)
      × (env.round (rt.times (percent rt env text) (int (pos 10000))) ≡ int (pos m))

  blank-IsPercentOf : IsPercentOf 0 ""
  unfolding trim trim_end trim_start is_nan is_less
  blank-IsPercentOf = (refl, zero_law.exact)

  multiplier-IsPercentOf :
      (o : Option ℕ) → IsOptional (λ m. m ≡ 0) o → IsPercentOf (or_zero o) (multiplier_text env o)
  multiplier-IsPercentOf none h = blank-IsPercentOf
  multiplier-IsPercentOf (some zero) h = blank-IsPercentOf
  multiplier-IsPercentOf (some (suc m)) h = absurd (omega (arith, h))

  pricing-IsPercentOf :
      (p : Option Pricing)
      → IsOptional IsStoredPricing p
      → IsPercentOf (multiplier_of p) (percent_of env p)
  pricing-IsPercentOf none h = blank-IsPercentOf
  pricing-IsPercentOf (some p) h = multiplier-IsPercentOf p.cache_hit_multiplier h.multiplier

  parse_upstream-to_draft :
      (n : ℕ) (u : ModelUpstream)
      → IsStoredUpstream u
      → parse_upstream rt env (to_draft env n u) ≡ returned (saved_upstream u)
  unfolding parse_upstream to_draft
  parse_upstream-to_draft n u h =
      let (in_range, exact) = pricing-IsPercentOf u.pricing h.pricing in
      rw
        (
          h.provider,
          h.upstream_model.no_ends,
          h.upstream_model.has_text,
          in_range,
          exact,
          parse_price-prompt u.pricing h.pricing,
          parse_price-completion u.pricing h.pricing,
          filled_count rt laws u.default_max_tokens h.max_tokens,
        )
        refl

  traverse-drafts_from :
      (n : ℕ) (us : List ModelUpstream)
      → All IsStoredUpstream us
      → traverse (parse_upstream rt env) (drafts_from env n us) ≡ returned (map saved_upstream us)
  unfolding traverse
  traverse-drafts_from n [] h = refl
  traverse-drafts_from n (u ∷ us) (hu, h) =
      rw (parse_upstream-to_draft n u hu, traverse-drafts_from (suc n) us h) refl

  model_body-initial :
      (first : String) (m : Model) (us : List SentUpstream)
      → IsStored m
      → model_body rt env (initial env first (some m)) us
        ≡ record (saved_model m) { upstreams = us }
  unfolding model_body initial
  model_body-initial first m us h =
      rw
        (
          h.alias.no_ends,
          filled_text m.description h.description,
          filled_count rt laws m.context_length h.context_length,
          filled_list m.capabilities h.capabilities,
          filled_list m.tags h.tags,
        )
        refl

  initial_upstreams-drafts_from :
      (first : String) (us : List ModelUpstream)
      → us ≢ []
      → (initial_upstreams env first us ≡ drafts_from env 0 us)
        × (is_empty (drafts_from env 0 us) ≡ false)
  initial_upstreams-drafts_from first [] h = absurd (h refl)
  initial_upstreams-drafts_from first (u ∷ us) h = (refl, refl)

module _ (browser : Browser) (env : Arithmetic) (laws : NumberLaws browser.runtime)
    (zero_law : ZeroLaw browser.runtime env) where
  saved_model-upstreams :
      (m : Model)
      → IsStored m
      → (first : String)
      → traverse (parse_upstream browser.runtime env) (initial env first (some m)).upstreams
        ≡ returned (map saved_upstream m.upstreams)
  unfolding initial
  saved_model-upstreams m h first =
      let (same, full) =
        initial_upstreams-drafts_from browser.runtime env laws zero_law first m.upstreams
          h.some_upstream in
      ap (traverse (parse_upstream browser.runtime env)) same
      ∙ traverse-drafts_from browser.runtime env laws zero_law 0 m.upstreams h.upstreams

  upstreams-filled :
      (m : Model)
      → IsStored m
      → (first : String) → is_empty (initial env first (some m)).upstreams ≡ false
  unfolding initial
  upstreams-filled m h first =
      let (same, full) =
        initial_upstreams-drafts_from browser.runtime env laws zero_law first m.upstreams
          h.some_upstream in
      ap is_empty same ∙ full

  alias-filled :
      (m : Model) (first : String)
      → IsStored m
      → is_nonempty (trim (initial env first (some m)).alias) ≡ true
  unfolding initial
  alias-filled m first h = ap is_nonempty h.alias.no_ends ∙ h.alias.has_text

  -- For a stored model whose texts are trimmed and not empty, whose counts are positive and exact in a
  -- double, whose lists are missing or hold at least one item, each trimmed, not empty and without a
  -- comma, which has an upstream, and whose upstreams have a provider, prices that can be read back
  -- exactly, and a cache multiplier that is missing or zero: opening it in the form and saving it
  -- unchanged makes one call, which puts the model with each price rounded to hundredths of a unit, the
  -- currency USD, and zero for a missing price or cache multiplier; all else is as it was.
  pub submit-saved_model :
      (first : String) (m : Model) (sent : List Call)
      → IsStored m
      → (submit browser env (some m) (initial env first (some m)) sent).1
        ≡ sent
          ++ record {
            method = Method.put;
            path = base <> ("/models/" <> browser.encode m.alias);
            query = [];
            body = some (model_json (saved_model m));
          }
            ∷ []
  unfolding submit update_model send_json
  submit-saved_model first m sent h =
      rw
        (
          alias-filled m first h,
          upstreams-filled m h first,
          saved_model-upstreams m h first,
          model_body-initial browser.runtime env laws zero_law first m
              (map saved_upstream m.upstreams) h,
        )
        refl
