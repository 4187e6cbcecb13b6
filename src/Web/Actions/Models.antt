-- ===== src/Web/Actions/Models.antt =====
-- web/src/app/[locale]/(dashboard)/models/actions.ts
use Prim.Native.String.{String, [], ◌∷◌}
use voxeltoad.Common.{
  ℕ, ◌+◌, ◌*◌, ◌^◌, Bool, true, false, not, ◌&&◌, none, some, List, [], ◌∷◌, ◌++◌, map, ltb,
  if◌then◌else◌, trim, get_elem?,
}
use voxeltoad.Common.Int.{pos, negsuc}
use voxeltoad.Js.Number.{Number, nan, infinite, finite, int, is_positive, is_nan}
use voxeltoad.Js.Json.{Json, num, str, object, array}
use voxeltoad.Js.Exception.{
  Exception, admin_error, range_error, redirecting, other_error, Outcome, returned, threw,
  exception_text,
}
use voxeltoad.Js.Runtime.{Runtime}
use voxeltoad.Web.Action.{post, patch, delete, Action, pure}
use voxeltoad.Web.Client.{Site}
use voxeltoad.Web.Errors.{FormResult, rejected}
use voxeltoad.Web.Form.{
  FormData, text_field, get_field, get_all, or_empty, is_blank, field_if_text, reject, submit,
}
use voxeltoad.Money.{display_to_micro}
use voxeltoad.Js.Exception
use voxeltoad.Web.Actions.Lists.{parse_list}

-- `Math.min(Math.max(x, 0), 1_000_000)`
unfoldable pub clamp_multiplier : Number → Number
clamp_multiplier nan = nan
clamp_multiplier (infinite b) = if b then int (pos 0) else int (pos 1000000)
clamp_multiplier (finite (negsuc n) k) = int (pos 0)
clamp_multiplier (finite (pos n) k) =
    if ltb (1000000 * 2 ^ k) n then int (pos 1000000) else finite (pos n) k

abbrev is_infinite : Number → Bool
is_infinite (infinite b) = true
is_infinite _ = false

module _ (rt : Runtime) where
  -- `prompt ? displayToMicro(prompt) : 0`
  unfoldable pub price : String → Outcome Number
  price s = if is_blank s then returned (int (pos 0)) else display_to_micro rt s

  -- `cache_hit_multiplier`, from the percentage of the form
  unfoldable pub multiplier_field : String → List (String × Json)
  multiplier_field raw =
      let percent = rt.number (trim raw) in
      if not (is_nan percent) && not (is_infinite percent) && is_positive percent
      then ("cache_hit_multiplier", num (clamp_multiplier (rt.times percent (int (pos 10000)))))
        ∷ []
      else []

  -- `pricing`, if a price is given
  unfoldable pub pricing_field : String → String → String → Outcome (List (String × Json))
  pricing_field prompt completion multiplier_raw =
      let given = Exception.◌>>=◌ (price prompt) (λ p. Exception.◌>>=◌ (price completion) (λ c.
        returned (
          (
            "pricing",
            object (
                ("prompt_per_1m", num p)
                ∷ ("completion_per_1m", num c)
                ∷ ("currency", str "USD")
                ∷ multiplier_field multiplier_raw),
          )
          ∷ []))) in
      if is_blank prompt && is_blank completion then returned [] else given

  -- one upstream of the form, from the elements at its position in the parallel lists; a missing
  -- `maxTokens[i]` is NaN as a number
  unfoldable pub upstream : FormData → String → ℕ → Outcome Json
  upstream form provider i =
      let at = λ (key : String). get_elem? (get_all form key) i in
      let max_tokens : Number = elim (at "upstream_max_tokens") [
        | none ↦ nan
        | some s ↦ rt.number s
      ] in
      let prompt = trim (or_empty (at "upstream_prompt_price")) in
      let completion = trim (or_empty (at "upstream_completion_price")) in
      Exception.◌>>=◌
        (pricing_field prompt completion (or_empty (at "upstream_cache_hit_multiplier")))
        (λ pricing. returned (
          object (
            ("provider", str provider)
            ∷ ("upstream_model", str (or_empty (at "upstream_model")))
            ∷ ((if is_positive max_tokens then ("default_max_tokens", num max_tokens) ∷ [] else [])
                ++ pricing))))

  -- `providers.map((provider, i) => …)`
  unfoldable pub upstreams_from : FormData → ℕ → List String → Outcome (List Json)
  upstreams_from form i [] = returned []
  upstreams_from form i (provider ∷ providers) =
      Exception.◌>>=◌ (upstream form provider i)
        (λ u. Exception.◌>>=◌ (upstreams_from form (i + 1) providers) (λ us. returned (u ∷ us)))

  unfoldable pub upstreams_of : FormData → Outcome (List Json)
  upstreams_of form = upstreams_from form 0 (get_all form "upstream_provider")

  -- `if (contextLengthRaw) { const cl = Number(contextLengthRaw); if (cl > 0) … }`
  unfoldable pub context_length : String → List (String × Json)
  context_length raw =
      if is_blank raw
      then []
      else if is_positive (rt.number raw)
      then ("context_length", num (rt.number raw)) ∷ []
      else []

  -- in an update the field is always sent, zero for "none"
  unfoldable pub context_length_or_zero : String → Number
  context_length_or_zero raw =
      if is_blank raw
      then int (pos 0)
      else if is_positive (rt.number raw)
      then rt.number raw
      else int (pos 0)

abbrev strings : List String → Json
strings xs = array (map (λ x. str x) xs)

abbrev field_if_some : String → List String → List (String × Json)
field_if_some key [] = []
field_if_some key (x ∷ xs) = (key, strings (x ∷ xs)) ∷ []

module _ (rt : Runtime) (site : Site) where
  unfoldable pub create_model : FormData → Action FormResult
  create_model form =
      let alias = text_field form "alias" in
      let send_model = λ (upstreams : List Json).
        submit site "/models" post "/api/v1/models" [] []
          (some (
            object (
              ("alias", str alias)
              ∷ ("upstreams", array upstreams)
              ∷ (field_if_text "description" (text_field form "description")
                  ++ (context_length rt (text_field form "context_length")
                      ++ (field_if_some "capabilities"
                            (parse_list (or_empty (get_field form "capabilities")))
                          ++ field_if_some "tags"
                              (parse_list (or_empty (get_field form "tags")))))))))
          "create failed" in
      if is_blank alias
      then pure (reject "model alias is required")
      else elim (upstreams_of rt form) [
        | threw err ↦ pure (rejected "invalid pricing amount" (some "invalidPricingAmount"))
        | returned upstreams ↦ send_model upstreams
      ]

  unfoldable pub update_model : FormData → Action FormResult
  update_model form =
      let alias = text_field form "alias" in
      let send_model = λ (upstreams : List Json).
        submit site "/models" patch "/api/v1/models/{alias}" (("alias", str alias) ∷ []) []
          (some (
            object (
              ("description", str (text_field form "description"))
              ∷ ("capabilities", strings (parse_list (or_empty (get_field form "capabilities"))))
              ∷ ("tags", strings (parse_list (or_empty (get_field form "tags"))))
              ∷ ("upstreams", array upstreams)
              ∷ (
                "context_length",
                num (context_length_or_zero rt (text_field form "context_length")),
              )
              ∷ [])))
          "update failed" in
      if is_blank alias
      then pure (reject "model alias is required")
      else elim (upstreams_of rt form) [
        | threw err ↦ pure (rejected "invalid pricing amount" (some "invalidPricingAmount"))
        | returned upstreams ↦ send_model upstreams
      ]

module _ (site : Site) where
  unfoldable pub delete_model : String → Action FormResult
  delete_model alias =
      submit site "/models" delete "/api/v1/models/{alias}" (("alias", str alias) ∷ []) [] none
        "delete failed"
