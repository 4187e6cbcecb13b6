-- ===== src/Desktop/Models/Fields.antt =====
-- The fields of the form and what they begin with.
use Prim.Native.String.{String, [], ◌∷◌}
use voxeltoad.Common.{ℕ, zero, suc, Option, none, some, List, [], ◌∷◌, ◌<>◌}
use voxeltoad.Common.Int.{ℤ, pos}
use voxeltoad.Js.Number.{Number, int}
use voxeltoad.Js.Decimal.{decimal}
use voxeltoad.Money.{micro_to_display}
use voxeltoad.Desktop.Providers.Fields.{or_empty}

-- `Pricing`, `ModelUpstream` and `Model` of desktop-ui/src/lib/types.ts, as the API gives them
pub record Pricing : Type 0 where
  pub prompt_per_1m : ℤ
  pub completion_per_1m : ℤ
  pub currency : String
  pub cache_hit_multiplier : Option ℕ

pub record ModelUpstream : Type 0 where
  pub provider : String
  pub upstream_model : String
  pub default_max_tokens : Option ℕ
  pub pricing : Option Pricing

pub record Model : Type 0 where
  pub alias : String
  pub description : Option String
  pub context_length : Option ℕ
  pub capabilities : Option (List String)
  pub tags : Option (List String)
  pub upstreams : List ModelUpstream

-- The same as the form sends them: the numbers are what `Number` and `displayToMicro` give.
pub record SentUpstream : Type 0 where
  pub provider : String
  pub upstream_model : String
  pub default_max_tokens : Option Number
  pub prompt_per_1m : Number
  pub completion_per_1m : Number
  pub currency : String
  pub cache_hit_multiplier : Number

pub record SentModel : Type 0 where
  pub alias : String
  pub description : Option String
  pub context_length : Option Number
  pub capabilities : Option (List String)
  pub tags : Option (List String)
  pub upstreams : List SentUpstream

abbrev pub currency_usd : String
currency_usd = "USD"

pub record UpstreamDraft : Type 0 where
  pub key : String
  pub provider : String
  pub upstream_model : String
  pub max_tokens : String
  pub prompt_price : String
  pub completion_price : String
  pub cache_hit_pct : String

-- The fields of `ModelForm`.
pub record Form : Type 0 where
  pub alias : String
  pub description : String
  pub context_length : String
  pub capabilities : String
  pub tags : String
  pub upstreams : List UpstreamDraft

-- What the form calls of the browser besides the gateway: `crypto.randomUUID()` by the number of the
-- call, the quotient of two doubles, `String` of a number, and `Math.round`.
pub record Arithmetic : Type 0 where
  pub uuid : ℕ → String
  pub divide : Number → Number → Number
  pub number_text : Number → String
  pub round : Number → Number

-- `n ? String(n) : ""`
abbrev pub count_text : Option ℕ → String
count_text none = ""
count_text (some zero) = ""
count_text (some (suc n)) = decimal (suc n)

abbrev pub prompt_text : Option Pricing → String
prompt_text none = ""
prompt_text (some p) = micro_to_display p.prompt_per_1m

abbrev pub completion_text : Option Pricing → String
completion_text none = ""
completion_text (some p) = micro_to_display p.completion_per_1m

-- `xs.join(", ")`
abbrev pub joined_behind : List String → String
joined_behind [] = ""
joined_behind (x ∷ xs) = ", " <> (x <> joined_behind xs)

abbrev pub join_commas : List String → String
join_commas [] = ""
join_commas (x ∷ xs) = x <> joined_behind xs

abbrev pub list_text : Option (List String) → String
list_text none = ""
list_text (some xs) = join_commas xs

module _ (env : Arithmetic) where
  unfoldable pub new_upstream : ℕ → String → UpstreamDraft
  new_upstream n provider = record {
    key = env.uuid n;
    provider = provider;
    upstream_model = "";
    max_tokens = "";
    prompt_price = "";
    completion_price = "";
    cache_hit_pct = "";
  }

  abbrev pub multiplier_text : Option ℕ → String
  multiplier_text none = ""
  multiplier_text (some zero) = ""
  multiplier_text (some (suc m)) =
      env.number_text (env.divide (int (pos (suc m))) (int (pos 10000)))

  abbrev pub percent_of : Option Pricing → String
  percent_of none = ""
  percent_of (some p) = multiplier_text p.cache_hit_multiplier

  unfoldable pub to_draft : ℕ → ModelUpstream → UpstreamDraft
  to_draft n u = record {
    key = env.uuid n;
    provider = u.provider;
    upstream_model = u.upstream_model;
    max_tokens = count_text u.default_max_tokens;
    prompt_price = prompt_text u.pricing;
    completion_price = completion_text u.pricing;
    cache_hit_pct = percent_of u.pricing;
  }

  abbrev pub drafts_from : ℕ → List ModelUpstream → List UpstreamDraft
  drafts_from n [] = []
  drafts_from n (u ∷ us) = to_draft n u ∷ drafts_from (suc n) us

  abbrev pub initial_upstreams : String → List ModelUpstream → List UpstreamDraft
  initial_upstreams first [] = new_upstream 0 first ∷ []
  initial_upstreams first (u ∷ us) = drafts_from 0 (u ∷ us)

  -- the fields that `ModelForm` begins with; `first` is `providers[0]?.name ?? ""`
  unfoldable pub initial : String → Option Model → Form
  initial first none = record {
    alias = "";
    description = "";
    context_length = "";
    capabilities = "";
    tags = "";
    upstreams = initial_upstreams first [];
  }
  initial first (some m) = record {
    alias = m.alias;
    description = or_empty m.description;
    context_length = count_text m.context_length;
    capabilities = list_text m.capabilities;
    tags = list_text m.tags;
    upstreams = initial_upstreams first m.upstreams;
  }
