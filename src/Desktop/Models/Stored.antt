-- ===== src/Desktop/Models/Stored.antt =====
-- A stored model, what becomes of it, and its texts in the form.
use Prim.Native.String.{String, [], ◌∷◌}
use mathlib.Core.Path.{subst}
use text.Mathlib.TextLemmas.{nil-append, cons-append}
use voxeltoad.Common.{
  ℕ, zero, suc, ◌*◌, ◌%◌, ◌≤◌, ◌<◌, ◌≡◌, ◌≢◌, refl, ap, sym, ◌∙◌, true, Option, none, some, List,
  [], ◌∷◌, map, trim, trim_start, trim_end, ◌<>◌, trim-NoSpace,
}
use voxeltoad.Common.Int.{ℤ, pos}
use voxeltoad.Js.Number.{Number, int, max_safe}
use voxeltoad.Js.Runtime.{Runtime, NumberLaws}
use voxeltoad.Js.Decimal.{decimal, value-decimal, decimal-AllDigits, decimal-ne-nil}
use voxeltoad.Money.{micro_to_display}
use voxeltoad.Money.Display.{cents, two_digits, micro_to_display_lem}
use voxeltoad.Money.RoundTrip.{rounded, AllDigits-NoSpace, printed-NoSpace}
use voxeltoad.Trace.Prefix.{All}
use voxeltoad.Desktop.Providers.Fields.{is_nonempty, or_empty}
use voxeltoad.Desktop.Providers.RoundTrip.{IsTrimmed}
use voxeltoad.Desktop.Models.Fields.{
  Pricing, ModelUpstream, Model, SentUpstream, SentModel, Arithmetic, count_text, list_text,
}
use voxeltoad.Desktop.Models.Submit.{split_commas, if_filled}
use voxeltoad.Desktop.Models.Lists.{IsItem, split_commas-join_commas, join_commas-filled}

-- Zero times ten thousand is zero, and `Math.round` leaves it.
pub record ZeroLaw (rt : Runtime) (env : Arithmetic) : Type 0 where
  pub exact : env.round (rt.times (int (pos 0)) (int (pos 10000))) ≡ int (pos 0)

abbrev pub IsOptional {ℓ} : {A : Type ℓ} → (A → Type 0) → Option A → Type 0
IsOptional P none = Unit
IsOptional P (some a) = P a

abbrev pub IsCount : ℕ → Type 0
IsCount n = (0 < n) × (n ≤ max_safe)

abbrev pub IsItemList : List String → Type 0
IsItemList [] = ⊥
IsItemList (x ∷ xs) = IsItem x × All IsItem xs

pub record IsStoredPricing (p : Pricing) : Type 0 where
  pub prompt : cents p.prompt_per_1m * 10000 ≤ max_safe
  pub completion : cents p.completion_per_1m * 10000 ≤ max_safe
  pub multiplier : IsOptional (λ m. m ≡ 0) p.cache_hit_multiplier

pub record IsStoredUpstream (u : ModelUpstream) : Type 0 where
  pub provider : is_nonempty u.provider ≡ true
  pub upstream_model : IsTrimmed u.upstream_model
  pub max_tokens : IsOptional IsCount u.default_max_tokens
  pub pricing : IsOptional IsStoredPricing u.pricing

-- What a stored model satisfies: its texts are trimmed and not empty, its counts are positive and exact
-- in a double, its lists are missing or hold items, it has an upstream, its prices can be read back,
-- and its cache multipliers are missing or zero.
pub record IsStored (m : Model) : Type 0 where
  pub alias : IsTrimmed m.alias
  pub description : IsOptional IsTrimmed m.description
  pub context_length : IsOptional IsCount m.context_length
  pub capabilities : IsOptional IsItemList m.capabilities
  pub tags : IsOptional IsItemList m.tags
  pub some_upstream : m.upstreams ≢ []
  pub upstreams : All IsStoredUpstream m.upstreams

abbrev pub as_number : Option ℕ → Option Number
as_number none = none
as_number (some n) = some (int (pos n))

abbrev pub prompt_of : Option Pricing → Number
prompt_of none = int (pos 0)
prompt_of (some p) = int (rounded p.prompt_per_1m)

abbrev pub completion_of : Option Pricing → Number
completion_of none = int (pos 0)
completion_of (some p) = int (rounded p.completion_per_1m)

abbrev pub or_zero : Option ℕ → ℕ
or_zero none = 0
or_zero (some n) = n

abbrev pub multiplier_of : Option Pricing → ℕ
multiplier_of none = 0
multiplier_of (some p) = or_zero p.cache_hit_multiplier

-- What becomes of an upstream: its prices are rounded to hundredths, its currency is USD, and a
-- missing price or cache multiplier is zero. All else stays.
abbrev pub saved_upstream : ModelUpstream → SentUpstream
saved_upstream u = record {
  provider = u.provider;
  upstream_model = u.upstream_model;
  default_max_tokens = as_number u.default_max_tokens;
  prompt_per_1m = prompt_of u.pricing;
  completion_per_1m = completion_of u.pricing;
  currency = "USD";
  cache_hit_multiplier = int (pos (multiplier_of u.pricing));
}

abbrev pub saved_model : Model → SentModel
saved_model m = record {
  alias = m.alias;
  description = m.description;
  context_length = as_number m.context_length;
  capabilities = m.capabilities;
  tags = m.tags;
  upstreams = map saved_upstream m.upstreams;
}

pub decimal-filled : (n : ℕ) → is_nonempty (trim (decimal n)) ≡ true
decimal-filled n =
    ap is_nonempty (trim-NoSpace (decimal n) (AllDigits-NoSpace (decimal n) (decimal-AllDigits n)))
    ∙ filled (decimal n) (decimal-ne-nil n)
  where
    filled : (s : String) → s ≢ [] → is_nonempty s ≡ true
    filled [] h = absurd (h refl)
    filled (c ∷ s) h = refl

append-filled : (s t : String) → is_nonempty t ≡ true → is_nonempty (s <> t) ≡ true
append-filled [] t h = ap is_nonempty (nil-append t) ∙ h
append-filled (c ∷ s) t h = ap is_nonempty (cons-append c s t)

pub price-filled : (z : ℤ) → is_nonempty (trim (micro_to_display z)) ≡ true
price-filled z =
    ap is_nonempty (trim-NoSpace (micro_to_display z) (printed-NoSpace z))
    ∙ (ap is_nonempty (micro_to_display_lem z) ∙ append-filled _ (two_digits (cents z % 100)) refl)

pub filled_text :
    (o : Option String) → IsOptional IsTrimmed o → if_filled (or_empty o) (trim (or_empty o)) ≡ o
unfolding trim trim_end trim_start
filled_text none h = refl
filled_text (some s) h = rw (h.no_ends, h.has_text) refl

pub filled_list :
    (o : Option (List String))
    → IsOptional IsItemList o
    → if_filled (list_text o) (split_commas (list_text o)) ≡ o
unfolding trim trim_end trim_start
filled_list none h = refl
filled_list (some []) h = elim h [ ]
filled_list (some (x ∷ xs)) (hx, h) =
    rw (join_commas-filled x xs hx, split_commas-join_commas x xs hx h) refl

module _ (rt : Runtime) (laws : NumberLaws rt) where
  pub number-decimal : (n : ℕ) → n ≤ max_safe → rt.number (decimal n) ≡ int (pos n)
  number-decimal n h =
      laws.exact (decimal n) (decimal-ne-nil n) (decimal-AllDigits n)
        (subst (λ v. v ≤ max_safe) (sym (value-decimal n)) h)
      ∙ ap (λ v. int (pos v)) (value-decimal n)

  pub filled_count :
      (o : Option ℕ)
      → IsOptional IsCount o
      → if_filled (count_text o) (rt.number (count_text o)) ≡ as_number o
  unfolding trim trim_end trim_start
  filled_count none h = refl
  filled_count (some zero) (h, k) = elim h [ ]
  filled_count (some (suc n)) (h, k) =
      rw (decimal-filled (suc n)) (ap some (number-decimal (suc n) k))
