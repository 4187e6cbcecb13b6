-- ===== src/Desktop/Providers/Fields.antt =====
-- The fields of the form and what they begin with.
use Prim.Native.String.{String, [], ◌∷◌}
use voxeltoad.Common.{
  ℕ, suc, Bool, true, false, not, ◌&&◌, Option, none, some, List, [], ◌∷◌, str_eq, strip_prefix,
  if◌then◌else◌,
}

-- `ProviderTimeouts`, `ProviderEndpoint` and `Provider` of desktop-ui/src/lib/types.ts
pub record Timeouts : Type 0 where
  pub connect : ℕ
  pub first_byte : ℕ
  pub overall : ℕ

pub record Endpoint : Type 0 where
  pub id : Option String
  pub adapter : String
  pub base_url : String
  pub timeouts : Option Timeouts

pub record Provider : Type 0 where
  pub name : String
  pub type_name : String
  pub endpoints : List Endpoint
  pub api_key_ref : String
  pub timeouts : Timeouts
  pub weight : ℕ

abbrev pub preset_brands : List String
preset_brands =
    "openai" ∷ "tencent" ∷ "zhipu" ∷ "anthropic" ∷ "google" ∷ "azure" ∷ "deepseek" ∷ "bedrock" ∷ []

abbrev pub custom_type_value : String
custom_type_value = "_custom_"

abbrev pub default_timeouts : Timeouts
default_timeouts = record {
  connect = 5000000000;
  first_byte = 120000000000;
  overall = 300000000000;
}

abbrev pub default_weight : ℕ
default_weight = 100

abbrev pub plain_ref_prefix : String
plain_ref_prefix = "plain://"

pub data CredMode : Type 0 where
  by_ref by_key : CredMode

pub record EndpointRow : Type 0 where
  pub key : String
  pub id : String
  pub adapter : String
  pub base_url : String

pub record Form : Type 0 where
  pub name : String
  pub type_select : String
  pub custom_type : String
  pub endpoints : List EndpointRow
  pub cred_mode : CredMode
  pub api_key_ref : String
  pub api_key : String
  pub pending : Bool
  pub error : Option String

abbrev pub is_nonempty : String → Bool
is_nonempty [] = false
is_nonempty (c ∷ s) = true

abbrev pub or_empty : Option String → String
or_empty none = []
or_empty (some s) = s

-- `xs.includes(s)`
unfoldable pub includes : String → List String → Bool
includes s [] = false
includes s (x ∷ xs) = if str_eq x s then true else includes s xs

abbrev pub is_some : Option String → Bool
is_some none = false
is_some (some s) = true

-- `s.startsWith(PLAIN_REF_PREFIX)`
unfoldable pub is_plain : String → Bool
is_plain s = is_some (strip_prefix plain_ref_prefix s)

abbrev pub initial_type : String → String
initial_type type_name =
    if includes type_name preset_brands
    then type_name
    else if is_nonempty type_name
    then custom_type_value
    else ""

abbrev pub initial_custom : String → String
initial_custom type_name =
    if not (includes type_name preset_brands) && is_nonempty type_name then type_name else ""

-- `crypto.randomUUID()`: the keys that the calls give, in order.
module _ (uuid : ℕ → String) where
  unfoldable pub new_endpoint_row : ℕ → EndpointRow
  new_endpoint_row n = record { key = uuid n; id = ""; adapter = "openai"; base_url = "" }

  unfoldable pub endpoint_to_row : ℕ → Endpoint → EndpointRow
  endpoint_to_row n ep = record {
    key = uuid n;
    id = or_empty ep.id;
    adapter = ep.adapter;
    base_url = ep.base_url;
  }

  abbrev pub rows_from : ℕ → List Endpoint → List EndpointRow
  rows_from n [] = []
  rows_from n (ep ∷ eps) = endpoint_to_row n ep ∷ rows_from (suc n) eps

  abbrev pub initial_rows : List Endpoint → List EndpointRow
  initial_rows [] = new_endpoint_row 0 ∷ []
  initial_rows (ep ∷ eps) = rows_from 0 (ep ∷ eps)

  -- the form's state for a provider's fields
  abbrev filled : String → String → List Endpoint → String → Form
  filled name type_name endpoints ref = record {
    name = name;
    type_select = initial_type type_name;
    custom_type = initial_custom type_name;
    endpoints = initial_rows endpoints;
    cred_mode = if is_plain ref then CredMode.by_key else CredMode.by_ref;
    api_key_ref = if is_plain ref then "" else ref;
    api_key = "";
    pending = false;
    error = none;
  }

  -- the states that `ProviderForm` begins with
  unfoldable pub initial : Option Provider → Form
  initial none = filled "" "" [] ""
  initial (some p) = filled p.name p.type_name p.endpoints p.api_key_ref
