-- ===== src/Web/Samples.antt =====
-- A small environment, and a state of the world, at which the theorems on the actions are applied.
use Prim.Native.String.{[], ◌∷◌}
use voxeltoad.Common.{◌≡◌, refl, none, some, [], ◌∷◌}
use voxeltoad.Js.Json.{str, object}
use voxeltoad.Js.Exception.{returned}
use voxeltoad.Web.Session.{SessionData}
use voxeltoad.Web.Action.{World, pure, ◌>>=◌}
use voxeltoad.Web.Client.{
  Site, Result, create_admin_client, server_admin_client, require_session_secret, get_session,
  get_token,
}
use voxeltoad.Web.Form.{FormData}

abbrev pub accepted : Result
accepted = record { payload = some (object (("token", str "t1") ∷ [])); error = none; status = 200 }

abbrev pub denied : Result
denied = record {
  payload = none;
  error = some record { message = some "errors.auth.expired"; type_name = none };
  status = 401;
}

abbrev pub site_with : Result → Site
site_with result = record {
  admin_url = some "http://admin";
  session_secret = some "0123456789abcdef0123456789abcdef";
  reply = λ past request. returned result;
}

abbrev pub operator : SessionData
operator = record {
  token = some "t0";
  email = some "a@b";
  role = some "auditor";
  role_id = none;
  scope_kind = some "global";
  permissions = some ("budget.write" ∷ "usage.read" ∷ []);
  tenant_name = none;
}

abbrev pub start : World
start = record { session = operator; sent = []; revalidated = [] }

abbrev pub form : FormData
form = ("name", "acme") ∷ ("api_key", "k") ∷ ("email", "a@b") ∷ ("password", "p") ∷ []

pub built :
    server_admin_client (site_with denied) start
    ≡ (returned (create_admin_client (some "t0")), start)
unfolding server_admin_client get_token get_session require_session_secret pure ◌>>=◌
built = refl
