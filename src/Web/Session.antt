-- ===== src/Web/Session.antt =====
-- web/src/lib/session.ts and web/src/lib/permissions.ts: what the session cookie carries, and what
-- it permits.
pub mod Permissions
use Prim.Native.String.{String}
use voxeltoad.Common.{
  Bool, true, false, ◌||◌, Option, none, some, List, [], ◌∷◌, str_eq, if◌then◌else◌,
}
use voxeltoad.Js.Number.{Number}

pub record SessionData : Type 0 where
  pub token : Option String
  pub email : Option String
  pub role : Option String
  pub role_id : Option Number
  pub scope_kind : Option String
  pub permissions : Option (List String)
  pub tenant_name : Option String

-- A session without a cookie, and after `destroy()`.
abbrev pub no_session : SessionData
no_session = record {
  token = none;
  email = none;
  role = none;
  role_id = none;
  scope_kind = none;
  permissions = none;
  tenant_name = none;
}

-- `list.includes(x)`
unfoldable pub includes : List String → String → Bool
includes [] x = false
includes (y ∷ ys) x = str_eq y x || includes ys x

unfoldable pub has_permission : List String → String → Bool
has_permission [] perm = false
has_permission (p ∷ ps) perm = if includes (p ∷ ps) "*" then true else includes (p ∷ ps) perm

unfoldable pub has : SessionData → String → Bool
has session perm = elim session.permissions [ none ↦ false | some ps ↦ has_permission ps perm ]

unfoldable pub has_any : SessionData → List String → Bool
has_any session [] = false
has_any session (p ∷ perms) = has session p || has_any session perms
