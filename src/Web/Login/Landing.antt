-- ===== src/Web/Login/Landing.antt =====
-- The page where a login lands.
use Prim.Native.String.{String, [], ◌∷◌}
use voxeltoad.Common.{
  ◌≡◌, inl, inr, refl, ◌∙◌, true, false, ◌||◌, Option, none, some, List, [], ◌∷◌, arith, Bool-cases,
}
use voxeltoad.Web.Session.{SessionData, has, has_any, includes, has_permission}
use voxeltoad.Web.Session.Permissions.{Grants, has_iff}
use voxeltoad.Web.Login.{first_page, legacy_page, chosen_page}

-- The pages that are chosen by a permission, in the order of the code.
abbrev page_permissions : List String
page_permissions = "provider.read" ∷ "api_key.read" ∷ "usage.read" ∷ []

-- A page that a session may land on: one whose permission it is granted, or, for a session without
-- those permissions, the page of its role.
pub data Lands (session : SessionData) : String → Type 0 where
  by_provider : Grants session "provider.read" → Lands session "/providers"
  by_api_key : Grants session "api_key.read" → Lands session "/api-keys"
  by_usage : Grants session "usage.read" → Lands session "/usage"
  by_role : has_any session page_permissions ≡ false → Lands session (legacy_page session.role)

has_permission_lem :
    (ps : List String) (perm : String)
    → has_permission ps perm ≡ (includes ps "*" || includes ps perm)
unfolding has_permission includes
has_permission_lem [] perm = refl
has_permission_lem (p ∷ ps) perm = ground arith

module _ (session : SessionData) (ps : List String) (e : session.permissions ≡ some ps) where
  has_some : (perm : String) → has session perm ≡ (includes ps "*" || includes ps perm)
  unfolding has
  has_some perm = rw (e, has) (has_permission_lem ps perm)

  grants : (perm : String) → (includes ps "*" || includes ps perm) ≡ true → Grants session perm
  grants perm h = (has_iff session perm).0 (has_some perm ∙ h)

  no_grants :
      (includes ps "provider.read" || includes ps "*") ≡ false
      → includes ps "api_key.read" ≡ false
      → includes ps "usage.read" ≡ false
      → has_any session page_permissions ≡ false
  unfolding has_any
  no_grants a b c =
      ground (arith, has_some "provider.read", has_some "api_key.read", has_some "usage.read")

  some-Lands : Lands session (chosen_page session.role (some ps))
  some-Lands = elim (Bool-cases (includes ps "provider.read" || includes ps "*")) [
    | inl first ↦ rw first (by_provider (grants "provider.read" (ground arith)))
    | inr a ↦ elim (Bool-cases (includes ps "api_key.read")) [
      | inl second ↦ rw (a, second) (by_api_key (grants "api_key.read" (ground arith)))
      | inr b ↦ elim (Bool-cases (includes ps "usage.read")) [
        | inl third ↦ rw (a, b, third) (by_usage (grants "usage.read" (ground arith)))
        | inr c ↦ rw (a, b, c) (by_role (no_grants a b c))
      ]
    ]
  ]

no_permissions-Lands :
    (session : SessionData) → session.permissions ≡ none → Lands session (legacy_page session.role)
unfolding has_any has
no_permissions-Lands session e = by_role (ground arith)

lands :
    (session : SessionData) (o : Option (List String))
    → session.permissions ≡ o
    → Lands session (chosen_page session.role o)
lands session none e = no_permissions-Lands session e
lands session (some ps) e = some-Lands session ps e

-- The first page of a session is one whose permission it is granted (by itself or by the wildcard), if
-- it is granted one of the three that the login looks for; only otherwise its role decides.
pub first_page-Lands : (session : SessionData) → Lands session (first_page session)
unfolding first_page
first_page-Lands session = lands session session.permissions refl
