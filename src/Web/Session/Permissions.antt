-- ===== src/Web/Session/Permissions.antt =====
-- What a session permits.
use Prim.Native.String.{String}
use voxeltoad.Common.{
  ◌≡◌, ◌↔◌, ◌⊎◌, inl, inr, refl, sym, ◌∙◌, Option-cases, true, false, none, some, List, [], ◌∷◌,
  str_eq, arith, eq_iff, Bool-cases,
}
use voxeltoad.Web.Session.{SessionData, includes, has_permission, has, has_any}

-- A text stands in a list.
pub data In (x : String) : List String → Type 0 where
  here : {ys : List String} → In x (x ∷ ys)
  there : {y : String} {ys : List String} → In x ys → In x (y ∷ ys)

In-cons : {x y : String} {ys : List String} → y ≡ x → In x (y ∷ ys)
In-cons {x} {y} {ys} e = rw e here

includes_sound : (ys : List String) (x : String) → includes ys x ≡ true → In x ys
unfolding includes
includes_sound [] x h = cc
includes_sound (y ∷ ys) x h = elim (Bool-cases (str_eq y x)) [
  | inl same ↦ In-cons ((eq_iff y x).0 same)
  | inr other ↦ there (includes_sound ys x (ground arith))
]

includes_complete : {x : String} {ys : List String} → In x ys → includes ys x ≡ true
unfolding includes
includes_complete {x = x} here = rw ((eq_iff x x).1 refl) refl
includes_complete (there h) = ground (arith, includes_complete h)

no_permissions :
    (session : SessionData) (perm : String) → session.permissions ≡ none → has session perm ≡ false
unfolding has
no_permissions session perm e = ground arith

-- The session lists the permission or the wildcard.
pub data Grants (session : SessionData) (perm : String) : Type 0 where
  listed : {ps : List String} → session.permissions ≡ some ps → In perm ps → Grants session perm
  wildcard : {ps : List String} → session.permissions ≡ some ps → In "*" ps → Grants session perm

has_permission_sound :
    (ps : List String) (perm : String) → has_permission ps perm ≡ true → In "*" ps ⊎ In perm ps
unfolding has_permission
has_permission_sound [] perm h = cc
has_permission_sound (p ∷ ps) perm h = elim (Bool-cases (includes (p ∷ ps) "*")) [
  | inl star ↦ inl (includes_sound (p ∷ ps) "*" star)
  | inr plain ↦ inr (includes_sound (p ∷ ps) perm (ground arith))
]

has_permission_star : (ps : List String) (perm : String) → In "*" ps → has_permission ps perm ≡ true
unfolding has_permission
has_permission_star [] perm h = elim h [ ]
has_permission_star (p ∷ ps) perm h = rw (includes_complete h) refl

has_permission_listed :
    (ps : List String) (perm : String) → In perm ps → has_permission ps perm ≡ true
unfolding has_permission
has_permission_listed [] perm h = elim h [ ]
has_permission_listed (p ∷ ps) perm h = ground (arith, includes_complete h)

has_lem :
    (session : SessionData) (perm : String) (ps : List String)
    → session.permissions ≡ some ps
    → has session perm ≡ has_permission ps perm
unfolding has
has_lem session perm ps e = ground arith

has_complete :
    {session : SessionData} {perm : String} → Grants session perm → has session perm ≡ true
has_complete {session} {perm} (listed {ps} e h) =
    has_lem session perm ps e ∙ has_permission_listed ps perm h
has_complete {session} {perm} (wildcard {ps} e h) =
    has_lem session perm ps e ∙ has_permission_star ps perm h

has_sound : (session : SessionData) (perm : String) → has session perm ≡ true → Grants session perm
has_sound session perm h = elim (Option-cases session.permissions) [
  | inl nothing ↦ cc (h, no_permissions session perm nothing)
  | inr (ps, e) ↦ elim (has_permission_sound ps perm (sym (has_lem session perm ps e) ∙ h)) [
    | inl star ↦ wildcard e star
    | inr plain ↦ listed e plain
  ]
]

-- `has` holds exactly for a session that lists the permission or the wildcard.
pub has_iff :
    (session : SessionData) (perm : String) → (has session perm ≡ true) ↔ Grants session perm
has_iff session perm = (has_sound session perm, has_complete)

-- One of the permissions is granted.
pub data GrantsOne (session : SessionData) (perms : List String) : Type 0 where
  one : {p : String} → In p perms → Grants session p → GrantsOne session perms

has_any_sound :
    (session : SessionData) (perms : List String)
    → has_any session perms ≡ true
    → GrantsOne session perms
unfolding has_any
has_any_sound session [] h = cc
has_any_sound session (p ∷ perms) h = elim (Bool-cases (has session p)) [
  | inl first ↦ one here (has_sound session p first)
  | inr none_yet ↦ later (has_any_sound session perms (ground arith))
]
  where
    later : GrantsOne session perms → GrantsOne session (p ∷ perms)
    later (one h g) = one (there h) g

has_any_complete :
    (session : SessionData) {p : String} (perms : List String)
    → In p perms
    → has session p ≡ true
    → has_any session perms ≡ true
unfolding has_any
has_any_complete session [] h g = elim h [ ]
has_any_complete session (p ∷ perms) here g = rw g refl
has_any_complete session (p ∷ perms) (there h) g =
    ground (arith, has_any_complete session perms h g)

has_any_of :
    (session : SessionData) (perms : List String)
    → GrantsOne session perms
    → has_any session perms ≡ true
has_any_of session perms (one h g) = has_any_complete session perms h (has_complete g)

-- `hasAny` holds exactly for a session that is granted one of the permissions, so the wildcard
-- passes every check that names a permission.
pub has_any_iff :
    (session : SessionData) (perms : List String)
    → (has_any session perms ≡ true) ↔ GrantsOne session perms
has_any_iff session perms = (has_any_sound session perms, has_any_of session perms)
