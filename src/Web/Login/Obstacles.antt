-- ===== src/Web/Login/Obstacles.antt =====
-- What the API answers to a login, and why a login cannot come to a session.
use Prim.Native.String.{String, [], ◌∷◌}
use voxeltoad.Common.{
  ◌≡◌, ◌≢◌, ap, sym, ◌∙◌, some_inj, none_ne, true, false, not, ◌||◌, ◌&&◌, none, some, [], ◌∷◌,
  ◌++◌, arith,
}
use mathlib.Core.Path.{subst}
use voxeltoad.Web.Writes.Calls.{returned-injective, threw_not_returned}
use voxeltoad.Js.Json.{Json, str, object}
use voxeltoad.Js.Access.{is_truthy}
use voxeltoad.Js.Exception.{Exception, returned, threw}
use voxeltoad.Web.Action.{World, Request, post, get}
use voxeltoad.Web.Client.{Site, Result, Reply, create_admin_client, is_ok, is_set, long_enough}
use voxeltoad.Web.Errors.{is_error}
use voxeltoad.Web.Form.{FormData, is_blank, or_empty, get_field}
use voxeltoad.Web.Login.{token_of}

-- The two requests of a login: the credentials of the form, and the lookup with the token.
abbrev pub login_request : FormData → Request
login_request form = record {
  authorization = none;
  method = post;
  path = "/auth/login";
  path_params = [];
  query = [];
  body = some (
      object (
        ("email", str (or_empty (get_field form "email")))
        ∷ ("password", str (or_empty (get_field form "password")))
        ∷ []));
}

abbrev pub me_request : String → Request
me_request token = record {
  authorization = (create_admin_client (some token)).authorization;
  method = get;
  path = "/api/v1/me";
  path_params = [];
  query = [];
  body = none;
}

-- The API accepted the credentials with this answer, which carries the token.
pub record IsAccepted (site : Site) (form : FormData) (w : World) (token : String) : Type 0 where
  pub login : Result
  pub answered : site.reply w.sent (login_request form) ≡ returned login
  pub no_error : is_error login.error ≡ false
  pub success : is_ok login ≡ true
  pub carries : token_of login.payload ≡ some token
  pub some_token : token ≢ []

-- The API answered the lookup with this identity, and with no error.
pub record IsIdentified (site : Site) (form : FormData) (w : World) (token : String)
    (identity : Json) : Type 0 where
  pub me : Result
  pub answered : site.reply (w.sent ++ login_request form ∷ []) (me_request token) ≡ returned me
  pub no_error : is_error me.error ≡ false
  pub carries : me.payload ≡ some identity
  pub some_identity : is_truthy identity ≡ true

-- Why a login cannot come to a session: a field is empty, the server is not configured, or the API did
-- not both accept the credentials and identify the token.
pub data Obstacle (site : Site) (form : FormData) (w : World) : Type 0 where
  blank :
      (is_blank (or_empty (get_field form "email"))
          || is_blank (or_empty (get_field form "password")))
        ≡ true
      → Obstacle site form w
  no_url : is_set site.admin_url ≡ false → Obstacle site form w
  no_secret :
      (is_set site.session_secret && long_enough site.session_secret) ≡ false → Obstacle site form w
  refused :
      ((token : String) (identity : Json)
        → IsAccepted site form w token
        → IsIdentified site form w token identity
        → ⊥)
      → Obstacle site form w

-- The states after the first request and after both.
abbrev pub asked : FormData → World → World
asked form w = record w { sent = w.sent ++ login_request form ∷ [] }

abbrev pub looked : FormData → World → String → World
looked form w token = record w {
  sent = (w.sent ++ login_request form ∷ []) ++ me_request token ∷ [];
}

module _ (site : Site) (form : FormData) (w : World) where
  same_login :
      (token : String) (r : Result)
      → IsAccepted site form w token
      → site.reply w.sent (login_request form) ≡ returned r
      → (is_error r.error ≡ false) × (is_ok r ≡ true) × (token_of r.payload ≡ some token)
  same_login token r h e =
      let same : h.login ≡ r = returned-injective (sym h.answered ∙ e) in
      (
        ap (λ (r : Result). is_error r.error) (sym same) ∙ h.no_error,
        ap is_ok (sym same) ∙ h.success,
        ap (λ (r : Result). token_of r.payload) (sym same) ∙ h.carries,
      )

  pub login_threw :
      (err : Exception) → site.reply w.sent (login_request form) ≡ threw err → Obstacle site form w
  login_threw err e = refused (λ t i h k. threw_not_returned (sym e ∙ h.answered))

  pub login_failed :
      (r : Result)
      → site.reply w.sent (login_request form) ≡ returned r
      → (is_error r.error || not (is_ok r)) ≡ true
      → Obstacle site form w
  login_failed r e bad =
      refused (λ t i h k.
        let (fine, good, carries) = same_login t r h e in ground (arith, bad, fine, good))

  pub login_empty :
      (r : Result)
      → site.reply w.sent (login_request form) ≡ returned r
      → token_of r.payload ≡ none
      → Obstacle site form w
  login_empty r e empty =
      refused
        (λ t i h k. let (fine, good, carries) = same_login t r h e in none_ne (sym empty ∙ carries))

  -- The answer to the lookup of any accepted token is this one.
  same_reply :
      (token other : String) (r : Reply)
      → IsAccepted site form w token
      → IsAccepted site form w other
      → site.reply (asked form w).sent (me_request token) ≡ r
      → site.reply (asked form w).sent (me_request other) ≡ r
  same_reply token other r h k e =
      let (fine, good, carries) = same_login other h.login k h.answered in
      let same : token ≡ other = some_inj (sym h.carries ∙ carries) in
      subst (λ t. site.reply (asked form w).sent (me_request t) ≡ r) same e

  pub lookup_threw :
      (token : String) (err : Exception)
      → IsAccepted site form w token
      → site.reply (asked form w).sent (me_request token) ≡ threw err
      → Obstacle site form w
  lookup_threw token err h e =
      refused (λ t i k l. threw_not_returned (sym (same_reply token t _ h k e) ∙ l.answered))

  same_me :
      (token other : String) (identity : Json) (me : Result)
      → IsAccepted site form w token
      → IsAccepted site form w other
      → IsIdentified site form w other identity
      → site.reply (asked form w).sent (me_request token) ≡ returned me
      → (is_error me.error ≡ false) × (me.payload ≡ some identity) × (is_truthy identity ≡ true)
  same_me token other identity me h k l e =
      let same : l.me ≡ me = returned-injective (sym l.answered ∙ same_reply token other _ h k e) in
      (
        ap (λ (r : Result). is_error r.error) (sym same) ∙ l.no_error,
        ap (λ (r : Result). r.payload) (sym same) ∙ l.carries,
        l.some_identity,
      )

  pub lookup_empty :
      (token : String) (me : Result)
      → IsAccepted site form w token
      → site.reply (asked form w).sent (me_request token) ≡ returned me
      → me.payload ≡ none
      → Obstacle site form w
  lookup_empty token me h a e = refused (λ t i k l.
      let (fine, carries, some_) = same_me token t i me h k l a in none_ne (sym e ∙ carries))

  pub lookup_failed :
      (token : String) (me : Result) (identity : Json)
      → IsAccepted site form w token
      → site.reply (asked form w).sent (me_request token) ≡ returned me
      → me.payload ≡ some identity
      → (is_error me.error || not (is_truthy identity)) ≡ true
      → Obstacle site form w
  lookup_failed token me identity h a e bad = refused (λ t i k l.
      let (fine, carries, some_) = same_me token t i me h k l a in
      let same : i ≡ identity = some_inj (sym carries ∙ e) in
      let truthy : is_truthy identity ≡ true = ap is_truthy (sym same) ∙ some_ in
      ground (arith, bad, fine, truthy))
