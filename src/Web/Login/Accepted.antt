-- ===== src/Web/Login/Accepted.antt =====
-- What the API has answered where a login stores a session.
use Prim.Native.String.{String, [], ◌∷◌}
use voxeltoad.Common.{
  ◌≡◌, ◌≢◌, ◌⊎◌, inl, inr, refl, ap, ◌∙◌, Bool, true, false, not, ◌||◌, ◌&&◌, Option, none, some,
  [], ◌∷◌, ◌++◌, arith, Bool-cases, if◌then◌else◌,
}
use voxeltoad.Js.Json.{Json}
use voxeltoad.Js.Access.{is_truthy}
use voxeltoad.Js.Exception.{Exception, Outcome, returned, threw, redirecting}
use voxeltoad.Web.Action.{
  World, Action, pure, throw, try_catch, handle, continue, redirect, ◌>>=◌, ◌>>◌,
}
use voxeltoad.Web.Client.{
  Site, Result, Reply, create_admin_client, is_ok, is_set, long_enough, set_session,
  require_session_secret, anon_admin_client, send,
}
use voxeltoad.Web.Errors.{FormResult, ok, rejected, is_error}
use voxeltoad.Web.Form.{FormData, is_blank, or_empty, get_field}
use voxeltoad.Web.Login.{
  session_of, first_page, some_text, identify, with_token, login_action, finish_login, token_of,
}
use voxeltoad.Web.Login.Obstacles.{
  login_request, me_request, IsAccepted, IsIdentified, Obstacle, blank, no_url, no_secret, asked,
  looked, login_threw, login_failed, login_empty, lookup_threw, lookup_empty, lookup_failed,
}

-- `login_action` stored the session of the token and the identity that the API gave, after these two
-- requests, and redirected to its first page.
pub record IsLoggedIn (site : Site) (form : FormData) (w : World) (err : Exception) (w' : World)
    : Type 0 where
  pub token : String
  pub identity : Json
  pub accepted : IsAccepted site form w token
  pub identified : IsIdentified site form w token identity
  pub sent : w'.sent ≡ (w.sent ++ login_request form ∷ []) ++ me_request token ∷ []
  pub stored : w'.session ≡ session_of token (or_empty (get_field form "email")) identity
  pub landed : err ≡ redirecting (first_page w'.session)

-- What a login from this state may come to.
abbrev pub IsLogin : Site → FormData → World → Outcome FormResult × World → Type 0
IsLogin site form w (returned ok, w') = ⊥
IsLogin site form w (returned (rejected message key), w') =
    (w'.session ≡ w.session) × Obstacle site form w
IsLogin site form w (threw err, w') =
    ((w'.session ≡ w.session) × Obstacle site form w) ⊎ IsLoggedIn site form w err w'

some_text_lem : (t : Option String) (token : String) → some_text t ≡ some token → token ≢ []
some_text_lem none token e bad = ground (arith, e)
some_text_lem (some []) token e bad = ground (arith, e)
some_text_lem (some (c ∷ s)) token e bad =
    let f : false ≡ true =
      ap (λ o. elim o [ none ↦ true | some t ↦ is_blank t ]) (e ∙ ap some bad) in
    ground (arith, f)

token_of_lem : (payload : Option Json) (token : String) → token_of payload ≡ some token → token ≢ []
unfolding token_of
token_of_lem none token e bad = ground (arith, e)
token_of_lem (some v) token e bad = some_text_lem _ token e bad

module _ (site : Site) (form : FormData) (w : World) where
  abbrev email : String
  email = or_empty (get_field form "email")

  stored :
      (token : String) (identity : Json)
      → IsAccepted site form w token
      → IsIdentified site form w token identity
      → IsLogin site form w (
          (do
            set_session site (session_of token email identity)
            redirect (first_page (session_of token email identity)))
            (looked form w token))
  unfolding set_session require_session_secret redirect pure throw ◌>>=◌
  stored token identity h k =
      elim (Bool-cases (is_set site.session_secret && long_enough site.session_secret)) [
        | inr bad ↦ rw bad (inl (refl, no_secret bad))
        | inl good ↦ rw good (
            inr record {
              token = token;
              identity = identity;
              accepted = h;
              identified = k;
              sent = refl;
              stored = refl;
              landed = refl;
            })
      ]

  identify-IsLogin :
      (token : String)
      → IsAccepted site form w token
      → (me : Result) → site.reply (asked form w).sent (me_request token) ≡ returned me
      → (payload : Option Json) → me.payload ≡ payload
      → IsLogin site form w (identify site token email me payload (looked form w token))
  unfolding identify pure
  identify-IsLogin token h me a none e = (refl, lookup_empty site form w token me h a e)
  identify-IsLogin token h me a (some identity) e =
      elim (Bool-cases (is_error me.error || not (is_truthy identity))) [
        | inl bad ↦ rw bad (refl, lookup_failed site form w token me identity h a e bad)
        | inr good ↦ rw good (
            stored token identity h (record {
              me = me;
              answered = a;
              no_error = ground (arith, good);
              carries = e;
              some_identity = ground (arith, good);
            }))
      ]

  looked_up :
      (token : String)
      → IsAccepted site form w token
      → (r : Reply) → site.reply (asked form w).sent (me_request token) ≡ r
      → IsLogin site form w
          (continue r (λ me. identify site token email me me.payload) (looked form w token))
  looked_up token h (threw err) e = inl (refl, lookup_threw site form w token err h e)
  looked_up token h (returned me) e = identify-IsLogin token h me e me.payload refl

  with_token-IsLogin :
      (r : Result) (o : Option String)
      → ((token : String) → o ≡ some token → IsAccepted site form w token)
      → (o ≡ none → Obstacle site form w)
      → IsLogin site form w (with_token site email r o (asked form w))
  unfolding with_token send pure ◌>>=◌
  with_token-IsLogin r none h stuck = (refl, stuck refl)
  with_token-IsLogin r (some token) h stuck = looked_up token (h token refl) _ refl

  finish_login-IsLogin :
      (answer : Option Result)
      → ((r : Result) → answer ≡ some r → site.reply w.sent (login_request form) ≡ returned r)
      → (answer ≡ none → Obstacle site form w)
      → IsLogin site form w (finish_login site email answer (asked form w))
  unfolding finish_login pure
  finish_login-IsLogin none a stuck = (refl, stuck refl)
  finish_login-IsLogin (some r) a stuck = elim (Bool-cases (is_error r.error || not (is_ok r))) [
    | inl bad ↦ rw bad (refl, login_failed site form w r (a r refl) bad)
    | inr good ↦ rw good (
        with_token-IsLogin r (token_of r.payload)
          (λ token e. record {
            login = r;
            answered = a r refl;
            no_error = ground (arith, good);
            success = ground (arith, good);
            carries = e;
            some_token = token_of_lem r.payload token e;
          })
          (λ e. login_empty site form w r (a r refl) e))
  ]

  tried :
      (r : Reply)
      → site.reply w.sent (login_request form) ≡ r
      → IsLogin site form w (
          (let (a, w') =
              handle
                (continue r (λ r. pure (some r)) (asked form w)).0
                (λ err. pure none)
                (continue r (λ r. pure (some r)) (asked form w)).1 in
            continue a (finish_login site email) w'))
  unfolding pure
  tried (threw err) e = finish_login-IsLogin none (λ r f. cc) (λ f. login_threw site form w err e)
  tried (returned r) e = finish_login-IsLogin (some r) (λ q f. cc) (λ f. cc)

  if-IsLogin :
      (test : Bool) (a b : Action FormResult)
      → (test ≡ true → IsLogin site form w (a w))
      → IsLogin site form w (b w)
      → IsLogin site form w ((if test then a else b) w)
  if-IsLogin true a b ha hb = ha refl
  if-IsLogin false a b ha hb = hb

-- In every environment and from every state, a login never returns a success: it shows an error or
-- throws. It keeps the session only if a field is empty, the server has no URL or no session secret
-- that is long enough, or the API did not do both: accept the credentials of the form with a successful
-- answer that has no error and carries a token that is not empty, and answer the lookup with that token
-- by an identity that is not falsy, and no error. Otherwise the API did both, these were the two
-- requests, the session of just that token, email and identity is stored, and the login redirects to
-- its first page.
pub login_action-IsLogin :
    (site : Site) (form : FormData) (w : World) → IsLogin site form w (login_action site form w)
unfolding login_action anon_admin_client create_admin_client try_catch send pure throw ◌>>=◌
login_action-IsLogin site form w =
    let email = or_empty (get_field form "email") in
    if-IsLogin site form w (is_blank email || is_blank (or_empty (get_field form "password"))) _ _
      (λ e. (refl, blank e))
      (elim (Bool-cases (is_set site.admin_url)) [
        | inr unset ↦ rw unset (inl (refl, no_url unset))
        | inl url ↦ rw url (tried site form w _ refl)
      ])
