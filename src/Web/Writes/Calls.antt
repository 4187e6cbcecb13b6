-- ===== src/Web/Writes/Calls.antt =====
-- What one guarded admin call comes to.
use Prim.Native.String.{String}
use voxeltoad.Common.{
  ◌≡◌, ◌⊎◌, inl, inr, refl, sym, ap, ◌∙◌, Option, none, some, List, [], ◌∷◌, ◌++◌, arith,
  Bool-cases, Option-cases, ◌==◌, ◌&&◌,
}
use mathlib.Core.Path.{subst}
use voxeltoad.Js.Json.{Json}
use voxeltoad.Js.Exception.{
  Exception, Outcome, returned, threw, other_error, admin_error, range_error, redirecting,
}
use voxeltoad.Web.Action.{
  World, Request, Method, Action, pure, throw, try_catch, handle, continue, revalidate_path,
  redirect, ◌>>=◌,
}
use voxeltoad.Web.Client.{
  Site, Result, Reply, is_ok, send, clear_session, require_session_secret, is_set, long_enough,
}
use voxeltoad.Web.Client.Unwrapping.{IsSuccess, server_admin_client_cases}
use voxeltoad.Web.Errors.{FormResult, ok, rejected, to_form_error, failure_of, message_or}
use voxeltoad.Web.I18n.{map_backend_error}
use voxeltoad.Web.Form.{call, attempt, finish, submit}

-- The admin API answered the request with a success.
pub record Succeeds (site : Site) (past : List Request) (request : Request) : Type 0 where
  pub result : Result
  pub answer : site.reply past request ≡ returned result
  pub success : IsSuccess result

-- No request was sent, or one that did not succeed.
abbrev pub NoSuccess : Site → World → World → Type 0
NoSuccess site w w' =
    (w'.sent ≡ w.sent)
    ⊎ ((request : Request) × (w'.sent ≡ w.sent ++ request ∷ [])
        × (Succeeds site w.sent request → ⊥))

-- What a write action may come to from the world `w`: a success, with one successful request and
-- the page revalidated; an error that is shown, or an exception, with no successful request and
-- nothing revalidated. The session is kept unless the action throws.
abbrev pub IsHonestOutcome : Site → String → World → Outcome FormResult × World → Type 0
IsHonestOutcome site page w (returned ok, w') =
    (request : Request) × (w'.sent ≡ w.sent ++ request ∷ [])
    × Succeeds site w.sent request
    × (w'.revalidated ≡ w.revalidated ++ page ∷ [])
    × (w'.session ≡ w.session)
IsHonestOutcome site page w (returned (rejected error key), w') =
    NoSuccess site w w' × (w'.revalidated ≡ w.revalidated) × (w'.session ≡ w.session)
IsHonestOutcome site page w (threw e, w') = NoSuccess site w w' × (w'.revalidated ≡ w.revalidated)

-- The same of the `try` block, before the page is revalidated.
abbrev pub IsAttempt : Site → World → Outcome (Option FormResult) × World → Type 0
IsAttempt site w (returned none, w') =
    (request : Request) × (w'.sent ≡ w.sent ++ request ∷ [])
    × Succeeds site w.sent request
    × (w'.revalidated ≡ w.revalidated)
    × (w'.session ≡ w.session)
IsAttempt site w (returned (some ok), w') = ⊥
IsAttempt site w (returned (some (rejected error key)), w') =
    NoSuccess site w w' × (w'.revalidated ≡ w.revalidated) × (w'.session ≡ w.session)
IsAttempt site w (threw e, w') = NoSuccess site w w' × (w'.revalidated ≡ w.revalidated)

-- What `toFormError` may come to: it sends and revalidates nothing and reports no success.
abbrev pub IsReport : World → Outcome FormResult × World → Type 0
IsReport w (returned ok, w') = ⊥
IsReport w (returned (rejected error key), w') =
    (w'.sent ≡ w.sent) × (w'.revalidated ≡ w.revalidated) × (w'.session ≡ w.session)
IsReport w (threw e, w') = (w'.sent ≡ w.sent) × (w'.revalidated ≡ w.revalidated)

pub to_form_error-IsReport :
    (site : Site) (e : Exception) (w : World) → IsReport w (to_form_error site e w)
unfolding to_form_error clear_session require_session_secret redirect pure throw ◌>>=◌
to_form_error-IsReport site (admin_error status message type_name) w =
    elim (Bool-cases (status == 401)) [
      | inr other ↦ rw other (refl, refl, refl)
      | inl expired ↦
          rw expired
            (elim (Bool-cases (is_set site.session_secret && long_enough site.session_secret)) [
              | inl good ↦ rw good (refl, refl)
              | inr bad ↦ rw bad (refl, refl)
            ])
    ]
to_form_error-IsReport site (range_error message) w = (refl, refl, refl)
to_form_error-IsReport site (redirecting target) w = (refl, refl, refl)
to_form_error-IsReport site (other_error name message) w = (refl, refl, refl)

-- The block inside the `try`: it keeps the session even if it throws.
abbrev pub IsBlock : Site → World → Outcome (Option FormResult) × World → Type 0
IsBlock site w (threw e, w') =
    NoSuccess site w w' × (w'.revalidated ≡ w.revalidated) × (w'.session ≡ w.session)
IsBlock site w (returned result, w') = IsAttempt site w (returned result, w')

pub returned-injective : {A : Type 0} {a b : A} → returned a ≡ returned b → a ≡ b
returned-injective {a = a} e = ap (λ r. elim r [ returned x ↦ x | threw err ↦ a ]) e

pub threw_not_returned : {A : Type 0} {a : A} {err : Exception} → threw err ≡ returned a → ⊥
threw_not_returned e = ground (arith, e)

module _ (site : Site) (w : World) (request : Request) where
  abbrev pub after : World
  after = record w { sent = w.sent ++ request ∷ [] }

  pub failed_answer :
      (result : Result)
      → site.reply w.sent request ≡ returned result
      → (IsSuccess result → ⊥)
      → NoSuccess site w after
  failed_answer result answer bad = inr (
    request,
    refl,
    λ good. bad (subst IsSuccess (returned-injective (sym good.answer ∙ answer)) good.success),
  )

  pub thrown_answer :
      (err : Exception) → site.reply w.sent request ≡ threw err → NoSuccess site w after
  thrown_answer err answer =
      inr (request, refl, λ good. threw_not_returned (sym answer ∙ good.answer))

  -- The failure test on a result tells whether the request succeeded.
  tested :
      (result : Result) (fallback : String)
      → ((failure_of result fallback ≡ none) × IsSuccess result)
        ⊎ ((IsSuccess result → ⊥)
            × ((m : String) × ((k : Option String) × (failure_of result fallback
                    ≡ some (rejected m k)))))
  unfolding failure_of
  tested result fallback =
      let mapped = map_backend_error (message_or result.error fallback) in
      elim (Option-cases result.error) [
        | inr (body, e) ↦ inr (
          (λ good. let n = good.no_error in ground (arith, e, n)),
          (mapped.fallback, (mapped.key, rw e refl)),
        )
        | inl none_ ↦ elim (Bool-cases (is_ok result)) [
          | inl good ↦ inl (rw (good, none_) refl, record { two_hundred = good; no_error = none_ })
          | inr bad ↦ inr (
            (λ good. let t = good.two_hundred in ground (arith, t, bad)),
            (mapped.fallback, (mapped.key, rw (bad, none_) refl)),
          )
        ]
      ]

  pub answered :
      (fallback : String) (r : Reply)
      → site.reply w.sent request ≡ r
      → IsBlock site w (continue r (λ result. pure (failure_of result fallback)) after)
  unfolding pure
  answered fallback (threw err) answer = (thrown_answer err answer, refl, refl)
  answered fallback (returned result) answer = elim (tested result fallback) [
    | inl (e, good) ↦
        rw e
          (request, refl, record { result = result; answer = answer; success = good }, refl, refl)
    | inr (bad, (m, (k, e))) ↦ rw e (failed_answer result answer bad, refl, refl)
  ]

pub call-IsBlock :
    (site : Site) (method : Method) (path : String) (params query : List (String × Json))
    (body : Option Json) (fallback : String) (w : World)
    → IsBlock site w (call site method path params query body fallback w)
unfolding call send ◌>>=◌
call-IsBlock site method path params query body fallback w =
    elim (server_admin_client_cases site w) [
      | inr (message, e) ↦ rw e (inl refl, refl, refl)
      | inl (client, e) ↦ rw e (answered site w _ fallback _ refl)
    ]

module _ (site : Site) (w : World) where
  unmoved : (w' w2 : World) → NoSuccess site w w' → w2.sent ≡ w'.sent → NoSuccess site w w2
  unmoved w' w2 (inl e) s = inl (s ∙ e)
  unmoved w' w2 (inr (request, e, bad)) s = inr (request, s ∙ e, bad)

  reported :
      (w' : World)
      → NoSuccess site w w'
      → w'.revalidated ≡ w.revalidated
      → w'.session ≡ w.session
      → (r : Outcome FormResult × World) → IsReport w' r
      → IsAttempt site w (continue r.0 (λ result. pure (some result)) r.1)
  unfolding pure
  reported w' quiet rev kept (returned ok, w2) h = absurd h
  reported w' quiet rev kept (returned (rejected m k), w2) (s, r, q) =
      (unmoved w' w2 quiet s, r ∙ rev, q ∙ kept)
  reported w' quiet rev kept (threw err, w2) (s, r) = (unmoved w' w2 quiet s, r ∙ rev)

  handled :
      (r : Outcome (Option FormResult) × World)
      → IsBlock site w r
      → IsAttempt site w
          (handle r.0 (λ err. do result ← to_form_error site err; pure (some result)) r.1)
  unfolding ◌>>=◌ pure
  handled (returned result, w') h = h
  handled (threw err, w') (quiet, rev, kept) =
      reported w' quiet rev kept (to_form_error site err w') (to_form_error-IsReport site err w')

  pub attempt-IsAttempt :
      (block : Action (Option FormResult))
      → IsBlock site w (block w)
      → IsAttempt site w (attempt site block w)
  unfolding attempt try_catch
  attempt-IsAttempt block h = handled (block w) h

  finished :
      (page : String) (r : Outcome (Option FormResult) × World)
      → IsAttempt site w r
      → IsHonestOutcome site page w (continue r.0 (λ result. finish page result) r.1)
  unfolding finish pure revalidate_path ◌>>=◌
  finished page (threw err, w') h = h
  finished page (returned none, w') (request, sent, good, rev, kept) =
      (request, sent, good, rw rev refl, kept)
  finished page (returned (some (rejected m k)), w') h = h
  finished page (returned (some ok), w') h = absurd h

pub submit-outcome :
    (site : Site) (page : String) (method : Method) (path : String)
    (params query : List (String × Json)) (body : Option Json) (fallback : String) (w : World)
    → IsHonestOutcome site page w (submit site page method path params query body fallback w)
unfolding submit ◌>>=◌
submit-outcome site page method path params query body fallback w =
    let block = call site method path params query body fallback in
    finished site w page (attempt site block w)
      (attempt-IsAttempt site w block (call-IsBlock site method path params query body fallback w))
