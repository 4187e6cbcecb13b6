-- ===== src/Web/Actions/Providers/Rotation.antt =====
-- The two requests of `updateProvider`.
use Prim.Native.String.{String, [], ◌∷◌}
use voxeltoad.Common.{
  ◌≡◌, ◌⊎◌, inl, inr, refl, ◌∙◌, Bool, true, false, Option, none, some, List, [], ◌∷◌, ◌++◌,
  if◌then◌else◌,
}
use voxeltoad.Js.Json.{Json}
use voxeltoad.Js.Runtime.{Runtime}
use voxeltoad.Js.Exception.{Outcome, returned, threw}
use voxeltoad.Web.Action.{
  World, Request, Action, pure, try_catch, handle, continue, revalidate_path, ◌>>=◌,
}
use voxeltoad.Web.Client.{Site, AdminClient, send}
use voxeltoad.Web.Client.Unwrapping.{server_admin_client_cases}
use voxeltoad.Web.Errors.{FormResult, ok, rejected, to_form_error}
use voxeltoad.Web.Form.{FormData, text_field, is_blank, attempt, finish}
use voxeltoad.Web.Writes.Calls.{
  Succeeds, NoSuccess, IsBlock, IsReport, answered, to_form_error-IsReport,
}
use voxeltoad.Web.Actions.Providers.{
  update_fields, update_generic, update_credential, update_steps, update_provider,
}

-- Every request from `past` to `now` succeeded.
pub data AllSucceed (site : Site) (past : List Request) : List Request → Type 0 where
  nothing : AllSucceed site past past
  one_more :
      {now : List Request} (request : Request)
      → AllSucceed site past now
      → Succeeds site now request
      → AllSucceed site past (now ++ request ∷ [])

-- The requests from `past` to `now` succeeded, but for the last one, perhaps.
abbrev pub AllButLast : Site → List Request → List Request → Type 0
AllButLast site past now =
    (mid : List Request) × (AllSucceed site past mid
      × ((now ≡ mid)
          ⊎ ((request : Request) × (now ≡ mid ++ request ∷ []) × (Succeeds site mid request → ⊥))))

abbrev Kept : World → World → Type 0
Kept w w' = (w'.revalidated ≡ w.revalidated) × (w'.session ≡ w.session)

-- What a chain of requests comes to.
abbrev IsChain : Site → List Request → World → Outcome (Option FormResult) × World → Type 0
IsChain site past w (returned none, w') = AllSucceed site past w'.sent × Kept w w'
IsChain site past w (returned (some ok), w') = ⊥
IsChain site past w (returned (some (rejected m k)), w') = AllButLast site past w'.sent × Kept w w'
IsChain site past w (threw err, w') = AllButLast site past w'.sent × Kept w w'

-- What the action comes to.
abbrev pub IsRotated : Site → World → Outcome FormResult × World → Type 0
IsRotated site w (returned ok, w') =
    AllSucceed site w.sent w'.sent
    × (w'.revalidated ≡ w.revalidated ++ "/providers" ∷ [])
    × (w'.session ≡ w.session)
IsRotated site w (returned (rejected m k), w') = AllButLast site w.sent w'.sent × Kept w w'
IsRotated site w (threw err, w') = AllButLast site w.sent w'.sent × (w'.revalidated ≡ w.revalidated)

module _ (site : Site) (past : List Request) (w : World)
    (before : AllSucceed site past w.sent) where
  stopped : (w' : World) → NoSuccess site w w' → AllButLast site past w'.sent
  stopped w' quiet = (w.sent, (before, quiet))

  succeeded :
      {now : List Request} (request : Request)
      → now ≡ w.sent ++ request ∷ []
      → Succeeds site w.sent request
      → AllSucceed site past now
  succeeded request e good = rw e (one_more request before good)

  block-IsChain :
      (r : Outcome (Option FormResult) × World) → IsBlock site w r → IsChain site past w r
  block-IsChain (returned none, w') (request, e, good, rev, kept) =
      (succeeded request e good, (rev, kept))
  block-IsChain (returned (some ok), w') h = h
  block-IsChain (returned (some (rejected m k)), w') (quiet, rev, kept) =
      (stopped w' quiet, (rev, kept))
  block-IsChain (threw err, w') (quiet, rev, kept) = (stopped w' quiet, (rev, kept))

-- Chaining: what `w` keeps of `w0` is kept by the chain from `w`.
moved :
    (site : Site) (past : List Request) (w0 w : World)
    → Kept w0 w
    → (r : Outcome (Option FormResult) × World) → IsChain site past w r
    → IsChain site past w0 r
moved site past w0 w (r, s) (returned none, w') (all, (r', s')) = (all, (r' ∙ r, s' ∙ s))
moved site past w0 w (r, s) (returned (some ok), w') h = h
moved site past w0 w (r, s) (returned (some (rejected m k)), w') (all, (r', s')) =
    (all, (r' ∙ r, s' ∙ s))
moved site past w0 w (r, s) (threw err, w') (all, (r', s')) = (all, (r' ∙ r, s' ∙ s))

module _ (rt : Runtime) (site : Site) (past : List Request) where
  generic-IsChain :
      (client : AdminClient) (name : String) (fields : List (String × Json)) (w : World)
      → AllSucceed site past w.sent
      → IsChain site past w (update_generic rt site client name fields w)
  unfolding update_generic send pure ◌>>=◌
  generic-IsChain client name [] w before = (before, (refl, refl))
  generic-IsChain client name (f ∷ fs) w before =
      block-IsChain site past w before _ (answered site w _ "update failed" _ refl)

  credential-IsChain :
      (client : AdminClient) (name key : String) (w : World)
      → AllSucceed site past w.sent
      → IsChain site past w (update_credential rt site client name key w)
  unfolding update_credential send pure ◌>>=◌
  credential-IsChain client name [] w before = (before, (refl, refl))
  credential-IsChain client name (c ∷ key) w before =
      block-IsChain site past w before _ (answered site w _ "credential update failed" _ refl)

  -- the credential is rotated if the generic update did not fail
  second :
      (client : AdminClient) (name key : String) (w : World)
      (r : Outcome (Option FormResult) × World)
      → IsChain site past w r
      → IsChain site past w (
          continue r.0
            (λ generic. elim generic [
              | some result ↦ pure (some result)
              | none ↦ update_credential rt site client name key
            ])
            r.1)
  unfolding pure
  second client name key w (returned none, w') (all, kept) =
      moved site past w w' kept _ (credential-IsChain client name key w' all)
  second client name key w (returned (some ok), w') h = h
  second client name key w (returned (some (rejected m k)), w') h = h
  second client name key w (threw err, w') h = h

  pub update_steps-IsChain :
      (form : FormData) (name : String) (w : World)
      → AllSucceed site past w.sent
      → IsChain site past w (update_steps rt site form name w)
  unfolding update_steps ◌>>=◌
  update_steps-IsChain form name w before = elim (server_admin_client_cases site w) [
    | inr (message, e) ↦ rw e ((w.sent, (before, inl refl)), (refl, refl))
    | inl (client, e) ↦ rw e (
        second client name (text_field form "api_key") w _
          (generic-IsChain client name (update_fields rt form) w before))
  ]

-- The `try` block: what it did before it threw stays done.
abbrev IsHandled : Site → World → Outcome (Option FormResult) × World → Type 0
IsHandled site w (returned none, w') = AllSucceed site w.sent w'.sent × Kept w w'
IsHandled site w (returned (some ok), w') = ⊥
IsHandled site w (returned (some (rejected m k)), w') = AllButLast site w.sent w'.sent × Kept w w'
IsHandled site w (threw err, w') = AllButLast site w.sent w'.sent × (w'.revalidated ≡ w.revalidated)

module _ (site : Site) (w : World) where
  unmoved :
      (w' w2 : World)
      → AllButLast site w.sent w'.sent
      → w2.sent ≡ w'.sent
      → AllButLast site w.sent w2.sent
  unmoved w' w2 (mid, (all, inl e)) s = (mid, (all, inl (s ∙ e)))
  unmoved w' w2 (mid, (all, inr (request, e, bad))) s = (mid, (all, inr (request, s ∙ e, bad)))

  reported :
      (w' : World)
      → AllButLast site w.sent w'.sent
      → Kept w w'
      → (r : Outcome FormResult × World) → IsReport w' r
      → IsHandled site w (continue r.0 (λ result. pure (some result)) r.1)
  unfolding pure
  reported w' all (rev, kept) (returned ok, w2) h = absurd h
  reported w' all (rev, kept) (returned (rejected m k), w2) (s, r, q) =
      (unmoved w' w2 all s, (r ∙ rev, q ∙ kept))
  reported w' all (rev, kept) (threw err, w2) (s, r) = (unmoved w' w2 all s, r ∙ rev)

  handled :
      (r : Outcome (Option FormResult) × World)
      → IsChain site w.sent w r
      → IsHandled site w
          (handle r.0 (λ err. do result ← to_form_error site err; pure (some result)) r.1)
  unfolding ◌>>=◌ pure
  handled (returned none, w') h = h
  handled (returned (some ok), w') h = h
  handled (returned (some (rejected m k)), w') h = h
  handled (threw err, w') (all, kept) =
      reported w' all kept (to_form_error site err w') (to_form_error-IsReport site err w')

  finished :
      (r : Outcome (Option FormResult) × World)
      → IsHandled site w r
      → IsRotated site w (continue r.0 (λ result. finish "/providers" result) r.1)
  unfolding finish pure revalidate_path ◌>>=◌
  finished (threw err, w') h = h
  finished (returned none, w') (all, (rev, kept)) = (all, rw rev refl, kept)
  finished (returned (some (rejected m k)), w') h = h
  finished (returned (some ok), w') h = absurd h

  if-IsRotated :
      (test : Bool) (a b : Action FormResult)
      → IsRotated site w (a w)
      → IsRotated site w (b w)
      → IsRotated site w ((if test then a else b) w)
  if-IsRotated true a b ha hb = ha
  if-IsRotated false a b ha hb = hb

-- In every environment and from every state, an update of a provider reports a success only if every
-- request that it sent succeeded and "/providers" was revalidated. If it reports an error or throws,
-- then every request but the last one succeeded (the generic update may have been applied), and
-- nothing is revalidated. Unless it throws, the session is as before.
pub update_provider-IsRotated :
    (rt : Runtime) (site : Site) (form : FormData) (w : World)
    → IsRotated site w (update_provider rt site form w)
unfolding update_provider attempt try_catch pure ◌>>=◌
update_provider-IsRotated rt site form w =
    let name = text_field form "name" in
    if-IsRotated site w (is_blank name) _ _ ((w.sent, (nothing, inl refl)), (refl, refl))
      (finished site w _
        (handled site w _ (update_steps-IsChain rt site w.sent form name w nothing)))
