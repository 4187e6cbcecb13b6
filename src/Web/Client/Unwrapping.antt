-- ===== src/Web/Client/Unwrapping.antt =====
-- `unwrap` and `serverAdminClient`.
use Prim.Native.String.{String}
use voxeltoad.Common.{
  ◌≡◌, ◌⊎◌, inl, inr, refl, true, ◌&&◌, none, arith, Bool-cases, Option-cases, ◌<>◌,
}
use voxeltoad.Js.Decimal.{decimal}
use voxeltoad.Js.Exception.{returned, threw, other_error, admin_error}
use voxeltoad.Web.Action.{World, pure, throw, ◌>>=◌}
use voxeltoad.Web.Client.{
  Site, Result, is_ok, AdminClient, create_admin_client, unwrap, new_admin_error, is_set,
  long_enough, require_session_secret, get_session, get_token, server_admin_client, or_text,
}

-- The API answered with a 2xx status and no error body.
pub record IsSuccess (r : Result) : Type 0 where
  pub two_hundred : is_ok r ≡ true
  pub no_error : r.error ≡ none

-- `unwrap` returns the data exactly for a success, and otherwise throws an `AdminError` with the
-- response's status.
pub unwrap_cases :
    (r : Result)
    → (IsSuccess r × (unwrap r ≡ returned r.payload))
      ⊎ ((IsSuccess r → ⊥)
          × ((message : String) × (type_name : String) × (unwrap r
                ≡ threw (admin_error r.status message type_name))))
unfolding unwrap new_admin_error
unwrap_cases r = elim (Option-cases r.error) [
  | inr (body, e) ↦ inr (
    (λ good. let n = good.no_error in ground (arith, e, n)),
    (
      or_text body.message ("admin request failed (" <> decimal r.status <> ")"),
      or_text body.type_name "api_error",
      rw e refl,
    ),
  )
  | inl none_ ↦ elim (Bool-cases (is_ok r)) [
    | inl good ↦ inl (record { two_hundred = good; no_error = none_ }, rw (good, none_) refl)
    | inr bad ↦ inr (
      (λ good. let t = good.two_hundred in ground (arith, t, bad)),
      (("admin request failed (" <> decimal r.status <> ")"), "api_error", rw (bad, none_) refl),
    )
  ]
]

-- Building the client touches nothing: it gives a client, or throws an ordinary error.
pub server_admin_client_cases :
    (site : Site) (w : World)
    → ((client : AdminClient) × (server_admin_client site w ≡ (returned client, w)))
      ⊎ ((message : String) × (server_admin_client site w
            ≡ (threw (other_error "Error" message), w)))
unfolding server_admin_client get_token get_session require_session_secret ◌>>=◌ pure throw
server_admin_client_cases site w = elim (Bool-cases (is_set site.admin_url)) [
  | inr unset ↦ inr ("ADMIN_URL must be set (see web/.env.example)", rw unset refl)
  | inl url ↦ elim (Bool-cases (is_set site.session_secret && long_enough site.session_secret)) [
    | inr short ↦ inr (
      "SESSION_SECRET must be set and at least 32 characters (see web/.env.example)",
      rw (url, short) refl,
    )
    | inl good ↦ inl (create_admin_client w.session.token, rw (url, good) refl)
  ]
]
