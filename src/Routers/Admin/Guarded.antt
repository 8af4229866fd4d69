-- ===== src/Routers/Admin/Guarded.antt =====
-- Which requests the admin service serves.
use inspiring_vacations_agen.Common.{
  ℕ, ◌≡◌, ◌≢◌, ◌⊎◌, refl, sym, inl, inr, Option, none, some, List, [], ◌∷◌, String, ltb,
  if◌then◌else◌, string_eq, Elem, All, Elem-All, arith, Option-cases, Bool-cases, some_inj,
}
use mathlib.Core.Path.{subst}
use inspiring_vacations_agen.Common.Dict.{lookup}
use inspiring_vacations_agen.Common.Int.{pos_part}
use inspiring_vacations_agen.Config.{AgentConfig}
use inspiring_vacations_agen.Http.{Request, Reply, forward, fail}
use inspiring_vacations_agen.Middleware.Auth.{
  Jwt, Verifier, new_auth, authorize_admin, check_token, request_token, is_expired, is_admin,
}
use inspiring_vacations_agen.Middleware.Auth
use inspiring_vacations_agen.Routers.Api.{Context, handled}
use inspiring_vacations_agen.Routers.Api.Gates.{IsGate, gate-handled}
use inspiring_vacations_agen.Routers.Admin.{
  Written, Rendered, AdminHandler, AdminMiddleware, Admin, Parts, new_admin, app_info_header,
  admin_auth, admin_routes, admin_route, new_admin_router,
}

module _ (J : Jwt) where
  -- AuthorizeAdmin hands a request on as it is, or answers.
  abbrev Settled : Request → Reply Request → Type 0
  Settled r x = (x ≡ forward r) ⊎ ((code : ℕ) × (message : String) × (x ≡ fail code message))

  authorize_admin-Settled :
      (v : Verifier J) (now : ℕ) (r : Request) → Settled r (authorize_admin J v now r)
  unfolding authorize_admin
  authorize_admin-Settled v now r = checked (check_token J v (request_token r))
    where
      checked :
          (x : Auth.Result (Option J.Token))
          → Settled r (elim x as (λ _. Reply Request) [
            | Auth.err e ↦ fail 401 e
            | Auth.ok none ↦ forward r
            | Auth.ok (some tk) ↦
                if is_expired J tk now
                then fail 401 "token expired"
                else if is_admin J (lookup "admin" (J.claims tk))
                then forward r
                else fail 401 "admin flag not set"
          ])
      checked (Auth.err e) = inr (_, _, refl)
      checked (Auth.ok none) = inl refl
      checked (Auth.ok (some tk)) = elim (Bool-cases (is_expired J tk now)) [
        | inl late ↦ rw (late) (inr (_, _, refl))
        | inr current ↦ elim (Bool-cases (is_admin J (lookup "admin" (J.claims tk)))) [
          | inl yes_admin ↦ rw (current, yes_admin) (inl refl)
          | inr no_admin ↦ rw (current, no_admin) (inr (_, _, refl))
        ]
      ]

module _ (J : Jwt) {F Other : Type 0} where
  -- A route whose only middleware is the check of the token, or the route of tokens.
  abbrev IsGuarded :
      AdminMiddleware J F Other
      → String × String × List (AdminMiddleware J F Other) × AdminHandler J F Other
      → Type 0
  IsGuarded auth (method, path, own, handler) = (own ≡ auth ∷ []) ⊎ (path ≡ "/oauth/token")

  admin_routes-IsGuarded :
      (a : Admin J F Other) (auth : AdminMiddleware J F Other) (tokens : AdminHandler J F Other)
      (h : Parts J F Other) (uptime : String)
      → All (IsGuarded auth) (admin_routes J F Other a auth tokens h uptime)
  unfolding admin_routes
  admin_routes-IsGuarded a auth tokens h uptime = (
    inl refl,
    (
      inl refl,
      (inl refl, (inl refl, (inl refl, (inl refl, (inl refl, (inl refl, (inr refl, tt))))))),
    ),
  )

  admin_auth-handled :
      (v : Verifier J) (now : ℕ) (next : AdminHandler J F Other) (s : Written)
      (c : Context (Unit {0})) (x : Rendered F Other)
      → (admin_auth J F Other v now next s c).1 ≡ handled x
      → authorize_admin J v now c.request ≡ forward c.request
  unfolding admin_auth
  admin_auth-handled v now next s c x h = elim (authorize_admin-Settled J v now c.request) [
    | inl passes ↦ passes
    | inr (code, message, stops) ↦ absurd (ground (arith, rw (admin_auth, stops) at h))
  ]

  -- Where the middleware for the content type hands a request on as it is or answers itself: if the
  -- admin router is made, the configuration names a verifier by NewAuth, and a request of any route
  -- but that of tokens, the profiler's and the metrics included, is handled only if AuthorizeAdmin
  -- of that verifier accepts it.
  pub admin_route-handled :
      (conf : AgentConfig F) (fetched : Option J.KeySet)
      (token_handler : Option (AdminHandler J F Other)) (h : Parts J F Other) (uptime host : String)
      (now : ℕ)
      (routes : List (String × String × List (AdminMiddleware J F Other) × AdminHandler J F Other))
      (method path : String) (own : List (AdminMiddleware J F Other))
      (handler : AdminHandler J F Other) (s : Written) (c : Context (Unit {0}))
      (x : Rendered F Other)
      → IsGate h.set_content_type
      → new_admin_router J F Other conf fetched token_handler h uptime now ≡ some routes
      → Elem (method, path, own, handler) routes
      → path ≢ "/oauth/token"
      → (admin_route J F Other (new_admin J F Other conf) host h (method, path, own, handler) s c).1
        ≡ handled x
      → let auth = conf.admin.auth in
        (v : Verifier J) × (new_auth J auth.jwks_url
            (ltb 0 (pos_part auth.jwks_update_interval))
            fetched
            auth.hmac_secrets
          ≡ some v)
        × (authorize_admin J v now c.request ≡ forward c.request)
  unfolding new_admin_router admin_route app_info_header
  admin_route-handled conf fetched token_handler h uptime host now routes method path own handler s
        c x gate made listed other e =
      let auth = conf.admin.auth in
      let found =
        new_auth J auth.jwks_url (ltb 0 (pos_part auth.jwks_update_interval)) fetched
          auth.hmac_secrets in
      elim (Option-cases found) [
        | inl failed ↦ absurd (ground (arith, rw (new_admin_router, failed) at made))
        | inr (v, verifier) ↦ elim (Option-cases token_handler) [
          | inl failed ↦ absurd (ground (arith, rw (new_admin_router, verifier, failed) at made))
          | inr (tokens, there) ↦
              let check = admin_auth J F Other v now in
              let a = new_admin J F Other conf in
              let same = some_inj (rw (new_admin_router, verifier, there) at made) in
              let among : Elem (method, path, own, handler)
                  (admin_routes J F Other a check tokens h uptime) =
                subst (λ rs. Elem (method, path, own, handler) rs) (sym same) listed in
              elim (Elem-All (IsGuarded check) (admin_routes J F Other a check tokens h uptime)
                (method, path, own, handler) (admin_routes-IsGuarded a check tokens h uptime)
                among) [
                  | inr token_route ↦ absurd (other token_route)
                  | inl checked ↦
                      let behind = gate-handled h.set_content_type gate _ _ c x e in
                      (v, verifier, admin_auth-handled v now handler _ c x (rw (checked) at behind))
                ]
        ]
      ]
