-- ===== src/Routers/Api/Replies.antt =====
-- What AuthorizeAPI and ClientCtx have accepted of a request that is handled behind them.
use inspiring_vacations_agen.Common.{
  ℕ, ◌≡◌, refl, ◌⊎◌, inl, inr, Option, none, some, String, arith, ap, sym, Bool-cases, string_eq,
  ◌==◌, if◌then◌else◌,
}
use mathlib.Core.Path.{subst}
use inspiring_vacations_agen.Http.{Request, Reply, forward, fail, plain}
use inspiring_vacations_agen.Middleware.Auth.{
  Jwt, Verifier, authorize_api, check_token, request_token, is_expired, check_keys, names_key,
  unauthorized, unknown_key, Claim, list,
}
use inspiring_vacations_agen.Middleware.Auth
use inspiring_vacations_agen.Common.Dict
use inspiring_vacations_agen.Http
use inspiring_vacations_agen.Middleware.Cached.{client_ctx, load_reply, reply_of, remember_services}
use inspiring_vacations_agen.Optimizely.Cache.{
  Sdk, OptlyClient, OptlyCache, LoaderConf, get_client, Result, ok, err, validation_failure,
  failure,
}
use inspiring_vacations_agen.Routers.Api.{Context, Outcome, handled, answered}
use inspiring_vacations_agen.Routers.Api.Default.{AgentHandler, sdk_middleware, o_auth_middleware}

-- A reply that hands the request on as it is, or answers.
abbrev Settled : Request → Reply Request → Type 0
Settled r x =
    (x ≡ forward r)
    ⊎ ((code : ℕ) × (message : String) × ((x ≡ fail code message) ⊎ (x ≡ plain code message)))

check_keys-Settled : (j : Jwt) (o : Option (Claim j.F)) (r : Request) → Settled r (check_keys j o r)
unfolding check_keys
check_keys-Settled j none r = inr (_, _, inl refl)
check_keys-Settled j (some (list cs)) r =
    elim (Bool-cases (names_key j cs (Http.get r.header Http.sdk_header))) [
      | inl named ↦ inl (rw (named, check_keys) refl)
      | inr unnamed ↦ inr (401, unknown_key j, inl (rw (unnamed, check_keys) refl))
    ]
check_keys-Settled j (some _) r = inr (_, _, inl refl)

authorize_api-Settled :
    (j : Jwt) (v : Verifier j) (now : ℕ) (r : Request) → Settled r (authorize_api j v now r)
unfolding authorize_api
authorize_api-Settled j v now r = checked (check_token j v (request_token r))
  where
    checked :
        (x : Auth.Result (Option j.Token))
        → Settled r (elim x as (λ _. Reply Request) [
          | Auth.err e ↦ plain 401 (unauthorized j e)
          | Auth.ok none ↦ forward r
          | Auth.ok (some tk) ↦
              if is_expired j tk now
              then fail 401 "token expired"
              else check_keys j (Dict.lookup "sdk_keys" (j.claims tk)) r
        ])
    checked (Auth.err e) = inr (_, _, inr refl)
    checked (Auth.ok none) = inl refl
    checked (Auth.ok (some tk)) = elim (Bool-cases (is_expired j tk now)) [
      | inl late ↦ rw late (inr (_, _, inl refl))
      | inr current ↦ rw current (check_keys-Settled j (Dict.lookup "sdk_keys" (j.claims tk)) r)
    ]

request_of : {C : Type 0} → Request → Reply (Request × C) → Request
request_of r (forward (q, _)) = q
request_of r _ = r

client_ctx-same :
    (S : Sdk) (conf : LoaderConf S) (s : OptlyCache S) (r q : Request) (client : OptlyClient S)
    → (client_ctx S conf s r).1 ≡ forward (q, client)
    → q ≡ r
unfolding client_ctx load_reply request_of
client_ctx-same S conf s r q client e =
    let key = Http.get r.header Http.sdk_header in
    elim (Bool-cases (key == "")) [
      | inl missing ↦ absurd (ground (arith, rw (client_ctx, missing) at e))
      | inr named ↦
          found (get_client S conf key (remember_services S key r s)).1
            (rw (client_ctx, named) at e)
    ]
  where
    found :
        (x : Result (OptlyClient S))
        → reply_of r (Http.get r.header Http.sdk_header) x ≡ forward (q, client)
        → q ≡ r
    found (ok c) h = sym (ap (request_of r) h)
    found (err validation_failure) h = absurd (ground arith)
    found (err (failure m)) h = absurd (ground arith)

module _ (S : Sdk) (J : Jwt) {R : Type 0} where
  pub o_auth-handled :
      (v : Verifier J) (now : ℕ) (next : AgentHandler S J R) (s : OptlyCache S)
      (c : Context (OptlyClient S)) (x : R)
      → (o_auth_middleware S J R v now next s c).1 ≡ handled x
      → authorize_api J v now c.request ≡ forward c.request
  unfolding o_auth_middleware
  o_auth-handled v now next s c x e = elim (authorize_api-Settled J v now c.request) [
    | inl passes ↦ passes
    | inr (code, message, inl fails) ↦ absurd (ground (arith, rw (o_auth_middleware, fails) at e))
    | inr (code, message, inr fails) ↦ absurd (ground (arith, rw (o_auth_middleware, fails) at e))
  ]

  pub sdk-handled :
      (conf : LoaderConf S) (next : AgentHandler S J R) (s : OptlyCache S)
      (c : Context (OptlyClient S)) (x : R)
      → (sdk_middleware S J R conf next s c).1 ≡ handled x
      → (client : OptlyClient S) × ((client_ctx S conf s c.request).1 ≡ forward (c.request, client))
        × ((next
              (client_ctx S conf s c.request).0
              (record { request = c.request; client = some client })).1
            ≡ handled x)
  unfolding sdk_middleware
  sdk-handled conf next s c x e =
      let (r, client, passes, h) = after (client_ctx S conf s c.request) e in
      let same = client_ctx-same S conf s c.request r client passes in
      subst
        (λ q.
          (cl : OptlyClient S) × ((client_ctx S conf s c.request).1 ≡ forward (q, cl))
          × ((next (client_ctx S conf s c.request).0 (record { request = q; client = some cl })).1
              ≡ handled x))
        same (client, passes, h)
    where
      after :
          (p : OptlyCache S × Reply (Request × OptlyClient S))
          → (elim p.1 as (λ _. OptlyCache S × Outcome R) [
            | forward (r, client) ↦ next p.0 (record { request = r; client = some client })
            | fail code message ↦ (p.0, answered code message)
            | plain code message ↦ (p.0, answered code message)
          ]).1
            ≡ handled x
          → (r : Request) × (client : OptlyClient S) × (p.1 ≡ forward (r, client))
            × ((next p.0 (record { request = r; client = some client })).1 ≡ handled x)
      after (s', forward (r, client)) h = (r, client, refl, h)
      after (s', fail code message) h = absurd (ground arith)
      after (s', plain code message) h = absurd (ground arith)
