-- ===== src/Config/Warnings.antt =====
-- `LogConfigWarnings`, next to what the servers and the authorization middleware do.
use Prim.Native.String.{◌++◌}
use inspiring_vacations_agen.Common.{
  ℕ, ◌≡◌, ◌≢◌, ◌↔◌, ◌⊎◌, refl, Bool, true, false, not, ◌||◌, Option, some, List, [], ◌∷◌, String,
  ◌==◌, is_nil, Elem, arith, eq_iff, some_inj, sym, ap, ◌∙◌, string_eq,
}
use inspiring_vacations_agen.Config.{AgentConfig, ServiceAuthConfig}
use mathlib.Core.Logic.Iff
use inspiring_vacations_agen.Http.{Request, forward}
use inspiring_vacations_agen.Server.{ServerConfig, is_https_enabled}
use inspiring_vacations_agen.Middleware.Auth.{
  Jwt, Verifier, no_auth, secrets, key_set, new_auth, authorize_api, authorize_admin, request_token,
  check_token,
}
use inspiring_vacations_agen.Middleware.Auth.Access.{new_auth-no_auth_iff}

abbrev pub https_disabled_warning : String
https_disabled_warning =
    "keyfile and certfile not available, so server will use HTTP. For production deployments, it is recommended to either set keyfile and certfile for HTTPS, or run Agent behind a load balancer/reverse proxy that uses HTTPS."

-- `AuthDisabledWarningTemplate`
abbrev pub auth_disabled_warning : String → String
auth_disabled_warning service =
    "Authorization not enabled for " ++ service
    ++ " endpoint. For production deployments, authorization is recommended."

unfoldable pub is_authorization_enabled : ServiceAuthConfig → Bool
is_authorization_enabled sc = not (is_nil sc.hmac_secrets) || not (sc.jwks_url == "")

abbrev pub warn_unless : Bool → String → List String → List String
warn_unless true message later = later
warn_unless false message later = message ∷ later

-- The warnings that are logged, in their order.
unfoldable pub log_config_warnings : {F : Type 0} → AgentConfig F → List String
unfolding is_https_enabled is_authorization_enabled
log_config_warnings ac = warn_unless (is_https_enabled ac.server) https_disabled_warning (
    warn_unless (is_authorization_enabled ac.api.auth) (auth_disabled_warning "API")
      (warn_unless (is_authorization_enabled ac.admin.auth) (auth_disabled_warning "Admin") []))

-- The three warnings are different texts.
http_and_api : https_disabled_warning ≢ auth_disabled_warning "API"
http_and_api e = ground (arith, (eq_iff https_disabled_warning (auth_disabled_warning "API")).1 e)

http_and_admin : https_disabled_warning ≢ auth_disabled_warning "Admin"
http_and_admin e =
    ground (arith, (eq_iff https_disabled_warning (auth_disabled_warning "Admin")).1 e)

api_and_admin : auth_disabled_warning "API" ≢ auth_disabled_warning "Admin"
api_and_admin e =
    ground (arith, (eq_iff (auth_disabled_warning "API") (auth_disabled_warning "Admin")).1 e)

-- Of three different messages each is logged exactly where its test fails.
Elem-warnings :
    (a b c : String) (p q r : Bool)
    → a ≢ b
    → a ≢ c
    → b ≢ c
    → let logged = warn_unless p a (warn_unless q b (warn_unless r c [])) in
      (Elem a logged ↔ (p ≡ false)) × (Elem b logged ↔ (q ≡ false)) × (Elem c logged ↔ (r ≡ false))
Elem-warnings a b c true true true ab ac bc = (ground arith, ground arith, ground arith)
Elem-warnings a b c true true false ab ac bc = (ground arith, ground arith, ground arith)
Elem-warnings a b c true false true ab ac bc = (ground arith, ground arith, ground arith)
Elem-warnings a b c true false false ab ac bc = (ground arith, ground arith, ground arith)
Elem-warnings a b c false true true ab ac bc = (ground arith, ground arith, ground arith)
Elem-warnings a b c false true false ab ac bc = (ground arith, ground arith, ground arith)
Elem-warnings a b c false false true ab ac bc = (ground arith, ground arith, ground arith)
Elem-warnings a b c false false false ab ac bc = (ground arith, ground arith, ground arith)

enabled_iff :
    (sc : ServiceAuthConfig)
    → (is_authorization_enabled sc ≡ false) ↔ ((sc.jwks_url ≡ "") × (sc.hmac_secrets ≡ []))
unfolding is_authorization_enabled
enabled_iff sc = ground (arith, eq_iff sc.jwks_url "")

https_iff :
    {Conf : Type 0} (sc : ServerConfig Conf)
    → (is_https_enabled sc ≡ false) ↔ ((sc.key_file ≡ "") ⊎ (sc.cert_file ≡ ""))
unfolding is_https_enabled
https_iff sc = ground (arith, eq_iff sc.key_file "", eq_iff sc.cert_file "")

module _ (J : Jwt) where
  -- Of the verifiers only `NoAuth` lets a request without a token pass.
  authorize_api-no_auth :
      (v : Verifier J) (now : ℕ) (r : Request)
      → request_token r ≡ ""
      → (authorize_api J v now r ≡ forward r) ↔ (v ≡ no_auth)
  unfolding authorize_api check_token
  authorize_api-no_auth no_auth now r h = (λ _. refl, λ _. refl)
  authorize_api-no_auth (secrets ks) now r h = rw (authorize_api, check_token, h) (ground arith)
  authorize_api-no_auth (key_set ks) now r h = rw (authorize_api, check_token, h) (ground arith)

  authorize_admin-no_auth :
      (v : Verifier J) (now : ℕ) (r : Request)
      → request_token r ≡ ""
      → (authorize_admin J v now r ≡ forward r) ↔ (v ≡ no_auth)
  unfolding authorize_admin check_token
  authorize_admin-no_auth no_auth now r h = (λ _. refl, λ _. refl)
  authorize_admin-no_auth (secrets ks) now r h = rw (authorize_admin, check_token, h) (ground arith)
  authorize_admin-no_auth (key_set ks) now r h = rw (authorize_admin, check_token, h) (ground arith)

  made_iff :
      (sc : ServiceAuthConfig) (interval_set : Bool) (fetched : Option J.KeySet) (v : Verifier J)
      → new_auth J sc.jwks_url interval_set fetched sc.hmac_secrets ≡ some v
      → (is_authorization_enabled sc ≡ false) ↔ (v ≡ no_auth)
  made_iff sc interval_set fetched v made =
      let (to, from) = enabled_iff sc in
      let (back, forth) = new_auth-no_auth_iff J sc.jwks_url interval_set fetched sc.hmac_secrets in
      (λ off. some_inj (sym made ∙ forth (to off)), λ e. from (back (made ∙ ap some e)))

  -- LogConfigWarnings warns of plain HTTP exactly where a key file or a certificate file is
  -- missing; and where the routers could make their verifiers of the configuration, it warns of the
  -- API, or of the admin service, exactly where the middleware of that service hands on a request
  -- that has no token.
  pub log_config_warnings-authorize :
      {F : Type 0} (conf : AgentConfig F) (api admin : Verifier J)
      (api_interval admin_interval : Bool) (api_fetched admin_fetched : Option J.KeySet) (now : ℕ)
      (r : Request)
      → new_auth J conf.api.auth.jwks_url api_interval api_fetched conf.api.auth.hmac_secrets
        ≡ some api
      → new_auth J conf.admin.auth.jwks_url admin_interval admin_fetched
          conf.admin.auth.hmac_secrets
        ≡ some admin
      → request_token r ≡ ""
      → (Elem https_disabled_warning (log_config_warnings conf)
          ↔ ((conf.server.key_file ≡ "") ⊎ (conf.server.cert_file ≡ "")))
        × (Elem (auth_disabled_warning "API") (log_config_warnings conf)
            ↔ (authorize_api J api now r ≡ forward r))
        × (Elem (auth_disabled_warning "Admin") (log_config_warnings conf)
            ↔ (authorize_admin J admin now r ≡ forward r))
  unfolding log_config_warnings
  log_config_warnings-authorize conf api admin api_interval admin_interval api_fetched admin_fetched
        now r for_api for_admin bare =
      let logged =
        Elem-warnings https_disabled_warning (auth_disabled_warning "API")
          (auth_disabled_warning "Admin") (is_https_enabled conf.server)
          (is_authorization_enabled conf.api.auth) (is_authorization_enabled conf.admin.auth)
          http_and_api http_and_admin api_and_admin in
      (
        Iff.trans logged.0 (https_iff conf.server),
        Iff.trans logged.1 (
            Iff.trans (made_iff conf.api.auth api_interval api_fetched api for_api)
              (Iff.symm (authorize_api-no_auth api now r bare))),
        Iff.trans logged.2 (
            Iff.trans (made_iff conf.admin.auth admin_interval admin_fetched admin for_admin)
              (Iff.symm (authorize_admin-no_auth admin now r bare))),
      )
