-- ===== src/Server.antt =====
-- pkg/server/server.go: the chain of handlers that a server puts around its router, and TLS.
pub mod Pipeline
pub mod Ciphers
pub mod Tls
pub mod Group
mod Tests
use inspiring_vacations_agen.Common.{
  ℕ, ◌≡◌, Bool, true, false, ◌&&◌, not, Option, none, some, List, [], ◌∷◌, ◌++◌, String, ◌==◌, ◌⊎◌,
  inl, inr, if◌then◌else◌, has_lower_suffix, string_eq, nat_eq, chars, of_chars,
}
use inspiring_vacations_agen.Common.Dict
use inspiring_vacations_agen.Common.Dict.{Dict}
use inspiring_vacations_agen.Common.Int.{ℤ}
use inspiring_vacations_agen.Server.Tls.{TlsConfig, default_ciphers, blacklist_ciphers}
use inspiring_vacations_agen.Http.{Request, Reply, forward, fail, plain}
use inspiring_vacations_agen.Middleware.AllowedHosts.{serve}
use inspiring_vacations_agen.Middleware.Batch.{
  Net, BatchOperation, Routed, passed_on, refused, accepted, route,
}

-- `config.ServerConfig`, with the times in nanoseconds. A plugin's configuration is JSON, `Conf`,
-- which the plugin reads or refuses.
pub record ServerConfig (Conf : Type 0) : Type 0 where
  pub allowed_hosts : List String
  pub read_timeout : ℤ
  pub write_timeout : ℤ
  pub cert_file : String
  pub key_file : String
  pub disabled_ciphers : List String
  pub health_check_path : String
  pub host : String
  pub max_concurrency : ℤ
  pub operations_limit : ℤ
  pub interceptors : List (String × Conf)

-- `GetAllowedHosts`
abbrev pub get_allowed_hosts : {Conf : Type 0} → ServerConfig Conf → List String
get_allowed_hosts conf = conf.host ∷ conf.allowed_hosts

unfoldable pub is_https_enabled : {Conf : Type 0} → ServerConfig Conf → Bool
is_https_enabled conf = not (conf.key_file == "") && not (conf.cert_file == "")

-- The errors of `NewServer`.
pub data ServerError : Type 0 where
  not_initialized : String → ServerError
  bad_certificate : String → ServerError

-- What `http.Server` returns from listening, never without an error.
pub data ListenError : Type 0 where
  server_closed : ListenError
  listen_error : String → ListenError

module _ (N : Net) (R : Type 0) where
  open N use {Body}

  -- What a request ends in: the router's response, or an answer of one of the layers before it.
  -- The operations of a batch are each served by the router.
  pub data Response : Type 0 where
    routed : R → Response
    healthy : Response
    turned_away : ℕ → String → Response
    bad_batch : ℕ → Response
    batch : List (BatchOperation Body) → Response

  abbrev pub Handler : Type 0
  Handler = Request → Response

  unfoldable pub health_mw : Handler → String → Handler
  health_mw next path r =
      if r.method == "GET" && has_lower_suffix r.path path then healthy else next r

  abbrev pub allow_hosts : List String → Handler → Handler
  allow_hosts hosts next r = elim (serve hosts r) [
    | forward r' ↦ next r'
    | fail code message ↦ turned_away code message
    | plain code message ↦ turned_away code message
  ]

  abbrev pub batch_router : (Request → Option (List (BatchOperation Body))) → ℤ → Handler → Handler
  batch_router decode limit next r = elim (route N limit r.method r.path (decode r)) [
    | passed_on ↦ next r
    | refused code ↦ bad_batch code
    | accepted ops ↦ batch ops
  ]

  -- `interceptors.Interceptors[name]()` with a configuration: `none` where the JSON fails.
  abbrev pub Registry : Type 0 → Type 0
  Registry Conf = Dict String (Conf → Option (Handler → Handler))

  pub record Server (Cert : Type 0) : Type 0 where
    pub addr : String
    pub handler : Handler
    pub tls_config : Option (TlsConfig Cert)

  module _ {Conf : Type 0} where
    -- One round of the loop of `wrapWithInterceptors`.
    unfoldable pub wrap_one : Registry Conf → String → Conf → Handler → Handler
    unfolding Dict.lookup
    wrap_one registry name conf handler = elim (Dict.lookup name registry) [
      | none ↦ handler
      | some creator ↦ elim (creator conf) [ none ↦ handler | some mw ↦ mw handler ]
    ]

    -- The configurations in the order of ranging.
    unfoldable pub wrap_with_interceptors : Registry Conf → Dict String Conf → Handler → Handler
    unfolding wrap_one
    wrap_with_interceptors registry [] handler = handler
    wrap_with_interceptors registry ((name, conf) ∷ confs) handler =
        wrap_with_interceptors registry confs (wrap_one registry name conf handler)

    -- `tls.LoadX509KeyPair`: a certificate, or the text of the error.
    unfoldable pub make_tls_config :
        {Cert : Type 0}
        → (String → String → Cert ⊎ String)
        → ServerConfig Conf
        → TlsConfig Cert ⊎ String
    unfolding blacklist_ciphers
    make_tls_config load conf = elim (load conf.cert_file conf.key_file) [
      | inr error ↦ inr error
      | inl cert ↦ inl (record {
        certificate = cert;
        cipher_suites = blacklist_ciphers conf.disabled_ciphers default_ciphers;
        min_version = 0x303;
        curve_preferences = 23 ∷ 29 ∷ 24 ∷ [];
        prefer_server_cipher_suites = true;
      })
    ]

    -- The handlers that `NewServer` puts around the router.
    unfoldable pub chain :
        (Request → Option (List (BatchOperation Body))) → ServerConfig Conf → Handler → Handler
    unfolding serve route health_mw
    chain decode conf handler =
        health_mw
          (allow_hosts (get_allowed_hosts conf) (batch_router decode conf.operations_limit handler))
          conf.health_check_path

    -- `NewServer`, its handler `none` for nil.
    unfoldable pub new_server :
        {Cert : Type 0}
        → (Request → Option (List (BatchOperation Body)))
        → Registry Conf
        → (String → String → Cert ⊎ String)
        → (name port : String) → Option Handler
        → ServerConfig Conf
        → Server Cert ⊎ ServerError
    unfolding is_https_enabled make_tls_config chain wrap_with_interceptors
    new_server decode registry load name port none conf = inr (not_initialized name)
    new_server decode registry load name port (some handler) conf =
        let addr = of_chars (chars conf.host ++ chars ":" ++ chars port) in
        let wrapped =
          wrap_with_interceptors registry conf.interceptors (chain decode conf handler) in
        if is_https_enabled conf
        then elim (make_tls_config load conf) [
          | inr error ↦ inr (bad_certificate error)
          | inl cfg ↦ inl (record { addr = addr; handler = wrapped; tls_config = some cfg })
        ]
        else inl (record { addr = addr; handler = wrapped; tls_config = none })

  -- `Server.ListenAndServe`, from what listening with TLS and without returns.
  unfoldable pub listen_and_serve :
      {Cert : Type 0} → ListenError → ListenError → Server Cert → Option String
  listen_and_serve with_tls without_tls s =
      let ended : ListenError = elim s.tls_config [ none ↦ without_tls | some _ ↦ with_tls ] in
      elim ended [ server_closed ↦ none | listen_error e ↦ some e ]
