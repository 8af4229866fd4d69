-- ===== src/Routers/Api/Default.antt =====
-- pkg/routers/api.go, NewDefaultAPIRouter: the options that the agent runs with.
use inspiring_vacations_agen.Common.{ℕ, Bool, Option, none, some, if◌then◌else◌}
use inspiring_vacations_agen.Common.Int.{ℤ}
use inspiring_vacations_agen.Http.{forward, fail, plain}
use inspiring_vacations_agen.Middleware.Auth.{Jwt, Verifier, authorize_api}
use inspiring_vacations_agen.Middleware.Cached.{client_ctx}
use inspiring_vacations_agen.Optimizely.Cache.{Sdk, OptlyClient, OptlyCache, LoaderConf}
use inspiring_vacations_agen.Routers.Api.{
  answered, Handler, Middleware, forbidden_handler, ApiOptions,
}

module _ (S : Sdk) (J : Jwt) (R : Type 0) where
  abbrev pub AgentHandler : Type 0
  AgentHandler = Handler (OptlyCache S) (OptlyClient S) R

  abbrev pub AgentMiddleware : Type 0
  AgentMiddleware = Middleware (OptlyCache S) (OptlyClient S) R

  -- `CachedOptlyMiddleware.ClientCtx` and `Auth.AuthorizeAPI` as middlewares.
  unfoldable pub sdk_middleware : LoaderConf S → AgentMiddleware
  sdk_middleware conf next s c =
      (let (s', reply) = client_ctx S conf s c.request in
        elim reply [
          | forward (r, client) ↦ next s' (record { request = r; client = some client })
          | fail code message ↦ (s', answered code message)
          | plain code message ↦ (s', answered code message)
        ])

  unfoldable pub o_auth_middleware : Verifier J → ℕ → AgentMiddleware
  o_auth_middleware v now next s c = elim (authorize_api J v now c.request) [
    | forward r ↦ next s (record c { request = r })
    | fail code message ↦ (s, answered code message)
    | plain code message ↦ (s, answered code message)
  ]

  -- The handlers of pkg/handlers, and the two receivers of notifications.
  pub record Handlers : Type 0 where
    pub optimizely_config : AgentHandler
    pub get_datafile : AgentHandler
    pub activate : AgentHandler
    pub decide : AgentHandler
    pub track_event : AgentHandler
    pub override : AgentHandler
    pub lookup : AgentHandler
    pub save : AgentHandler
    pub send_odp_event : AgentHandler
    pub default_stream : AgentHandler
    pub synced_stream : AgentHandler

  -- The part of the configuration that is read here.
  pub record ApiConfig : Type 0 where
    pub max_conns : ℤ
    pub enable_overrides : Bool
    pub enable_notifications : Bool
    pub synced_notifications : Bool
    pub loader : LoaderConf S
    pub cors : AgentMiddleware

  unfoldable pub options_of :
      Verifier J
      → AgentHandler
      → Handlers
      → ApiConfig
      → ℕ
      → ApiOptions (OptlyCache S) (OptlyClient S) R
  unfolding forbidden_handler sdk_middleware o_auth_middleware
  options_of v token_handler h conf now = record {
    max_conns = conf.max_conns;
    sdk_middleware = sdk_middleware conf.loader;
    config_handler = h.optimizely_config;
    datafile_handler = h.get_datafile;
    activate_handler = h.activate;
    decide_handler = h.decide;
    track_handler = h.track_event;
    override_handler =
        if conf.enable_overrides
        then h.override
        else forbidden_handler (OptlyCache S) (OptlyClient S) R "Overrides not enabled";
    lookup_handler = h.lookup;
    save_handler = h.save;
    send_odp_event_handler = h.send_odp_event;
    n_stream_handler =
        if conf.enable_notifications
        then (if conf.synced_notifications then h.synced_stream else h.default_stream)
        else forbidden_handler (OptlyCache S) (OptlyClient S) R "Notification stream not enabled";
    o_auth_handler = token_handler;
    o_auth_middleware = o_auth_middleware v now;
    cors_handler = conf.cors;
  }

  -- `NewDefaultAPIRouter`, for what `NewAuth` and `NewOAuthHandler` give; `none` is the nil router.
  unfoldable pub default_options :
      Option (Verifier J)
      → Option AgentHandler
      → Handlers
      → ApiConfig
      → ℕ
      → Option (ApiOptions (OptlyCache S) (OptlyClient S) R)
  unfolding options_of
  default_options none token_handler h conf now = none
  default_options (some v) none h conf now = none
  default_options (some v) (some token_handler) h conf now =
      some (options_of v token_handler h conf now)
