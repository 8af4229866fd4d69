-- ===== src/Routers/Api/Tests.antt =====
-- A request with a token that is served, on a library whose middlewares hand everything on.
use inspiring_vacations_agen.Common.{
  ℕ, ◌≡◌, refl, true, false, Option, none, some, [], ◌∷◌, String, inl, string_eq, trim_space,
}
use inspiring_vacations_agen.Common.Dict
use inspiring_vacations_agen.Common.Int.{pos}
use inspiring_vacations_agen.Http
use inspiring_vacations_agen.Http.{Request, forward}
use inspiring_vacations_agen.Middleware.Auth
use inspiring_vacations_agen.Middleware.Auth.{
  Jwt, secrets, Claim, int64, list, item, string, end, authorize_api,
}
use inspiring_vacations_agen.Middleware.Cached.{client_ctx, remember_services}
use inspiring_vacations_agen.Optimizely.Cache.{Sdk, OptlyClient, OptlyCache, get_client}
use inspiring_vacations_agen.Routers.Samples.{jwt}
use inspiring_vacations_agen.Routers.Api.{
  Context, handled, answered, Library, v1, group_route, base, set_request_id, forbidden_handler,
}
use inspiring_vacations_agen.Routers.Api.Default.{
  AgentHandler, Handlers, ApiConfig, options_of, default_options, sdk_middleware, o_auth_middleware,
}
use inspiring_vacations_agen.Routers.Api.Gates.{IsGated}
use inspiring_vacations_agen.Routers.Api.Authorized.{v1-handled}

abbrev sdk : Sdk
sdk = record {
  ConfigManager = String × Option String;
  NotificationCenter = String;
  Conf = ℕ;
  UserProfileService = ℕ;
  OdpCache = ℕ;
  validator = λ _. true;
  new_manager = λ key token. (key, token);
  config_error = λ _. none;
  synced_center = λ key. some key;
  factory_error = λ _ _. none;
}

abbrev library : Library (OptlyCache sdk) (OptlyClient sdk) String
library = record {
  throttle = λ _ next. next;
  allow_content_type = λ _ next. next;
  set_content_type = λ next. next;
  set_time = λ next. next;
  metricize = λ _ next. next;
  add_tracing = λ _ _ next. next;
  new_id = "id1";
}

library-IsGated : IsGated library
library-IsGated = record {
  throttle = λ _ _ _ _. inl refl;
  allow_content_type = λ _ _ _ _. inl refl;
  set_content_type = λ _ _ _. inl refl;
  set_time = λ _ _ _. inl refl;
  metricize = λ _ _ _ _. inl refl;
  add_tracing = λ _ _ _ _ _. inl refl;
}

abbrev serving : String → AgentHandler sdk jwt String
serving name s c = (s, handled name)

abbrev handlers : Handlers sdk jwt String
handlers = record {
  optimizely_config = serving "config";
  get_datafile = serving "datafile";
  activate = serving "activate";
  decide = serving "decide";
  track_event = serving "track";
  override = serving "override";
  lookup = serving "lookup";
  save = serving "save";
  send_odp_event = serving "send";
  default_stream = serving "stream";
  synced_stream = serving "synced";
}

abbrev conf : ApiConfig sdk jwt String
conf = record {
  max_conns = pos 10;
  enable_overrides = false;
  enable_notifications = true;
  synced_notifications = false;
  loader = record {
    sync_notifications = false;
    ups_conf = record { default = none; services = none };
    odp_conf = record { default = none; services = none };
    ups_creators = [];
    odp_creators = [];
  };
  cors = λ next. next;
}

abbrev cache : OptlyCache sdk
cache = record {
  optly_map =
      (
        "key1",
        record {
          sdk_key = "key1";
          manager = ("key1", none);
          center = none;
          user_profile_service = none;
          odp_cache = none;
        },
      )
      ∷ [];
  ups_map = [];
  odp_map = [];
}

abbrev asking : Context (OptlyClient sdk)
asking = record {
  request = record {
    method = "GET";
    path = "/v1/config";
    host = "localhost";
    header = ("Authorization", "Bearer yes" ∷ []) ∷ (Http.sdk_header, "key1" ∷ []) ∷ [];
    form = [];
  };
  client = none;
}

program : Unit {0}
unfolding v1 group_route base set_request_id sdk_middleware o_auth_middleware options_of client_ctx
    authorize_api Dict.lookup Dict.insert Http.get get_client remember_services Auth.check_token
    Auth.request_token Auth.strip_prefixes Auth.strip trim_space Auth.try_keys Auth.hmac_key
    Auth.is_expired Auth.check_keys Auth.names_key
program = tt

v1-handled_example :
    (client : OptlyClient sdk) × ((client_ctx sdk conf.loader cache
        (set_request_id "id1" asking.request)).1
      ≡ forward (set_request_id "id1" asking.request, client))
    × (authorize_api jwt (secrets (7 ∷ [])) 400 (set_request_id "id1" asking.request)
        ≡ forward (set_request_id "id1" asking.request))
unfolding program
v1-handled_example =
    v1-handled sdk jwt library library-IsGated (secrets (7 ∷ [])) 400 (serving "token") handlers
      conf (λ _ _ _. inl refl) "GET" "/config" _ (serving "config") (inl refl) cache asking "config"
      refl

-- Overrides are refused where they are not enabled, and without a verifier there is no router.
no_overrides :
    (options_of sdk jwt String
        (secrets (7 ∷ []))
        (serving "token")
        handlers
        conf
        400).override_handler
      cache asking
    ≡ (cache, answered 403 "Overrides not enabled")
unfolding options_of forbidden_handler
no_overrides = refl

no_verifier : default_options sdk jwt String none (some (serving "token")) handlers conf 400 ≡ none
unfolding default_options
no_verifier = refl
