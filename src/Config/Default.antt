-- ===== src/Config/Default.antt =====
-- `NewDefaultConfig`. Times are in nanoseconds.
use inspiring_vacations_agen.Common.{ℕ, ◌*◌, true, false, none, [], ◌∷◌}
use inspiring_vacations_agen.Common.Int.{ℤ, pos}
use inspiring_vacations_agen.Config.{
  Value, number, object, end, entry, ServiceAuthConfig, ApiConfig, AdminConfig, ClientConfig,
  AgentConfig,
}
use inspiring_vacations_agen.Config
use inspiring_vacations_agen.Syncer

abbrev seconds : ℕ → ℤ
seconds n = pos (n * 1000000000)

-- The literal that the API and the admin service have alike.
abbrev pub no_service_auth : ServiceAuthConfig
no_service_auth = record {
  clients = [];
  hmac_secrets = [];
  ttl = pos 0;
  jwks_url = "";
  jwks_update_interval = pos 0;
}

abbrev pub default_admin : AdminConfig
default_admin = record { auth = no_service_auth; port = "8088"; metrics_type = "expvar" }

abbrev pub default_api : ApiConfig
default_api = record {
  auth = no_service_auth;
  cors = record {
    allowed_origins = none;
    allowed_methods = none;
    allowed_headers = [];
    exposed_headers = [];
    allowed_credentials = false;
    max_age = pos 300;
  };
  max_conns = pos 0;
  port = "8080";
  enable_notifications = false;
  enable_overrides = false;
}

abbrev pub default_client : ClientConfig
default_client = record {
  polling_interval = seconds 60;
  batch_size = pos 10;
  queue_size = pos 1000;
  flush_interval = seconds 30;
  datafile_url_template = "https://cdn.optimizely.com/datafiles/%s.json";
  event_url = "https://logx.optimizely.com/v1/events";
  sdk_key_regex = "^[a-zA-Z0-9+/=_]+(:[a-zA-Z0-9+/=_]+)?$";
  user_profile_service = ("default", Config.text "") ∷ ("services", object end) ∷ [];
  odp = record {
    disable = false;
    events_request_timeout = seconds 10;
    events_flush_interval = seconds 1;
    segments_request_timeout = seconds 10;
    segments_cache =
        ("default", Config.text "in-memory")
        ∷ (
          "services",
          object (
              entry "in-memory"
                (object
                  (entry "size" (number (pos 10000)) (entry "timeout" (Config.text "600s") end)))
                end),
        )
        ∷ [];
  };
}

-- With the zero of `float64`.
abbrev pub new_default_config : {F : Type 0} → F → AgentConfig F
new_default_config zero_rate = record {
  version = "";
  author = "Optimizely Inc.";
  name = "optimizely";
  sdk_keys = [];
  admin = default_admin;
  api = default_api;
  log = record { pretty = false; include_sdk_key = true; level = "info" };
  tracing = record {
    enabled = false;
    open_telemetry = record {
      default_service = "";
      service_name = "";
      env = "";
      filename = "";
      remote = record { endpoint = ""; protocol = ""; sample_rate = zero_rate };
    };
  };
  client = default_client;
  runtime = record { block_profile_rate = pos 0; mutex_profile_fraction = pos 0 };
  server = record {
    allowed_hosts = "localhost" ∷ [];
    read_timeout = seconds 5;
    write_timeout = seconds 10;
    health_check_path = "/health";
    cert_file = "";
    key_file = "";
    disabled_ciphers = [];
    host = "127.0.0.1";
    interceptors = [];
    max_concurrency = pos 10;
    operations_limit = pos 500;
  };
  webhook = record { port = "8085"; projects = [] };
  synchronization = record {
    pubsub =
        (
          "redis",
          Syncer.settings (
              ("host", Syncer.text "localhost:6379")
              ∷ ("password", Syncer.text "")
              ∷ ("database", Syncer.int (pos 0))
              ∷ ("channel", Syncer.text "optimizely-notifications")
              ∷ []),
        )
        ∷ [];
    notification_enable = false;
    notification_default = "redis";
    datafile_enable = false;
    datafile_default = "";
  };
}
