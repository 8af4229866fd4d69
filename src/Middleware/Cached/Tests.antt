-- ===== src/Middleware/Cached/Tests.antt =====
-- The service of a client by its request's header, with and without an access token in the key.
use inspiring_vacations_agen.Common.{
  ℕ, ◌≡◌, refl, true, false, Option, none, some, [], ◌∷◌, arith, eq_iff, String, chars, of_chars,
  split_chars, string_eq,
}
use inspiring_vacations_agen.Common.Dict
use inspiring_vacations_agen.Http
use inspiring_vacations_agen.Http.{Request, Reply, forward, fail}
use inspiring_vacations_agen.Optimizely.Cache.{
  Sdk, OptlyClient, OptlyCache, LoaderConf, get_service, initialise_service, split_key, load,
  manager_for, set_if_absent, set_user_profile_service, set_odp_cache, get_client,
}
use inspiring_vacations_agen.Middleware.Cached.{load_reply, remember_services, client_ctx}
use inspiring_vacations_agen.Middleware.Cached.Services.{client_ctx-ignored_service}

program : Unit {0}
unfolding get_service initialise_service split_key load manager_for set_if_absent
    set_user_profile_service set_odp_cache get_client load_reply remember_services client_ctx
    Dict.lookup Dict.insert Http.get split_chars
program = tt

-- A service is a number; a configuration manager is its key and token.
abbrev sample : Sdk
sample = record {
  ConfigManager = String × Option String;
  NotificationCenter = String;
  Conf = ℕ;
  UserProfileService = ℕ;
  OdpCache = ℕ;
  validator = λ _. true;
  new_manager = λ key token. (key, token);
  config_error = λ _. none;
  synced_center = λ key. some key;
  factory_error = λ _ _. none;
}

abbrev conf : LoaderConf sample
conf = record {
  sync_notifications = false;
  ups_conf = record {
    default = some "redis";
    services = some (("redis", some 1) ∷ ("rest", some 2) ∷ []);
  };
  odp_conf = record { default = none; services = none };
  ups_creators = ("redis", λ c. some c) ∷ ("rest", λ c. some c) ∷ [];
  odp_creators = [];
}

abbrev no_clients : OptlyCache sample
no_clients = record { optly_map = []; ups_map = []; odp_map = [] }

abbrev asking : String → Request
asking key = record {
  method = "GET";
  path = "/v1/config";
  host = "localhost";
  header = (Http.sdk_header, key ∷ []) ∷ (Http.ups_header, "rest" ∷ []) ∷ [];
  form = [];
}

abbrev made : String → Option String → ℕ → OptlyClient sample
made key token service = record {
  sdk_key = key;
  manager = (key, token);
  center = none;
  user_profile_service = some service;
  odp_cache = none;
}

-- The key carries a token, and the client has the default service, not "rest".
client_ctx-ignored_service_example :
    (made "key1" (some "t") 1).user_profile_service
    ≡ get_service conf.ups_creators (of_chars (chars "key1")) no_clients.ups_map conf.ups_conf
unfolding program
client_ctx-ignored_service_example =
    client_ctx-ignored_service sample conf no_clients (asking "key1:t") "rest"
      (made "key1" (some "t") 1) refl (λ e. ground (arith, eq_iff "rest" "")) refl refl
      (chars "key1") (chars "t") ":" refl (refl, (refl, (refl, (refl, tt)))) (refl, tt) refl
