-- ===== src/Config/Tests.antt =====
-- The warnings of the default configuration, and of one with a secret for the API.
use inspiring_vacations_agen.Common.{
  ℕ, ◌≡◌, ◌↔◌, ◌⊎◌, refl, inl, inr, true, none, [], ◌∷◌, String, Elem, arith, string_eq,
}
use inspiring_vacations_agen.Common.Dict
use inspiring_vacations_agen.Common.Int.{pos}
use inspiring_vacations_agen.Http.{Request, forward}
use inspiring_vacations_agen.Server.{is_https_enabled}
use inspiring_vacations_agen.Syncer.{
  new_pub_sub, get_pub_sub_redis, notification_flag, datafile_flag,
}
use inspiring_vacations_agen.Middleware.Auth.{
  Jwt, ok, err, no_auth, secrets, new_auth, decode_all, authorize_api, authorize_admin,
  request_token,
}
use inspiring_vacations_agen.Config.{AgentConfig}
use inspiring_vacations_agen.Config.Default.{new_default_config, no_service_auth}
use inspiring_vacations_agen.Config.Warnings.{
  log_config_warnings, is_authorization_enabled, https_disabled_warning, auth_disabled_warning,
  log_config_warnings-authorize,
}

abbrev defaults : AgentConfig String
defaults = new_default_config "0.0"

all_warnings :
    log_config_warnings defaults
    ≡ https_disabled_warning ∷ auth_disabled_warning "API" ∷ auth_disabled_warning "Admin" ∷ []
unfolding log_config_warnings is_https_enabled is_authorization_enabled
all_warnings = refl

-- By default the notifications can be synchronized, the datafiles not.
notifications_ready :
    new_pub_sub defaults.synchronization notification_flag
    ≡ inl (record { host = "localhost:6379"; password = ""; database = pos 0 })
unfolding new_pub_sub get_pub_sub_redis Dict.lookup
notifications_ready = refl

datafiles_off : new_pub_sub defaults.synchronization datafile_flag ≡ inr "pubsub type not supported"
unfolding new_pub_sub get_pub_sub_redis Dict.lookup
datafiles_off = refl

-- Tokens of which none is valid.
abbrev strict : Jwt
strict = record {
  Token = Unit {0};
  Key = ℕ;
  KeySet = ℕ;
  F = ℕ;
  to_int64 = λ x. x;
  is_hmac = λ _. true;
  kid = λ _. none;
  valid = λ _. true;
  claims = λ _. [];
  parse = λ pick s. err "token is malformed";
  parse_key = λ pick s tk h. absurd (ground (arith, h));
  lookup_key = λ _ _. none;
  decode_secret = λ _. ok 7;
}

abbrev guarded : AgentConfig String
guarded = record defaults {
  api = record defaults.api { auth = record no_service_auth { hmac_secrets = "c2VjcmV0" ∷ [] } };
}

abbrev bare : Request
bare = record { method = "GET"; path = "/v1/config"; host = "localhost"; header = []; form = [] }

log_config_warnings-authorize_example :
    (Elem https_disabled_warning (log_config_warnings guarded)
      ↔ (◌≡◌ {A = String} "" "" ⊎ ◌≡◌ {A = String} "" ""))
    × (Elem (auth_disabled_warning "API") (log_config_warnings guarded)
        ↔ (authorize_api strict (secrets (7 ∷ [])) 400 bare ≡ forward bare))
    × (Elem (auth_disabled_warning "Admin") (log_config_warnings guarded)
        ↔ (authorize_admin strict no_auth 400 bare ≡ forward bare))
unfolding new_auth decode_all request_token Dict.lookup
log_config_warnings-authorize_example =
    log_config_warnings-authorize strict guarded (secrets (7 ∷ [])) no_auth true true none none 400
      bare refl refl refl
