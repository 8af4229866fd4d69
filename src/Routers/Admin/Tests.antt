-- ===== src/Routers/Admin/Tests.antt =====
-- A request of an administrator.
use inspiring_vacations_agen.Common.{
  ◌≡◌, refl, false, none, some, [], ◌∷◌, String, inl, arith, eq_iff, string_eq, trim_space,
}
use inspiring_vacations_agen.Common.Dict
use inspiring_vacations_agen.Config.{AgentConfig}
use inspiring_vacations_agen.Config.Default.{new_default_config, no_service_auth}
use inspiring_vacations_agen.Http.{Request, forward}
use inspiring_vacations_agen.Middleware.Auth
use inspiring_vacations_agen.Middleware.Auth.{Verifier, secrets, new_auth, authorize_admin}
use inspiring_vacations_agen.Routers.Samples.{jwt}
use inspiring_vacations_agen.Routers.Api.{handled}
use inspiring_vacations_agen.Routers.Admin.{
  other, config, AdminHandler, Parts, new_admin, app_info_header, admin_auth, admin_routes,
  admin_route, new_admin_router, app_config,
}
use inspiring_vacations_agen.Routers.Admin.Guarded.{admin_route-handled}

program : Unit {0}
unfolding new_auth Auth.decode_all authorize_admin Auth.check_token Auth.try_keys Auth.hmac_key
    trim_space Auth.is_expired Auth.request_token Auth.strip_prefixes Auth.strip Dict.lookup
    Dict.insert new_admin app_info_header admin_auth admin_routes admin_route new_admin_router
    app_config
program = tt

abbrev guarded : AgentConfig String
guarded =
    let defaults = new_default_config "0.0" in
    record defaults {
      admin = record defaults.admin {
        auth = record no_service_auth { hmac_secrets = "c2VjcmV0" ∷ [] };
      };
    }

abbrev shown : String → AdminHandler jwt String String
shown text s c = (s, handled (other text))

abbrev parts : Parts jwt String String
parts = record {
  metrics = shown "metrics";
  pprof_index = shown "index";
  pprof_cmdline = shown "cmdline";
  pprof_profile = shown "profile";
  pprof_symbol = shown "symbol";
  pprof_trace = shown "trace";
  set_content_type = λ next. next;
}

abbrev request : Request
request = record {
  method = "GET";
  path = "/config";
  host = "localhost";
  header = ("Authorization", "Bearer token" ∷ []) ∷ [];
  form = [];
}

admin_route-handled_example :
    (v : Verifier jwt) × (new_auth jwt "" false none ("c2VjcmV0" ∷ []) ≡ some v)
    × (authorize_admin jwt v 400 request ≡ forward request)
unfolding program
admin_route-handled_example =
    admin_route-handled jwt guarded none (some (shown "token")) parts "1s" "" 400
      (admin_routes jwt String String (new_admin jwt String String guarded)
        (admin_auth jwt String String (secrets (7 ∷ [])) 400) (shown "token") parts "1s")
      "GET" "/config" (admin_auth jwt String String (secrets (7 ∷ [])) 400 ∷ [])
      (app_config jwt String String (new_admin jwt String String guarded)) []
      (record { request = request; client = none }) (config guarded) (λ next s c. inl refl) refl
      (inl refl) (λ e. absurd (ground (arith, eq_iff "/config" "/oauth/token"))) refl
