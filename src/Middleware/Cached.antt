-- ===== src/Middleware/Cached.antt =====
-- pkg/middleware/cached.go: the client of a request.
pub mod Services
mod Tests
use Prim.Native.String.{◌++◌}
use inspiring_vacations_agen.Common.{
  Bool, true, false, Option, none, some, List, [], ◌∷◌, String, ◌==◌, if◌then◌else◌, has_infix,
  string_eq,
}
use inspiring_vacations_agen.Http
use inspiring_vacations_agen.Http.{Request, Reply, forward, fail}
use inspiring_vacations_agen.Optimizely.Cache.{
  LoadError, validation_failure, failure, error_text, Result, ok, err, Sdk, OptlyClient, OptlyCache,
  LoaderConf, set_user_profile_service, set_odp_cache, get_client,
}

-- The answer to an error of `GetClient`, by the first case that fits.
unfoldable pub load_reply {ℓ} : {A : Type ℓ} → String → LoadError → Reply A
load_reply key validation_failure =
    if has_infix (error_text validation_failure) "403"
    then fail 403 (error_text validation_failure)
    else fail 400 (error_text validation_failure)
load_reply key (failure e) =
    if has_infix e "403"
    then fail 403 e
    else fail 500 ("failed to instantiate Optimizely for SDK Key: " ++ key)

abbrev pub reply_of {ℓ} : {A : Type ℓ} → Request → String → Result A → Reply (Request × A)
reply_of r key (ok client) = forward (r, client)
reply_of r key (err e) = load_reply key e

module _ (S : Sdk) where
  -- The service names of the headers, stored for the key before the client is looked up.
  unfoldable pub remember_services : String → Request → OptlyCache S → OptlyCache S
  remember_services key r c =
      let ups = Http.get r.header Http.ups_header in
      let odp = Http.get r.header Http.odp_cache_header in
      let c' = if ups == "" then c else set_user_profile_service S key ups c in
      if odp == "" then c' else set_odp_cache S key odp c'

  -- `ClientCtx`
  unfoldable pub client_ctx :
      LoaderConf S → OptlyCache S → Request → OptlyCache S × Reply (Request × OptlyClient S)
  client_ctx conf c r =
      let key = Http.get r.header Http.sdk_header in
      if key == ""
      then (c, fail 400 "missing required X-Optimizely-SDK-Key header")
      else (let (c', found) = get_client S conf key (remember_services key r c) in
          (c', reply_of r key found))
