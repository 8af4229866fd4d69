-- ===== src/Routers/Admin.antt =====
-- pkg/routers/admin.go and pkg/handlers/admin_entities.go: the routes of the admin service.
pub mod Guarded
mod Tests
use inspiring_vacations_agen.Common.{
  ℕ, ◌≡◌, Bool, Option, none, some, List, [], ◌∷◌, String, ◌==◌, ltb, if◌then◌else◌, string_eq,
}
use inspiring_vacations_agen.Common.Dict.{Dict, insert}
use inspiring_vacations_agen.Common.Int.{ℤ, pos_part}
use inspiring_vacations_agen.Config.{AgentConfig}
use inspiring_vacations_agen.Http.{forward, fail, plain}
use inspiring_vacations_agen.Middleware.Auth.{Jwt, Verifier, new_auth, authorize_admin}
use inspiring_vacations_agen.Routers.Api.{
  Context, Outcome, handled, answered, Handler, Middleware, with_all,
}

-- `Info` as `NewAdmin` makes it; the uptime and the host are set for each answer.
pub record Info : Type 0 where
  pub version : String
  pub author : String
  pub app_name : String
  pub uptime : String

-- The state is the header of the response. A request has no client here.
abbrev pub Written : Type 0
Written = Dict String String

-- What the handlers render, or what the profiler, the registry of metrics and the handler of tokens
-- make of a request: `Other`.
pub data Rendered (F Other : Type 0) : Type 0 where
  info : Info → Rendered F Other
  config : AgentConfig F → Rendered F Other
  other : Other → Rendered F Other

module _ (J : Jwt) (F Other : Type 0) where
  abbrev pub AdminHandler : Type 0
  AdminHandler = Handler Written (Unit {0}) (Rendered F Other)

  abbrev pub AdminMiddleware : Type 0
  AdminMiddleware = Middleware Written (Unit {0}) (Rendered F Other)

  pub record Admin : Type 0 where
    pub conf : AgentConfig F
    pub admin_info : Info

  unfoldable pub new_admin : AgentConfig F → Admin
  new_admin conf = record {
    conf = conf;
    admin_info = record {
      version = conf.version;
      author = conf.author;
      app_name = conf.name;
      uptime = "";
    };
  }

  -- `AppInfo`, with the time since the start.
  unfoldable pub app_info : Admin → String → AdminHandler
  app_info a uptime s c = (s, handled (info (record a.admin_info { uptime = uptime })))

  unfoldable pub app_config : Admin → AdminHandler
  app_config a s c = (s, handled (config a.conf))

  -- `AppInfoHeader`, with the variable HOST of the environment.
  unfoldable pub app_info_header : Admin → String → AdminMiddleware
  app_info_header a host next s c =
      let named =
        insert "App-Version" a.admin_info.version
          (insert "App-Name" a.admin_info.app_name (insert "Author" a.admin_info.author s)) in
      next (if host == "" then named else insert "Host" host named) c

  -- `Auth.AuthorizeAdmin` as a middleware.
  unfoldable pub admin_auth : Verifier J → ℕ → AdminMiddleware
  admin_auth v now next s c = elim (authorize_admin J v now c.request) [
    | forward r ↦ next s (record c { request = r })
    | fail code message ↦ (s, answered code message)
    | plain code message ↦ (s, answered code message)
  ]

  -- The handlers of other packages, and render's middleware.
  pub record Parts : Type 0 where
    pub metrics : AdminHandler
    pub pprof_index : AdminHandler
    pub pprof_cmdline : AdminHandler
    pub pprof_profile : AdminHandler
    pub pprof_symbol : AdminHandler
    pub pprof_trace : AdminHandler
    pub set_content_type : AdminMiddleware

  unfoldable pub admin_routes :
      Admin
      → AdminMiddleware
      → AdminHandler
      → Parts
      → String
      → List (String × String × List AdminMiddleware × AdminHandler)
  unfolding app_info app_config
  admin_routes a auth token_handler h uptime =
      ("GET", "/config", auth ∷ [], app_config a)
      ∷ ("GET", "/info", auth ∷ [], app_info a uptime)
      ∷ ("GET", "/metrics", auth ∷ [], h.metrics)
      ∷ ("GET", "/debug/pprof/*", auth ∷ [], h.pprof_index)
      ∷ ("GET", "/debug/pprof/cmdline", auth ∷ [], h.pprof_cmdline)
      ∷ ("GET", "/debug/pprof/profile", auth ∷ [], h.pprof_profile)
      ∷ ("GET", "/debug/pprof/symbol", auth ∷ [], h.pprof_symbol)
      ∷ ("GET", "/debug/pprof/trace", auth ∷ [], h.pprof_trace)
      ∷ ("POST", "/oauth/token", [], token_handler)
      ∷ []

  -- A route with the middlewares before all of them.
  unfoldable pub admin_route :
      Admin → String → Parts → String × String × List AdminMiddleware × AdminHandler → AdminHandler
  unfolding app_info_header
  admin_route a host h (method, path, own, handler) =
      with_all Written (Unit {0}) (Rendered F Other)
        (app_info_header a host ∷ h.set_content_type ∷ [])
        (with_all Written (Unit {0}) (Rendered F Other) own handler)

  -- `NewAdminRouter`: the routes, or none for nil. `fetched` is the first fetch of the key set, and
  -- the handler of tokens is none where `NewOAuthHandler` gives nil.
  unfoldable pub new_admin_router :
      AgentConfig F
      → Option J.KeySet
      → Option AdminHandler
      → Parts
      → (uptime : String) (now : ℕ)
      → Option (List (String × String × List AdminMiddleware × AdminHandler))
  unfolding new_auth admin_auth admin_routes new_admin
  new_admin_router conf fetched token_handler h uptime now =
      let auth = conf.admin.auth in
      let interval_set = ltb 0 (pos_part auth.jwks_update_interval) in
      elim (new_auth J auth.jwks_url interval_set fetched auth.hmac_secrets) [
        | none ↦ none
        | some v ↦ elim token_handler [
          | none ↦ none
          | some tokens ↦ some (admin_routes (new_admin conf) (admin_auth v now) tokens h uptime)
        ]
      ]
