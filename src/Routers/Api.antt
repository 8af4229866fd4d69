-- ===== src/Routers/Api.antt =====
-- pkg/routers/api.go: the routes of the API and the middlewares before each handler.
pub mod Default
pub mod Gates
pub mod Replies
pub mod Authorized
mod Tests
use inspiring_vacations_agen.Common.{
  ℕ, ◌≡◌, ◌⊎◌, inl, inr, Bool, true, false, Option, none, some, List, [], ◌∷◌, ◌++◌, String, ◌==◌,
  if◌then◌else◌, string_eq, ltb,
}
use inspiring_vacations_agen.Common.Dict
use inspiring_vacations_agen.Common.Int.{ℤ, pos_part}
use inspiring_vacations_agen.Http
use inspiring_vacations_agen.Http.{Request}

-- pkg/middleware/request_header.go, `SetRequestID`: what it makes of the request.
-- `Header.Add` puts the value after those that are there.
unfoldable pub set_request_id : String → Request → Request
unfolding Http.get Dict.insert Dict.lookup
set_request_id new_id r =
    let present : List String = elim (Dict.lookup "X-Request-Id" r.header) [
      | none ↦ []
      | some values ↦ values
    ] in
    if Http.get r.header "X-Request-Id" == ""
    then record r { header = Dict.insert "X-Request-Id" (present ++ new_id ∷ []) r.header }
    else r

-- A request with the client that its context holds, if any.
pub record Context (C : Type 0) : Type 0 where
  pub request : Request
  pub client : Option C

-- `R` is what a handler does with the response. A middleware may answer itself.
pub data Outcome (R : Type 0) : Type 0 where
  handled : R → Outcome R
  answered : ℕ → String → Outcome R

module _ (St C R : Type 0) where
  abbrev pub Handler : Type 0
  Handler = St → Context C → St × Outcome R

  abbrev pub Middleware : Type 0
  Middleware = Handler → Handler

  -- `r.With(ms...)`: the first middleware is outermost.
  abbrev pub with_all : List Middleware → Handler → Handler
  with_all [] h = h
  with_all (m ∷ ms) h = m (with_all ms h)

  unfoldable pub forbidden_handler : String → Handler
  forbidden_handler message s c = (s, answered 403 message)

  -- `APIOptions`, with the middlewares of third-party packages and those that only observe.
  pub record ApiOptions : Type 0 where
    pub max_conns : ℤ
    pub sdk_middleware : Middleware
    pub config_handler : Handler
    pub datafile_handler : Handler
    pub activate_handler : Handler
    pub decide_handler : Handler
    pub track_handler : Handler
    pub override_handler : Handler
    pub lookup_handler : Handler
    pub save_handler : Handler
    pub send_odp_event_handler : Handler
    pub n_stream_handler : Handler
    pub o_auth_handler : Handler
    pub o_auth_middleware : Middleware
    pub cors_handler : Middleware

  -- chi's middlewares, and the timers and tracers of pkg/middleware by their names.
  pub record Library : Type 0 where
    pub throttle : ℤ → Middleware
    pub allow_content_type : String → Middleware
    pub set_content_type : Middleware
    pub set_time : Middleware
    pub metricize : String → Middleware
    pub add_tracing : String → String → Middleware
    pub new_id : String

  pub record Route : Type 0 where
    pub method : String
    pub path : String
    pub handler : Handler

  module _ (L : Library) where
    open L use {
      throttle, allow_content_type, set_content_type, set_time, metricize, add_tracing, new_id,
    }

    abbrev pub request_id : Middleware
    request_id next s c = next s (record c { request = set_request_id new_id c.request })

    -- What `r.Use` puts before every route.
    unfoldable pub base : ApiOptions → List Middleware
    base opt =
        let rest = set_time ∷ set_content_type ∷ request_id ∷ [] in
        if ltb 0 (pos_part opt.max_conns) then throttle opt.max_conns ∷ rest else rest

    abbrev pub content_type : Middleware
    content_type = allow_content_type "application/json"

    -- The group "/v1": each route's own middlewares and handler.
    unfoldable pub v1 : ApiOptions → List (String × String × List Middleware × Handler)
    v1 opt =
        (
          "GET",
          "/config",
          metricize "get-config"
              ∷ opt.o_auth_middleware
              ∷ add_tracing "configHandler" "OptimizelyConfig"
              ∷ [],
          opt.config_handler,
        )
        ∷ (
          "GET",
          "/datafile",
          metricize "get-datafile"
              ∷ opt.o_auth_middleware
              ∷ add_tracing "datafileHandler" "OptimizelyDatafile"
              ∷ [],
          opt.datafile_handler,
        )
        ∷ (
          "POST",
          "/activate",
          metricize "activate"
              ∷ opt.o_auth_middleware
              ∷ content_type
              ∷ add_tracing "activateHandler" "Activate"
              ∷ [],
          opt.activate_handler,
        )
        ∷ (
          "POST",
          "/decide",
          metricize "decide"
              ∷ opt.o_auth_middleware
              ∷ content_type
              ∷ add_tracing "decideHandler" "Decide"
              ∷ [],
          opt.decide_handler,
        )
        ∷ (
          "POST",
          "/track",
          metricize "track-event"
              ∷ opt.o_auth_middleware
              ∷ content_type
              ∷ add_tracing "trackHandler" "Track"
              ∷ [],
          opt.track_handler,
        )
        ∷ (
          "POST",
          "/override",
          metricize "override"
              ∷ opt.o_auth_middleware
              ∷ content_type
              ∷ add_tracing "overrideHandler" "Override"
              ∷ [],
          opt.override_handler,
        )
        ∷ (
          "POST",
          "/lookup",
          metricize "lookup"
              ∷ opt.o_auth_middleware
              ∷ content_type
              ∷ add_tracing "lookupHandler" "Lookup"
              ∷ [],
          opt.lookup_handler,
        )
        ∷ (
          "POST",
          "/save",
          metricize "save"
              ∷ opt.o_auth_middleware
              ∷ content_type
              ∷ add_tracing "saveHandler" "Save"
              ∷ [],
          opt.save_handler,
        )
        ∷ (
          "POST",
          "/send-odp-event",
          metricize "send-odp-event"
              ∷ opt.o_auth_middleware
              ∷ content_type
              ∷ add_tracing "sendOdpEventHandler" "SendOdpEvent"
              ∷ [],
          opt.send_odp_event_handler,
        )
        ∷ (
          "GET",
          "/notifications/event-stream",
          opt.o_auth_middleware ∷ add_tracing "notificationHandler" "SendNotificationEvent" ∷ [],
          opt.n_stream_handler,
        )
        ∷ []

    -- A route of the group, with what stands before it.
    unfoldable pub group_route : ApiOptions → String × String × List Middleware × Handler → Handler
    unfolding base
    group_route opt (method, path, own, handler) =
        with_all (base opt)
          (with_all (opt.cors_handler ∷ opt.sdk_middleware ∷ []) (with_all own handler))

    unfoldable pub token_route : ApiOptions → Handler
    unfolding base
    token_route opt = with_all (base opt) (
        with_all (metricize "create-api-access-token" ∷ add_tracing "authHandler" "AuthToken" ∷ [])
          opt.o_auth_handler)
