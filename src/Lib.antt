-- ===== src/Lib.antt =====
-- Optimizely Agent: an HTTP service around the Optimizely SDK. A request passes middlewares that
-- check its host and its token, and one that finds the SDK client of its key in a cache; a handler
-- then asks that client.
--
-- The library follows the program's parts, each file in the terms of the code it names:
--   Common                 texts as lists of characters, maps as association lists with distinct
--                          keys, the Boolean tests, and a small integer type
--   Http                   the parts of net/http that the code reads: header fields, requests, and
--                          the ways in which a middleware answers
--   Middleware.AllowedHosts   pkg/middleware/allowed_hosts.go (AllowedHosts, requestHost,
--                          parseForwarded); Suffixes and Accepts are about its loop over suffixes
--   Middleware.Auth        pkg/middleware/auth.go (Auth.verify, the verifiers, AuthorizeAdmin,
--                          AuthorizeAPI, NewAuth); Header, Tokens and Access hold its theorems
--   Middleware.Cached      pkg/middleware/cached.go (ClientCtx); Services is about the headers that
--                          name a plugin service
--   Optimizely.Cache       pkg/optimizely/cache.go (defaultLoader, getServiceWithType, GetClient,
--                          UpdateConfigs); Threads has the calls of GetClient side by side and the
--                          goroutines that close clients as a step relation, Sound its invariant, Agreement what follows
--   Middleware.Batch       pkg/middleware/batch.go (makeRequest, BatchRouter): the goroutines as a
--                          step relation over their channel; Complete is about what a batch answers,
--                          Ends about the bound on goroutines and that a batch ends
--   Optimizely.Client      pkg/optimizely/client.go: forced variations, decisions, tracking
--   JwtAuth                pkg/jwtauth/jwtauth.go: the tokens that are issued
--   Handlers.Body          pkg/handlers/utils.go
--   Handlers.Override, Activate, OAuth, Webhook, Notification   the file of that name in
--                          pkg/handlers, with the theorems in child modules
--   Handlers.Profiles      pkg/handlers/save.go and lookup.go, over UserProfileService.Interface
--   Handlers.Decide        pkg/handlers/decide.go; Handlers.Rest has track.go, send_odp_event.go,
--                          get_datafile.go and optimizely_config.go
--   Server                 pkg/server/server.go: Tls and Ciphers are about the suites, Pipeline about
--                          the handlers around the router
--   Server.Group           pkg/server/server_group.go: the goroutines of the servers as a step
--                          relation; Shutdown is about their end, Reports about what Wait returns
--   Routers.Api            pkg/routers/api.go: the routes with their middlewares; Default has the
--                          agent's own options; Gates, Replies and Authorized are about what a handled
--                          request has passed
--   Routers.Admin          pkg/routers/admin.go and pkg/handlers/admin_entities.go; Guarded is about the
--                          requests that are served
--   Metrics                pkg/metrics/metrics.go: the registry of metrics and the names of Prometheus;
--                          Names, Kept, Timers and Fresh are about names that are registered once
--   Config                 config/config.go: the configuration; Default has its defaults, Warnings the
--                          checks of LogConfigWarnings, next to what the middlewares do
--   Command                cmd/optimizely/main.go: Tracing, and main as the list of what it does; Needs
--                          and Start are about coming to serve, Exits about the end
--   Optimizely.TestConfig  pkg/optimizely/optimizelytest/config.go: Adders and Loops are the methods
--                          that add, Getters those that read; variation maps live in a heap, as
--                          they are shared; Steps, New, Issued and Keys are about sequences of calls,
--                          Shared, Traffic and Lost about single ones, Bags about Go's map order
--   Syncer                 pkg/syncer/syncer.go and pubsub.go; Centers is about the centers that calls
--                          return
--   Interceptors.Analytics plugins/interceptors/analytics/analytics.go; Transparent is about what a
--                          response gets
--   UserProfileService.InMemory   plugins/userprofileservice/services/in_memory_ups.go (Lookup,
--                          Save); Refines relates runs of Save to a bounded list
--   UserProfileService.Profile, Redis, Rest   services/utils.go, services/redis_ups.go and
--                          services/rest_ups.go: profiles as JSON objects, saved and looked up
--   UserProfileService.Interface   what the handlers use of a service; Instances fills it with the
--                          in-memory and the Redis service
--
-- State is passed explicitly. A text is compared by its code points, where the code compares bytes.
-- Loops are structural recursion, but for the loop over host suffixes, which recurs on the
-- shorter rest, and the digits of a number, on fuel of one more than the number, which is shown to
-- be enough. A 64-bit integer is its bit pattern, with `% 2 ^ 64` written
-- out. The Optimizely SDK (`Sdk`, `OverridesStore`, `Decider`, `DecisionSdk`), the JWT and JWK
-- libraries (`Jwt`, `Signer`), net/http and encoding/json in a batch (`Net`), the Redis client
-- (`Database`), errgroup (`ErrGroup`), chi with the middlewares of other packages (`Library`),
-- OpenTelemetry (`Telemetry`), what main learns from other packages (`Outside`), the REST service
-- with net/url (`Web`), the entities of the SDK (`Entities`) and the time are parameters.
-- Locks are not modelled where a call holds one throughout; the shared map of clients is, since
-- calls interleave on it. Logging, traces and the values of metrics are left
-- out.
--
-- Not modelled: the ODP caches, the router of the webhook service,
-- the logging interceptor, and reading the configuration with viper, which are I/O or glue, or stand
-- apart from the parts above.
pub mod Command
pub mod Common
pub mod Config
pub mod Handlers
pub mod Http
pub mod Interceptors
pub mod JwtAuth
pub mod Metrics
pub mod Middleware
pub mod Optimizely
pub mod Routers
pub mod Server
pub mod Syncer
pub mod UserProfileService
