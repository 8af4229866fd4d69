-- ===== src/Command.antt =====
-- cmd/optimizely/main.go: how the agent starts and ends.
pub mod Tracing
pub mod Needs
pub mod Served
pub mod Start
pub mod Exits
mod Tests
use inspiring_vacations_agen.Common.{
  ◌⊎◌, inl, inr, Bool, true, false, Option, none, some, List, [], ◌∷◌, ◌++◌, String, map, zero, suc,
  ◌==◌, if◌then◌else◌, string_eq,
}
use inspiring_vacations_agen.Common.Int.{ℤ, pos, negsuc}
use inspiring_vacations_agen.Config.{AgentConfig, LogConfig, RuntimeConfig, TracingConfig}
use inspiring_vacations_agen.Config.Warnings.{log_config_warnings}
use inspiring_vacations_agen.Command.Tracing.{Telemetry, init_tracing}

-- What the program does on the way, in order. A log line is its message, without the values in it.
pub data Event (Provider : Type 0) : Type 0 where
  pretty_log : Event Provider
  includes_sdk_key : Bool → Event Provider
  log_level : String → Event Provider
  logged : String → Event Provider
  traces_with : Provider → Event Provider
  block_profile_rate mutex_profile_fraction : ℤ → Event Provider
  loads_clients : List String → Event Provider
  serves : (name port : String) → Event Provider
  stops_group : Event Provider
  waits_for_clients : Event Provider

-- `log.Panic`, `log.Fatal`, which exits with status 1 at once, and the end of `main`.
pub data Exit : Type 0 where
  panicked : String → Exit
  fatal : String → Exit
  returned : Exit

-- What `main` learns from other packages: whether `zerolog.ParseLevel` knows a level, whether
-- `regexp.Compile` takes a pattern, the error of statik's `fs.New` where the API's router comes to
-- call it, and whether `NewServer` gives no error for the server of a name.
pub record Outside : Type 0 where
  pub is_level : String → Bool
  pub compiles : String → Bool
  pub static_error : Option String
  pub made : String → Bool

module _ (T : Telemetry) where
  open T use {F, Provider}

  -- `conf.Level` as `zerolog.ParseLevel` sees it: whether it is a level.
  unfoldable pub init_logging : (String → Bool) → LogConfig → List (Event Provider)
  init_logging is_level conf =
      (elim conf.pretty [ true ↦ pretty_log ∷ [] | false ↦ [] ])
      ++ includes_sdk_key conf.include_sdk_key ∷ (elim (is_level conf.level) [
        | true ↦ log_level conf.level ∷ []
        | false ↦ logged "Error parsing log level" ∷ []
      ])

  -- A rate that is not 0 is set, with a warning.
  unfoldable pub set_rate : (ℤ → Event Provider) → String → ℤ → List (Event Provider)
  set_rate set message (pos zero) = []
  set_rate set message (pos (suc n)) = logged message ∷ set (pos (suc n)) ∷ []
  set_rate set message (negsuc n) = logged message ∷ set (negsuc n) ∷ []

  unfoldable pub set_runtime_environment : RuntimeConfig → List (Event Provider)
  unfolding set_rate
  set_runtime_environment conf =
      set_rate block_profile_rate
        "Setting non-zero blockProfileRate is NOT recommended for production"
        conf.block_profile_rate
      ++ set_rate mutex_profile_fraction
          "Setting non-zero mutexProfileFraction is NOT recommended for production"
          conf.mutex_profile_fraction

  -- The tracing, or the panic.
  unfoldable pub tracing_events : TracingConfig F → List (Event Provider) ⊎ String
  unfolding init_tracing
  tracing_events conf = elim conf.enabled [
    | false ↦ inl (logged "Tracing disabled" ∷ [])
    | true ↦ elim (init_tracing T conf.open_telemetry) [
      | inl provider ↦ inl (traces_with provider ∷ logged "Tracing enabled with service" ∷ [])
      | inr e ↦ inr "Unable to initialize tracing"
    ]
  ]

  -- From the warnings to the server group.
  unfoldable pub readying : AgentConfig F → List (Event Provider)
  unfolding set_runtime_environment log_config_warnings
  readying conf = map logged (log_config_warnings conf) ++ set_runtime_environment conf.runtime

  -- `GoListenAndServe`, as far as `main` sees it.
  unfoldable pub listen : String → String → Bool → List (Event Provider)
  listen name port made =
      if port == "0"
      then logged "not enabled" ∷ []
      else if made
      then serves name port ∷ []
      else logged "Failed starting server" ∷ stops_group ∷ []

  unfoldable pub serving : Outside → AgentConfig F → List (Event Provider)
  unfolding listen
  serving o conf =
      logged "Starting services." ∷ listen "api" conf.api.port (o.made "api")
      ++ listen "webhook" conf.webhook.port (o.made "webhook")
      ++ listen "admin" conf.admin.port (o.made "admin")

  -- After `sg.Wait()`: `log.Fatal` does not return.
  unfoldable pub after_wait : Option String → List (Event Provider) × Exit
  after_wait none = (logged "Exiting." ∷ waits_for_clients ∷ [], returned)
  after_wait (some e) = ([], fatal e)

  -- From the warnings on: `NewCache` ends the program on a pattern that is none, and the API's
  -- router panics without its static files.
  unfoldable pub main_services :
      Outside → AgentConfig F → Option String → List (Event Provider) × Exit
  unfolding readying serving after_wait
  main_services o conf waited =
      if o.compiles conf.client.sdk_key_regex
      then elim o.static_error [
        | some e ↦ (readying conf ++ loads_clients conf.sdk_keys ∷ [], panicked e)
        | none ↦
            let (last, exit) = after_wait waited in
            (readying conf ++ loads_clients conf.sdk_keys ∷ serving o conf ++ last, exit)
      ]
      else (readying conf, fatal "invalid sdkKeyRegex configuration")

  -- `main`, with the error of `initConfig`, the configuration that is loaded, and the error that
  -- the group of servers ends with.
  unfoldable pub main :
      Outside → Option String → AgentConfig F → Option String → List (Event Provider) × Exit
  unfolding init_logging tracing_events main_services
  main o (some e) conf waited = ([], panicked "Unable to initialize config")
  main o none conf waited =
      let begun = init_logging o.is_level conf.log in
      elim (tracing_events conf.tracing) [
        | inr message ↦ (begun, panicked message)
        | inl traced ↦
            let (rest, exit) = main_services o conf waited in (begun ++ traced ++ rest, exit)
      ]
