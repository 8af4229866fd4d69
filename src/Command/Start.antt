-- ===== src/Command/Start.antt =====
-- Whether `main` comes to start its servers.
use inspiring_vacations_agen.Common.{
  ◌≡◌, ◌⊎◌, inl, inr, refl, true, false, Option, none, some, List, [], append-nil, String, arith,
  Bool-cases, Option-cases,
}
use inspiring_vacations_agen.Config.{AgentConfig, TracingConfig}
use inspiring_vacations_agen.Command.Tracing.{Telemetry, init_tracing}
use inspiring_vacations_agen.Command.Needs.{CanTrace, init_tracing-CanTrace, sum_cases}
use inspiring_vacations_agen.Command.Served.{
  served, joining, three_servers, served-append, served-readying, served-serving,
  served-init_logging, served-after_wait,
}
use inspiring_vacations_agen.Command.{
  Event, Exit, panicked, fatal, Outside, main, main_services, tracing_events, after_wait,
}

module _ (T : Telemetry) where
  open T use {
    F, File, Exporter, Resource, Client, Provider, create, new_stdout_exporter, new_resource,
    http_client, grpc_client, new_exporter,
  }

  -- Nothing keeps `main` from its servers.
  abbrev pub CanStart : Outside → Option String → AgentConfig F → Type 0
  CanStart o init conf =
      (init ≡ none)
      × ((conf.tracing.enabled ≡ false) ⊎ CanTrace T conf.tracing.open_telemetry)
      × (o.compiles conf.client.sdk_key_regex ≡ true)
      × (o.static_error ≡ none)

  CanServe : Outside → AgentConfig F → Type 0
  CanServe o conf = (o.compiles conf.client.sdk_key_regex ≡ true) × (o.static_error ≡ none)

  -- `main` ends before its servers.
  abbrev pub EndsEarly : List (Event Provider) × Exit → Type 0
  EndsEarly (events, exit) =
      (served events ≡ [])
      × (message : String) × ((exit ≡ panicked message) ⊎ (exit ≡ fatal message))

  main_services-CanServe :
      (o : Outside) (conf : AgentConfig F) (waited : Option String)
      → let (events, exit) = main_services T o conf waited in
        (CanServe o conf
          × (served events ≡ joining T o.made (three_servers T conf))
          × (exit ≡ (after_wait T waited).1))
        ⊎ ((¬ CanServe o conf) × EndsEarly (events, exit))
  unfolding main_services CanServe
  main_services-CanServe o conf waited = elim (Bool-cases (o.compiles conf.client.sdk_key_regex)) [
    | inr off ↦
        rw (off, main_services)
          (inr (λ (h, _). absurd (ground (arith, h)), (served-readying T conf, _, inr refl)))
    | inl on ↦ elim (Option-cases o.static_error) [
      | inr (e, broken) ↦
          rw (on, broken, main_services)
            (inr (
              λ (_, h). absurd (ground (arith, h)),
              (rw (served-append, served-readying T conf) refl, _, inl refl),
            ))
      | inl fine ↦
          rw (on, fine, main_services)
            (inl (
              (refl, refl),
              rw
                  (
                    served-append,
                    served-append,
                    served-readying T conf,
                    served-serving T o conf,
                    served-after_wait T waited,
                  )
                  (append-nil _),
              refl,
            ))
    ]
  ]

  Traced : TracingConfig F → List (Event Provider) ⊎ String → Type 0
  Traced conf (inl es) =
      (served es ≡ []) × ((conf.enabled ≡ false) ⊎ CanTrace T conf.open_telemetry)
  Traced conf (inr m) = ¬ ((conf.enabled ≡ false) ⊎ CanTrace T conf.open_telemetry)

  tracing_events-Traced : (conf : TracingConfig F) → Traced conf (tracing_events T conf)
  unfolding Traced tracing_events
  tracing_events-Traced conf =
      let (to, from) = init_tracing-CanTrace T conf.open_telemetry in
      elim (Bool-cases conf.enabled) [
        | inl on ↦ elim (sum_cases (init_tracing T conf.open_telemetry)) [
          | inl (p, made) ↦ rw (tracing_events, on, made) (refl, inr (to (p, made)))
          | inr (m, failed) ↦
              rw (tracing_events, on, failed)
                λ h. elim h [
                  | inl off ↦ absurd (ground (arith, on, off))
                  | inr can ↦ let (p, made) = from can in absurd (ground (arith, made, failed))
                ]
        ]
        | inr off ↦ rw (tracing_events, off) (refl, inl refl)
      ]

  -- Where the default configuration can be set up, tracing is off or can be set up (which needs a
  -- known service, for "remote" a known protocol, and that no call for the file, the resource or the
  -- exporter fails), the pattern of the SDK keys compiles and the API router's static files are
  -- there, `main` comes to its servers: those of the API, the webhook and the admin interface whose
  -- port is not "0" and that `NewServer` makes listen, in this order and on their configured ports,
  -- and `main` ends as the group of servers does. Elsewhere it panics or ends in log.Fatal, and no
  -- server listens.
  pub main-CanStart :
      (o : Outside) (init : Option String) (conf : AgentConfig F) (waited : Option String)
      → let (events, exit) = main T o init conf waited in
        (CanStart o init conf
          × (served events ≡ joining T o.made (three_servers T conf))
          × (exit ≡ (after_wait T waited).1))
        ⊎ ((¬ CanStart o init conf) × EndsEarly (events, exit))
  unfolding main Traced CanServe
  main-CanStart o (some e) conf waited = inr (λ (h, _, _, _). ground arith, (refl, _, inl refl))
  main-CanStart o none conf waited =
      let traced = tracing_events-Traced conf.tracing in
      let quiet_log = served-init_logging T o.is_level conf.log in
      elim (sum_cases (tracing_events T conf.tracing)) [
        | inl (es, e) ↦
            let (quiet, can) : Traced conf.tracing (inl es) = rw (e) at traced in
            rw (main, e)
              (elim (main_services-CanServe o conf waited) [
                | inl ((pattern, files), listening, ending) ↦ inl (
                  (refl, can, pattern, files),
                  rw (served-append, served-append, quiet_log, quiet) listening,
                  ending,
                )
                | inr (cannot, early) ↦
                    let (none_listens, message, ending) = early in
                    inr (
                      λ (_, _, pattern, files). cannot (pattern, files),
                      (
                        rw (served-append, served-append, quiet_log, quiet) none_listens,
                        message,
                        ending,
                      ),
                    )
              ])
        | inr (m, e) ↦
            let cannot : Traced conf.tracing (inr m) = rw (e) at traced in
            rw (main, e) (inr (λ (_, can, _, _). cannot can, (quiet_log, m, inl refl)))
      ]
