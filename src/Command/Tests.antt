-- ===== src/Command/Tests.antt =====
-- Starts of the agent, and one end.
use inspiring_vacations_agen.Common.{
  ◌+◌, ◌≡◌, ◌⊎◌, refl, inl, inr, true, false, Option, none, some, [], ◌∷◌, String, arith, ap, ◌==◌,
}
use inspiring_vacations_agen.Config.{AgentConfig}
use inspiring_vacations_agen.Config.Default.{new_default_config}
use inspiring_vacations_agen.Server.Group.{
  ErrGroup, Listener, listening, Closer, awaiting, shutting_down, Member, Group, is_done, Move,
  closes, wakes, shut, go_listen_and_serve, listener_returns,
}
use inspiring_vacations_agen.Command.Tracing.{Telemetry, init_tracing}
use inspiring_vacations_agen.Command.{
  panicked, fatal, returned, logged, waits_for_clients, Outside, main, after_wait, tracing_events,
  init_logging,
}
use inspiring_vacations_agen.Command.Served.{served, joining, three_servers}
use inspiring_vacations_agen.Command.Start.{CanStart, EndsEarly, main-CanStart}
use inspiring_vacations_agen.Command.Exits.{
  Ports, Run, begin, add_api, add_webhook, add_admin, move, after_wait-Run,
}

-- Everything can be made but the file "/".
abbrev telemetry : Telemetry
telemetry = record {
  F = String;
  File = String;
  Exporter = String;
  Resource = String;
  Client = String;
  Provider = String;
  create = λ name. elim (name == "/") [ true ↦ inr "is a directory" | false ↦ inl name ];
  new_stdout_exporter = λ f. inl f;
  new_resource = λ service env. inl service;
  http_client = λ endpoint. endpoint;
  grpc_client = λ endpoint. endpoint;
  new_exporter = λ c. inl c;
  stdout_provider = λ e r. e;
  remote_provider = λ rate r e. e;
}

abbrev defaults : AgentConfig String
defaults = new_default_config "0.0"

-- Tracing that is only switched on has no service.
abbrev traced : AgentConfig String
traced = record defaults { tracing = record defaults.tracing { enabled = true } }

-- Each pattern compiles, and each server can be made.
abbrev outside : Outside
outside = record {
  is_level = λ _. true;
  compiles = λ _. true;
  static_error = none;
  made = λ _. true;
}

-- The webhook server is switched off.
abbrev configured : AgentConfig String
configured = record defaults { webhook = record defaults.webhook { port = "0" } }

unknown_service :
    main telemetry outside none traced none
    ≡ (init_logging telemetry (λ _. true) defaults.log, panicked "Unable to initialize tracing")
unfolding main tracing_events init_tracing
unknown_service = refl

two_servers :
    joining telemetry outside.made (three_servers telemetry configured)
    ≡ ("api", "8080") ∷ ("admin", "8088") ∷ []
two_servers = refl

main-CanStart_example :
    (CanStart telemetry outside none configured
      × (served (main telemetry outside none configured none).0
          ≡ joining telemetry outside.made (three_servers telemetry configured))
      × ((main telemetry outside none configured none).1 ≡ (after_wait telemetry none).1))
    ⊎ ((¬ CanStart telemetry outside none configured)
        × EndsEarly telemetry (main telemetry outside none configured none))
main-CanStart_example = main-CanStart telemetry outside none configured none

abbrev first_error : Option String → Option String → Option String
first_error none g = g
first_error (some e) none = some e
first_error (some e) (some d) = some d

abbrev group : ErrGroup
group = record {
  Eg = Option String;
  with_context = none;
  returned = first_error;
  wait = λ g. g;
  wait-with_context = refl;
  wait-nil = λ g. refl;
  wait-first = λ e g h. ap (first_error (some e)) h;
  wait-later = λ d e g h. ap (first_error (some e)) h;
}

-- The API server starts, the webhook server is off, and the admin server cannot be made.
abbrev ports : Ports
ports = record {
  api = "8080";
  webhook = "0";
  admin = "8088";
  api_made = true;
  webhook_made = true;
  admin_made = false;
}

abbrev api_up : Member
api_up = record { listener = listening; closer = awaiting }

abbrev stopped : Group group
stopped = record { stopped = true; eg = none; members = api_up ∷ [] }

all_added : Run group ports 3 stopped
unfolding go_listen_and_serve
all_added = add_admin (add_webhook (add_api begin))

abbrev awake : Group group
awake = record stopped { members = record api_up { closer = shutting_down } ∷ [] }

abbrev closed : Group group
closed = record awake {
  members = record { listener = Listener.finished; closer = shutting_down } ∷ [];
}

abbrev ended : Group group
ended = record closed {
  eg = some "context canceled";
  members = record { listener = Listener.finished; closer = Closer.finished } ∷ [];
}

wake : Move group stopped awake
unfolding is_done
wake = wakes [] [] api_up refl refl refl

close : Move group awake closed
unfolding listener_returns
close = closes [] [] (record api_up { closer = shutting_down }) refl refl (λ e. ground arith)

end : Move group closed ended
end = shut [] [] (record { listener = Listener.finished; closer = shutting_down }) refl refl

after_wait-Run_example :
    (((1 + 0 + 0 ≡ 0)
        × (after_wait telemetry (some "context canceled")
            ≡ (logged "Exiting." ∷ waits_for_clients ∷ [], returned)))
      ⊎ ((¬ (1 + 0 + 0 ≡ 0))
          × (e : String) × (after_wait telemetry (some "context canceled") ≡ ([], fatal e))))
after_wait-Run_example =
    after_wait-Run group telemetry ports (move (move (move all_added wake) close) end)
      ((refl, refl), tt)
