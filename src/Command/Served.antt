-- ===== src/Command/Served.antt =====
-- The servers among the events of `main`.
use inspiring_vacations_agen.Common.{
  ◌≡◌, refl, ap, Bool, Option, none, some, List, [], ◌∷◌, ◌++◌, map, String, arith, zero, suc, not,
  ◌&&◌, ◌==◌, if◌then◌else◌, string_eq,
}
use inspiring_vacations_agen.Common.Int.{ℤ, pos, negsuc}
use inspiring_vacations_agen.Config.{AgentConfig, LogConfig, RuntimeConfig}
use inspiring_vacations_agen.Config.Warnings.{log_config_warnings}
use inspiring_vacations_agen.Command.Tracing.{Telemetry}
use inspiring_vacations_agen.Command.{
  Event, pretty_log, includes_sdk_key, log_level, logged, traces_with, block_profile_rate,
  mutex_profile_fraction, loads_clients, serves, stops_group, waits_for_clients, Outside,
  init_logging, readying, listen, serving, set_runtime_environment, set_rate, after_wait,
}

-- The servers that listen, with their ports.
abbrev pub served : {P : Type 0} → List (Event P) → List (String × String)
served [] = []
served (serves name port ∷ es) = (name, port) ∷ served es
served (e ∷ es) = served es

pub served-append :
    {P : Type 0} (xs ys : List (Event P)) → served (xs ++ ys) ≡ served xs ++ served ys
served-append [] ys = refl
served-append (serves name port ∷ xs) ys = ap (◌∷◌ (name, port)) (served-append xs ys)
served-append (pretty_log ∷ xs) ys = served-append xs ys
served-append (includes_sdk_key b ∷ xs) ys = served-append xs ys
served-append (log_level l ∷ xs) ys = served-append xs ys
served-append (logged m ∷ xs) ys = served-append xs ys
served-append (traces_with p ∷ xs) ys = served-append xs ys
served-append (block_profile_rate n ∷ xs) ys = served-append xs ys
served-append (mutex_profile_fraction n ∷ xs) ys = served-append xs ys
served-append (loads_clients ks ∷ xs) ys = served-append xs ys
served-append (waits_for_clients ∷ xs) ys = served-append xs ys
served-append (stops_group ∷ xs) ys = served-append xs ys

served-logged : (P : Type 0) (ms : List String) → served {P = P} (map logged ms) ≡ []
served-logged P [] = refl
served-logged P (m ∷ ms) = served-logged P ms

module _ (T : Telemetry) where
  open T use {
    F, File, Exporter, Resource, Client, Provider, create, new_stdout_exporter, new_resource,
    http_client, grpc_client, new_exporter,
  }

  -- The three servers, less those that are switched off or cannot be made.
  abbrev pub joining : (String → Bool) → List (String × String) → List (String × String)
  joining made [] = []
  joining made ((name, port) ∷ servers) =
      let rest = joining made servers in
      if not (port == "0") && made name then (name, port) ∷ rest else rest

  abbrev pub three_servers : AgentConfig F → List (String × String)
  three_servers conf =
      ("api", conf.api.port) ∷ ("webhook", conf.webhook.port) ∷ ("admin", conf.admin.port) ∷ []

  served-set_rate :
      (set : ℤ → Event Provider) (message : String) (n : ℤ)
      → ((k : ℤ) → served (set k ∷ []) ≡ [])
      → served (set_rate T set message n) ≡ []
  unfolding set_rate
  served-set_rate set message (pos zero) h = refl
  served-set_rate set message (pos (suc n)) h = h (pos (suc n))
  served-set_rate set message (negsuc n) h = h (negsuc n)

  served-rates : (conf : RuntimeConfig) → served (set_runtime_environment T conf) ≡ []
  unfolding set_runtime_environment
  served-rates conf =
      rw
        (
          set_runtime_environment,
          served-append,
          served-set_rate block_profile_rate _ conf.block_profile_rate (λ _. refl),
          served-set_rate mutex_profile_fraction _ conf.mutex_profile_fraction (λ _. refl),
        )
        refl

  pub served-readying : (conf : AgentConfig F) → served (readying T conf) ≡ []
  unfolding readying
  served-readying conf =
      rw
        (
          readying,
          served-append,
          served-logged Provider (log_config_warnings conf),
          served-rates conf.runtime,
        )
        refl

  served-listen :
      (name port : String) (made : Bool)
      → served (listen T name port made)
        ≡ (if not (port == "0") && made then (name, port) ∷ [] else [])
  unfolding listen
  served-listen name port made = ground arith

  pub served-serving :
      (o : Outside) (conf : AgentConfig F)
      → served (serving T o conf) ≡ joining o.made (three_servers conf)
  unfolding serving
  served-serving o conf =
      rw
        (
          serving,
          served-append,
          served-append,
          served-listen "api" conf.api.port (o.made "api"),
          served-listen "webhook" conf.webhook.port (o.made "webhook"),
          served-listen "admin" conf.admin.port (o.made "admin"),
        )
        (ground arith)

  pub served-init_logging :
      (is_level : String → Bool) (conf : LogConfig) → served (init_logging T is_level conf) ≡ []
  unfolding init_logging
  served-init_logging is_level conf = ground arith

  pub served-after_wait :
      (waited : Option String) → served {P = Provider} (after_wait T waited).0 ≡ []
  unfolding after_wait
  served-after_wait none = refl
  served-after_wait (some e) = refl
