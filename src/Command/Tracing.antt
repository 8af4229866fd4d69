-- ===== src/Command/Tracing.antt =====
-- The tracing of cmd/optimizely/main.go.
use Prim.Native.String.{◌++◌}
use inspiring_vacations_agen.Common.{◌⊎◌, inl, inr, String, ◌==◌, if◌then◌else◌}
use inspiring_vacations_agen.Config.{OtelTracingConfig}

-- OpenTelemetry and `os.Create`; where they fail, the text of the error.
pub record Telemetry : Type 1 where
  pub F : Type 0
  pub File : Type 0
  pub Exporter : Type 0
  pub Resource : Type 0
  pub Client : Type 0
  pub Provider : Type 0
  pub create : String → File ⊎ String
  pub new_stdout_exporter : File → Exporter ⊎ String
  pub new_resource : (service_name env : String) → Resource ⊎ String
  pub http_client : String → Client
  pub grpc_client : String → Client
  pub new_exporter : Client → Exporter ⊎ String
  pub stdout_provider : Exporter → Resource → Provider
  pub remote_provider : F → Resource → Exporter → Provider

module _ (T : Telemetry) where
  open T use {
    F, Exporter, Resource, Client, Provider, create, new_stdout_exporter, new_resource, http_client,
    grpc_client, new_exporter, stdout_provider, remote_provider,
  }

  unfoldable pub get_std_out_trace_provider : OtelTracingConfig F → Provider ⊎ String
  get_std_out_trace_provider conf = elim (create conf.filename) [
    | inr e ↦ inr ("failed to create the trace file, error: " ++ e)
    | inl file ↦ elim (new_stdout_exporter file) [
      | inr e ↦ inr ("failed to create the collector exporter, error: " ++ e)
      | inl exporter ↦ elim (new_resource conf.service_name conf.env) [
        | inr e ↦ inr ("failed to create the otel resource, error: " ++ e)
        | inl res ↦ inl (stdout_provider exporter res)
      ]
    ]
  ]

  unfoldable pub get_otel_trace_client : OtelTracingConfig F → Client ⊎ String
  get_otel_trace_client conf =
      if conf.remote.protocol == "http"
      then inl (http_client conf.remote.endpoint)
      else if conf.remote.protocol == "grpc"
      then inl (grpc_client conf.remote.endpoint)
      else inr "unknown remote tracing protocal"

  unfoldable pub get_remote_trace_provider : OtelTracingConfig F → Provider ⊎ String
  unfolding get_otel_trace_client
  get_remote_trace_provider conf = elim (new_resource conf.service_name conf.env) [
    | inr e ↦ inr ("failed to create the otel resource, error: " ++ e)
    | inl res ↦ elim (get_otel_trace_client conf) [
      | inr e ↦ inr ("failed to create the remote trace client, error: " ++ e)
      | inl client ↦ elim (new_exporter client) [
        | inr e ↦ inr ("failed to create the remote trace exporter, error: " ++ e)
        | inl exporter ↦ inl (remote_provider conf.remote.sample_rate res exporter)
      ]
    ]
  ]

  unfoldable pub init_tracing : OtelTracingConfig F → Provider ⊎ String
  unfolding get_remote_trace_provider get_std_out_trace_provider
  init_tracing conf =
      if conf.default_service == "remote"
      then get_remote_trace_provider conf
      else if conf.default_service == "stdout"
      then get_std_out_trace_provider conf
      else inr "unknown tracing service type"
