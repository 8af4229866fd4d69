-- ===== src/Config.antt =====
-- config/config.go: the configuration of the agent.
pub mod Default
pub mod Warnings
mod Tests
use inspiring_vacations_agen.Common.{Bool, List, String, Option}
use inspiring_vacations_agen.Common.Dict.{Dict}
use inspiring_vacations_agen.Common.Int.{ℤ}
use inspiring_vacations_agen.Handlers.OAuth.{ClientConf}
use inspiring_vacations_agen.Handlers.Webhook.{WebhookProject}
use inspiring_vacations_agen.Server.{ServerConfig}
use inspiring_vacations_agen.Syncer.{SyncConfig}

-- `interface{}`, as it is decoded from YAML or JSON; a `null` is the nil value.
mutual
  pub data Value : Type 0 where
    null : Value
    text : String → Value
    number : ℤ → Value
    object : Object → Value

  pub data Object : Type 0 where
    end : Object
    entry : String → Value → Object → Object

pub record ServiceAuthConfig : Type 0 where
  pub clients : List ClientConf
  pub hmac_secrets : List String
  pub ttl : ℤ
  pub jwks_url : String
  pub jwks_update_interval : ℤ

-- A list is `none` where it is nil.
pub record CorsConfig : Type 0 where
  pub allowed_origins : Option (List String)
  pub allowed_methods : Option (List String)
  pub allowed_headers : List String
  pub exposed_headers : List String
  pub allowed_credentials : Bool
  pub max_age : ℤ

pub record ApiConfig : Type 0 where
  pub auth : ServiceAuthConfig
  pub cors : CorsConfig
  pub max_conns : ℤ
  pub port : String
  pub enable_notifications : Bool
  pub enable_overrides : Bool

pub record AdminConfig : Type 0 where
  pub auth : ServiceAuthConfig
  pub port : String
  pub metrics_type : String

pub record LogConfig : Type 0 where
  pub pretty : Bool
  pub include_sdk_key : Bool
  pub level : String

-- `F` is `float64`.
pub record TracingRemoteConfig (F : Type 0) : Type 0 where
  pub endpoint : String
  pub protocol : String
  pub sample_rate : F

-- `OTELTracingConfig` with its `Services`
pub record OtelTracingConfig (F : Type 0) : Type 0 where
  pub default_service : String
  pub service_name : String
  pub env : String
  pub filename : String
  pub remote : TracingRemoteConfig F

pub record TracingConfig (F : Type 0) : Type 0 where
  pub enabled : Bool
  pub open_telemetry : OtelTracingConfig F

pub record OdpConfig : Type 0 where
  pub disable : Bool
  pub events_request_timeout : ℤ
  pub events_flush_interval : ℤ
  pub segments_request_timeout : ℤ
  pub segments_cache : Dict String Value

pub record ClientConfig : Type 0 where
  pub polling_interval : ℤ
  pub batch_size : ℤ
  pub queue_size : ℤ
  pub flush_interval : ℤ
  pub datafile_url_template : String
  pub event_url : String
  pub sdk_key_regex : String
  pub user_profile_service : Dict String Value
  pub odp : OdpConfig

pub record RuntimeConfig : Type 0 where
  pub block_profile_rate : ℤ
  pub mutex_profile_fraction : ℤ

pub record WebhookConfig : Type 0 where
  pub port : String
  pub projects : Dict ℤ WebhookProject

pub record AgentConfig (F : Type 0) : Type 0 where
  pub version : String
  pub author : String
  pub name : String
  pub sdk_keys : List String
  pub admin : AdminConfig
  pub api : ApiConfig
  pub log : LogConfig
  pub tracing : TracingConfig F
  pub client : ClientConfig
  pub runtime : RuntimeConfig
  pub server : ServerConfig Value
  pub webhook : WebhookConfig
  pub synchronization : SyncConfig
