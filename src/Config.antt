-- ===== src/Config.antt =====
-- config/config.go: the data. A Go `int` is an integer, a pointer that may be nil an `Option`, a map
-- a dictionary whose values are there (at a JSON null `setDefaults` panics); the JSON of a middleware's own settings is kept as its text.
pub mod Defaults
pub mod Idempotent
pub mod Complete
pub mod Validate
pub mod Sample
mod Examples
use balance_x.Common.{Bool, String, List, Option}
use balance_x.Common.Dict.{Dict}
use balance_x.Common.Int.{ℤ}

pub record HealthCheckConfig : Type 0 where
  pub path : String
  pub interval_sec : ℤ
  pub timeout_sec : ℤ
  pub expected_status : ℤ

pub record CircuitBreakerConfig : Type 0 where
  pub threshold : ℤ
  pub recovery_timeout_sec : ℤ

pub record LoadBalancerConfig : Type 0 where
  pub algorithm : String
  pub sticky : Bool

pub record ServerConfig : Type 0 where
  pub url : String
  pub name : String
  pub weight : ℤ
  pub delay_ms : ℤ
  pub health_check : HealthCheckConfig

pub record RouterConfig : Type 0 where
  pub rule : String
  pub priority : ℤ
  pub middlewares : List String
  pub service : String

pub record ServiceConfig : Type 0 where
  pub load_balancer : Option LoadBalancerConfig
  pub health_check : Option HealthCheckConfig
  pub circuit_breaker : Option CircuitBreakerConfig
  pub canary : Bool
  pub servers : List ServerConfig

pub record DashboardAuth : Type 0 where
  pub username : String
  pub password : String

pub record MiddlewareConfig : Type 0 where
  pub kind : String
  pub settings : String

pub record TimeoutConfig : Type 0 where
  pub high_sec : ℤ
  pub medium_sec : ℤ
  pub low_sec : ℤ

pub record TlsConfig : Type 0 where
  pub enabled : Bool
  pub cert_file : String
  pub key_file : String
  pub auto_generate : Bool

pub record EntryPointConfig : Type 0 where
  pub address : String
  pub protocol : String
  pub middlewares : List String
  pub tls : Option TlsConfig

pub record CorsConfig : Type 0 where
  pub allowed_origins : List String
  pub allowed_methods : List String
  pub allowed_headers : List String

-- The settings that hold one value each.
pub record Settings (F : Type 0) : Type 0 where
  pub listen_port : ℤ
  pub dashboard_port : ℤ
  pub algorithm : String
  pub health_interval : ℤ
  pub breaker_threshold : ℤ
  pub breaker_timeout_sec : ℤ
  pub metrics_interval_sec : ℤ
  pub max_retries : ℤ
  pub shutdown_timeout_sec : ℤ
  pub rate_limit_rps : F
  pub rate_limit_burst : ℤ
  pub per_attempt_timeout_sec : ℤ
  pub retry_backoff_ms : ℤ
  pub retry_backoff_max_ms : ℤ
  pub access_log_path : String
  pub dashboard_auth : DashboardAuth
  pub tls : TlsConfig
  pub cors : CorsConfig
  pub hot_reload : Bool
  pub timeouts : TimeoutConfig

pub record Config (F : Type 0) : Type 0 where
  pub settings : Settings F
  pub open settings use *
  pub servers : List ServerConfig
  pub middlewares : Dict MiddlewareConfig
  pub entry_points : Dict EntryPointConfig
  pub routers : Dict RouterConfig
  pub services : Dict ServiceConfig
