-- ===== src/Config/Sample.antt =====
-- Configurations for the examples, as config/config.go reads them from a file.
use balance_x.Common.Float.{Fixed}
use balance_x.Common.Dict.{Dict}
use balance_x.Config.{ServerConfig, ServiceConfig, Config}
use balance_x.Common.{String, List, false, []}
use balance_x.Common.Int.{pos}
use balance_x.Config.Defaults.{empty_check}

abbrev pub backend : String → ServerConfig
backend url = record {
  url = url;
  name = url;
  weight = pos 0;
  delay_ms = pos 0;
  health_check = empty_check;
}

-- A configuration file with nothing but these servers and services.
abbrev pub bare : List ServerConfig → Dict ServiceConfig → Config Fixed
bare servers services = record {
  settings = record {
    listen_port = pos 0;
    dashboard_port = pos 0;
    algorithm = "";
    health_interval = pos 7;
    breaker_threshold = pos 0;
    breaker_timeout_sec = pos 0;
    metrics_interval_sec = pos 0;
    max_retries = pos 0;
    shutdown_timeout_sec = pos 0;
    rate_limit_rps = pos 0;
    rate_limit_burst = pos 0;
    per_attempt_timeout_sec = pos 0;
    retry_backoff_ms = pos 0;
    retry_backoff_max_ms = pos 0;
    access_log_path = "";
    dashboard_auth = record { username = ""; password = "" };
    tls = record { enabled = false; cert_file = ""; key_file = ""; auto_generate = false };
    cors = record { allowed_origins = []; allowed_methods = []; allowed_headers = [] };
    hot_reload = false;
    timeouts = record { high_sec = pos 0; medium_sec = pos 0; low_sec = pos 0 };
  };
  servers = servers;
  middlewares = [];
  entry_points = [];
  routers = [];
  services = services;
}
