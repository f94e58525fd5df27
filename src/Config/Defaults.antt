-- ===== src/Config/Defaults.antt =====
-- `setDefaults` of config/config.go. The directory that it creates for the access log is left out.
-- `port_text` is the text of a port, as in ":8080".
use balance_x.Common.{
  zero, false, String, List, [], ◌∷◌, map, Option, none, some, str_eq, if◌then◌else◌,
}
use balance_x.Common.Dict.{Dict}
use balance_x.Common.Int.{ℤ, pos}
use balance_x.Common.Float.{Float64}
use balance_x.Config.{
  HealthCheckConfig, CircuitBreakerConfig, ServerConfig, ServiceConfig, TimeoutConfig, Settings,
  EntryPointConfig, Config,
}

-- `if x == 0 { x = d }`, for an integer, a text and a float.
unfoldable pub int_or : ℤ → ℤ → ℤ
int_or (pos zero) d = d
int_or x d = x

unfoldable pub text_or : String → String → String
text_or x d = if str_eq x "" then d else x

unfoldable pub float_or : {F : Type 0} ⦃fl : Float64 F⦄ → F → F → F
float_or ⦃fl⦄ x d = if fl.is_zero x then d else x

unfoldable pub default_timeouts : TimeoutConfig → TimeoutConfig
default_timeouts t = record {
  high_sec = int_or t.high_sec (pos 5);
  medium_sec = int_or t.medium_sec (pos 10);
  low_sec = int_or t.low_sec (pos 20);
}

unfoldable pub default_settings : {F : Type 0} ⦃fl : Float64 F⦄ → Settings F → Settings F
default_settings ⦃fl⦄ c = record c {
  listen_port = int_or c.listen_port (pos 8080);
  dashboard_port = int_or c.dashboard_port (pos 8081);
  health_interval = int_or c.health_interval (pos 5);
  breaker_threshold = int_or c.breaker_threshold (pos 3);
  breaker_timeout_sec = int_or c.breaker_timeout_sec (pos 15);
  metrics_interval_sec = int_or c.metrics_interval_sec (pos 10);
  algorithm = text_or c.algorithm "weighted";
  max_retries = int_or c.max_retries (pos 3);
  shutdown_timeout_sec = int_or c.shutdown_timeout_sec (pos 15);
  rate_limit_rps = float_or c.rate_limit_rps (fl.of_int (pos 100));
  rate_limit_burst = int_or c.rate_limit_burst (pos 200);
  per_attempt_timeout_sec = int_or c.per_attempt_timeout_sec (pos 5);
  retry_backoff_ms = int_or c.retry_backoff_ms (pos 100);
  retry_backoff_max_ms = int_or c.retry_backoff_max_ms (pos 5000);
  access_log_path = text_or c.access_log_path "access.log";
  timeouts = default_timeouts c.timeouts;
}

-- A health check with the gaps filled: from the global interval, or from the service's check.
unfoldable pub fill_check : HealthCheckConfig → HealthCheckConfig → HealthCheckConfig
fill_check h d = record {
  path = text_or h.path d.path;
  interval_sec = int_or h.interval_sec d.interval_sec;
  timeout_sec = int_or h.timeout_sec d.timeout_sec;
  expected_status = int_or h.expected_status d.expected_status;
}

abbrev pub standard_check : ℤ → HealthCheckConfig
standard_check interval = record {
  path = "/health";
  interval_sec = interval;
  timeout_sec = pos 2;
  expected_status = pos 200;
}

-- The loop over the flat list of servers.
unfoldable pub default_server_check : ℤ → ServerConfig → ServerConfig
default_server_check interval s = record s {
  health_check = fill_check s.health_check (standard_check interval);
}

abbrev pub empty_check : HealthCheckConfig
empty_check = record {
  path = "";
  interval_sec = pos 0;
  timeout_sec = pos 0;
  expected_status = pos 0;
}

abbrev pub or_else {ℓ} : {A : Type ℓ} → Option A → A → A
or_else (some a) d = a
or_else none d = d

-- The loop over the servers of a service whose health check is `h`.
unfoldable pub default_service_server : HealthCheckConfig → ServerConfig → ServerConfig
default_service_server h s = record s {
  weight = int_or s.weight (pos 1);
  health_check = fill_check s.health_check h;
}

unfoldable pub default_breaker :
    {F : Type 0} → Settings F → CircuitBreakerConfig → CircuitBreakerConfig
default_breaker c b = record {
  threshold = int_or b.threshold c.breaker_threshold;
  recovery_timeout_sec = int_or b.recovery_timeout_sec c.breaker_timeout_sec;
}

unfoldable pub default_service : {F : Type 0} → Settings F → ServiceConfig → ServiceConfig
default_service c svc =
    let h = fill_check (or_else svc.health_check empty_check) (standard_check c.health_interval) in
    let b =
      or_else svc.circuit_breaker (record { threshold = pos 0; recovery_timeout_sec = pos 0 }) in
    let l = or_else svc.load_balancer (record { algorithm = ""; sticky = false }) in
    record svc {
      health_check = some h;
      circuit_breaker = some (default_breaker c b);
      load_balancer = some (record l { algorithm = text_or l.algorithm c.algorithm });
      servers = map (default_service_server h) svc.servers;
    }

abbrev pub map_values {ℓ} : {V : Type ℓ} → (V → V) → Dict V → Dict V
map_values f [] = []
map_values f ((k, v) ∷ m) = (k, f v) ∷ map_values f m

-- The service that stands in for the flat list of servers.
abbrev pub implicit_service : List ServerConfig → ServiceConfig
implicit_service ss = record {
  load_balancer = none;
  health_check = none;
  circuit_breaker = none;
  canary = false;
  servers = ss;
}

-- The service "default" shares its list of servers with the flat list, so that the defaults of the
-- one show in the other.
unfoldable pub fill_services :
    {F : Type 0}
    → Settings F
    → List ServerConfig
    → Dict ServiceConfig
    → List ServerConfig × Dict ServiceConfig
fill_services c [] [] = ([], [])
fill_services c (s ∷ ss) [] =
    let svc = default_service c (implicit_service (s ∷ ss)) in (svc.servers, ("default", svc) ∷ [])
fill_services c ss (kv ∷ m) = (ss, map_values (default_service c) (kv ∷ m))

-- Entry points made from the two ports.
unfoldable pub legacy_entry_points :
    {F : Type 0} → (ℤ → String) → Settings F → Dict EntryPointConfig
legacy_entry_points port_text c =
    (
      "web",
      record {
        address = port_text c.listen_port;
        protocol = if c.tls.enabled then "https" else "http";
        middlewares = [];
        tls = if c.tls.enabled then some c.tls else none;
      },
    )
    ∷ (
      "dashboard",
      record {
        address = port_text c.dashboard_port;
        protocol = "http";
        middlewares = [];
        tls = none;
      },
    )
    ∷ []

unfoldable pub default_protocol : EntryPointConfig → EntryPointConfig
default_protocol ep = record ep { protocol = text_or ep.protocol "http" }

unfoldable pub fill_entry_points :
    {F : Type 0} → (ℤ → String) → Settings F → Dict EntryPointConfig → Dict EntryPointConfig
unfolding legacy_entry_points default_protocol
fill_entry_points port_text c [] = map_values default_protocol (legacy_entry_points port_text c)
fill_entry_points port_text c (kv ∷ m) = map_values default_protocol (kv ∷ m)

unfoldable pub set_defaults : {F : Type 0} ⦃fl : Float64 F⦄ → (ℤ → String) → Config F → Config F
set_defaults port_text c =
    let settings = default_settings c.settings in
    let servers = map (default_server_check settings.health_interval) c.servers in
    let (servers', services') = fill_services settings servers c.services in
    record c {
      settings = settings;
      servers = servers';
      services = services';
      entry_points = fill_entry_points port_text settings c.entry_points;
    }
