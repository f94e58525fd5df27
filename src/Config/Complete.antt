-- ===== src/Config/Complete.antt =====
-- `setDefaults` of config/config.go leaves no gap: what it fills is set afterwards.
use balance_x.Common.Dict.{Dict, AllValues}
use balance_x.Common.Float.{Float64}
use balance_x.Config.{
  Settings, Config, ServerConfig, HealthCheckConfig, ServiceConfig, CircuitBreakerConfig,
  LoadBalancerConfig, EntryPointConfig,
}
use balance_x.Common.{
  zero, suc, ◌≡◌, ◌≢◌, false, String, arith, str_eq, ℕ, List, All, map, [], some, ◌∷◌, refl, ◌⊎◌,
  ap, inl, Bool-cases, inr,
}
use balance_x.Common.Int.{ℤ, pos, negsuc}
use balance_x.Config.Defaults.{
  int_or, text_or, fill_check, default_server_check, default_settings, default_service,
  standard_check, default_service_server, default_timeouts, default_breaker, or_else, empty_check,
  map_values, fill_services, fill_entry_points, set_defaults, implicit_service, default_protocol,
  legacy_entry_points, float_or,
}

abbrev pub IsNonzero : ℤ → Type 0
IsNonzero x = x ≢ pos 0

abbrev pub IsGiven : String → Type 0
IsGiven s = str_eq s "" ≡ false

int_or-ne-zero : (x d : ℤ) → d ≢ pos 0 → int_or x d ≢ pos 0
unfolding int_or
int_or-ne-zero (pos zero) d h = h
int_or-ne-zero (pos (suc n)) d h = λ e. cc e
int_or-ne-zero (negsuc n) d h = λ e. cc e

text_or-IsGiven : (s d : String) → IsGiven d → IsGiven (text_or s d)
unfolding text_or
text_or-IsGiven s d h = ground arith

int_or-IsNonzero : (x d : ℤ) → IsNonzero d → IsNonzero (int_or x d)
int_or-IsNonzero = int_or-ne-zero

literal-IsNonzero : (n : ℕ) → IsNonzero (pos (suc n))
literal-IsNonzero n e = cc e

pub record IsFullCheck (h : HealthCheckConfig) : Type 0 where
  pub path_given : IsGiven h.path
  pub interval_set : IsNonzero h.interval_sec
  pub timeout_set : IsNonzero h.timeout_sec
  pub status_set : IsNonzero h.expected_status

pub record IsFullSettings {F : Type 0} (c : Settings F) : Type 0 where
  pub listen_port_set : IsNonzero c.listen_port
  pub dashboard_port_set : IsNonzero c.dashboard_port
  pub algorithm_given : IsGiven c.algorithm
  pub health_interval_set : IsNonzero c.health_interval
  pub breaker_threshold_set : IsNonzero c.breaker_threshold
  pub breaker_timeout_set : IsNonzero c.breaker_timeout_sec
  pub max_retries_set : IsNonzero c.max_retries
  pub backoff_set : IsNonzero c.retry_backoff_ms
  pub attempt_timeout_set : IsNonzero c.per_attempt_timeout_sec
  pub high_set : IsNonzero c.timeouts.high_sec
  pub medium_set : IsNonzero c.timeouts.medium_sec
  pub low_set : IsNonzero c.timeouts.low_sec
  pub metrics_interval_set : IsNonzero c.metrics_interval_sec
  pub shutdown_timeout_set : IsNonzero c.shutdown_timeout_sec
  pub burst_set : IsNonzero c.rate_limit_burst
  pub backoff_max_set : IsNonzero c.retry_backoff_max_ms
  pub log_path_given : IsGiven c.access_log_path

abbrev pub IsFullServer : ServerConfig → Type 0
IsFullServer s = IsNonzero s.weight × IsFullCheck s.health_check

-- A service with its three blocks there and full, and all its servers full.
abbrev pub IsFullService : ServiceConfig → Type 0
IsFullService svc =
    (h : HealthCheckConfig) × (b : CircuitBreakerConfig) × (l : LoadBalancerConfig)
    × (svc.health_check ≡ some h)
    × IsFullCheck h
    × (svc.circuit_breaker ≡ some b)
    × IsNonzero b.threshold
    × IsNonzero b.recovery_timeout_sec
    × (svc.load_balancer ≡ some l)
    × IsGiven l.algorithm
    × All IsFullServer svc.servers

-- A rate that is not zero, or the default.
abbrev pub IsRate : {F : Type 0} ⦃fl : Float64 F⦄ → F → Type 0
IsRate ⦃fl⦄ x = (fl.is_zero x ≡ false) ⊎ (x ≡ fl.of_int (pos 100))

float_or-IsRate : {F : Type 0} ⦃fl : Float64 F⦄ (x : F) → IsRate (float_or x (fl.of_int (pos 100)))
unfolding float_or
float_or-IsRate ⦃fl⦄ x = elim (Bool-cases (fl.is_zero x)) [
  | inl e ↦ inr (rw e refl)
  | inr e ↦ inl (rw e e)
]

-- The flat servers of a configuration whose services were `given`: they are those of the one service
-- "default" when none was given and there is a flat server; services that were given stay.
abbrev pub ServesFlat : Dict ServiceConfig → List ServerConfig → Dict ServiceConfig → Type 0
ServesFlat [] servers services =
    ((servers ≡ []) × (services ≡ []))
    ⊎ ((svc : ServiceConfig) × (services ≡ ("default", svc) ∷ [])
        × (svc.servers ≡ servers)
        × (servers ≢ []))
ServesFlat (kv ∷ m) servers services = map (λ s. s.0) services ≡ map (λ s. s.0) (kv ∷ m)

pub record IsComplete {F : Type 0} ⦃fl : Float64 F⦄ (c : Config F) : Type 0 where
  pub rate_set : IsRate c.rate_limit_rps
  pub settings_full : IsFullSettings c.settings
  pub servers_checked : All (λ s. IsFullCheck s.health_check) c.servers
  pub services_full : AllValues IsFullService c.services
  pub some_entry_point : c.entry_points ≢ []
  pub protocols_given : AllValues (λ ep. IsGiven ep.protocol) c.entry_points

default_settings-IsFullSettings :
    {F : Type 0} ⦃fl : Float64 F⦄ (c : Settings F) → IsFullSettings (default_settings c)
unfolding default_settings default_timeouts
default_settings-IsFullSettings c = record {
  listen_port_set = int_or-IsNonzero _ _ (literal-IsNonzero 8079);
  dashboard_port_set = int_or-IsNonzero _ _ (literal-IsNonzero 8080);
  algorithm_given = text_or-IsGiven _ _ refl;
  health_interval_set = int_or-IsNonzero _ _ (literal-IsNonzero 4);
  breaker_threshold_set = int_or-IsNonzero _ _ (literal-IsNonzero 2);
  breaker_timeout_set = int_or-IsNonzero _ _ (literal-IsNonzero 14);
  max_retries_set = int_or-IsNonzero _ _ (literal-IsNonzero 2);
  backoff_set = int_or-IsNonzero _ _ (literal-IsNonzero 99);
  attempt_timeout_set = int_or-IsNonzero _ _ (literal-IsNonzero 4);
  high_set = int_or-IsNonzero _ _ (literal-IsNonzero 4);
  medium_set = int_or-IsNonzero _ _ (literal-IsNonzero 9);
  low_set = int_or-IsNonzero _ _ (literal-IsNonzero 19);
  metrics_interval_set = int_or-IsNonzero _ _ (literal-IsNonzero 9);
  shutdown_timeout_set = int_or-IsNonzero _ _ (literal-IsNonzero 14);
  burst_set = int_or-IsNonzero _ _ (literal-IsNonzero 199);
  backoff_max_set = int_or-IsNonzero _ _ (literal-IsNonzero 4999);
  log_path_given = text_or-IsGiven _ _ refl;
}

fill_check-IsFullCheck : (h d : HealthCheckConfig) → IsFullCheck d → IsFullCheck (fill_check h d)
unfolding fill_check
fill_check-IsFullCheck h d v = record {
  path_given = text_or-IsGiven h.path d.path v.path_given;
  interval_set = int_or-IsNonzero h.interval_sec d.interval_sec v.interval_set;
  timeout_set = int_or-IsNonzero h.timeout_sec d.timeout_sec v.timeout_set;
  status_set = int_or-IsNonzero h.expected_status d.expected_status v.status_set;
}

standard-IsFullCheck : (n : ℤ) → IsNonzero n → IsFullCheck (standard_check n)
standard-IsFullCheck n h = record {
  path_given = refl;
  interval_set = h;
  timeout_set = literal-IsNonzero 1;
  status_set = literal-IsNonzero 199;
}

default_servers-IsFullCheck :
    (n : ℤ) (ss : List ServerConfig)
    → IsNonzero n
    → All (λ s. IsFullCheck s.health_check) (map (default_server_check n) ss)
unfolding default_server_check
default_servers-IsFullCheck n [] h = tt
default_servers-IsFullCheck n (s ∷ ss) h = (
  fill_check-IsFullCheck s.health_check (standard_check n) (standard-IsFullCheck n h),
  default_servers-IsFullCheck n ss h,
)

default_service_servers-IsFullServer :
    (h : HealthCheckConfig) (ss : List ServerConfig)
    → IsFullCheck h
    → All IsFullServer (map (default_service_server h) ss)
unfolding default_service_server
default_service_servers-IsFullServer h [] v = tt
default_service_servers-IsFullServer h (s ∷ ss) v = (
  (
    int_or-IsNonzero s.weight (pos 1) (literal-IsNonzero 0),
    fill_check-IsFullCheck s.health_check h v,
  ),
  default_service_servers-IsFullServer h ss v,
)

default_service-IsFullService :
    {F : Type 0} (c : Settings F) (svc : ServiceConfig)
    → IsFullSettings c
    → IsFullService (default_service c svc)
unfolding default_service default_breaker
default_service-IsFullService c svc v =
    let full =
      fill_check-IsFullCheck (or_else svc.health_check empty_check)
        (standard_check c.health_interval)
        (standard-IsFullCheck c.health_interval v.health_interval_set) in
    (
      _,
      _,
      _,
      refl,
      full,
      refl,
      int_or-IsNonzero _ _ v.breaker_threshold_set,
      int_or-IsNonzero _ _ v.breaker_timeout_set,
      refl,
      text_or-IsGiven _ _ v.algorithm_given,
      default_service_servers-IsFullServer _ svc.servers full,
    )

map_values-AllValues :
    {V : Type 0} (P : V → Type 0) (f : V → V) (m : Dict V)
    → ((v : V) → P (f v))
    → AllValues P (map_values f m)
map_values-AllValues P f [] h = tt
map_values-AllValues P f ((k, v) ∷ m) h = (h v, map_values-AllValues P f m h)

fill_services-full :
    {F : Type 0} (c : Settings F) (ss : List ServerConfig) (m : Dict ServiceConfig)
    → IsFullSettings c
    → AllValues IsFullService (fill_services c ss m).1
unfolding fill_services
fill_services-full c [] [] v = tt
fill_services-full c (s ∷ ss) [] v = (default_service-IsFullService c _ v, tt)
fill_services-full c [] (kv ∷ m) v =
    map_values-AllValues IsFullService (default_service c) (kv ∷ m)
      (λ svc. default_service-IsFullService c svc v)
fill_services-full c (s ∷ ss) (kv ∷ m) v =
    map_values-AllValues IsFullService (default_service c) (kv ∷ m)
      (λ svc. default_service-IsFullService c svc v)

IsFullServer-IsFullCheck :
    (ss : List ServerConfig) → All IsFullServer ss → All (λ s. IsFullCheck s.health_check) ss
IsFullServer-IsFullCheck [] h = tt
IsFullServer-IsFullCheck (s ∷ ss) h = (h.0.1, IsFullServer-IsFullCheck ss h.1)

default_service-servers :
    {F : Type 0} (c : Settings F) (svc : ServiceConfig)
    → IsFullSettings c
    → All IsFullServer (default_service c svc).servers
unfolding default_service
default_service-servers c svc v = default_service_servers-IsFullServer _ svc.servers (
    fill_check-IsFullCheck (or_else svc.health_check empty_check) (standard_check c.health_interval)
      (standard-IsFullCheck c.health_interval v.health_interval_set))

fill_services-checked :
    {F : Type 0} (c : Settings F) (ss : List ServerConfig) (m : Dict ServiceConfig)
    → IsFullSettings c
    → All (λ s. IsFullCheck s.health_check) ss
    → All (λ s. IsFullCheck s.health_check) (fill_services c ss m).0
unfolding fill_services
fill_services-checked c [] [] v h = h
fill_services-checked c (s ∷ ss) [] v h =
    IsFullServer-IsFullCheck (default_service c (implicit_service (s ∷ ss))).servers
      (default_service-servers c (implicit_service (s ∷ ss)) v)
fill_services-checked c [] (kv ∷ m) v h = h
fill_services-checked c (s ∷ ss) ((k, w) ∷ m) v h = h

map_values-keys :
    {V : Type 0} (f : V → V) (m : Dict V)
    → map {B = String} (λ kv. kv.0) (map_values f m) ≡ map (λ kv. kv.0) m
map_values-keys f [] = refl
map_values-keys f ((k, v) ∷ m) = ap (λ ks. k ∷ ks) (map_values-keys f m)

fill_services-ServesFlat :
    {F : Type 0} (c : Settings F) (n : ℤ) (ss : List ServerConfig) (m : Dict ServiceConfig)
    → let r = fill_services c (map (default_server_check n) ss) m in ServesFlat m r.0 r.1
unfolding fill_services default_service
fill_services-ServesFlat c n [] [] = inl (refl, refl)
fill_services-ServesFlat c n (s ∷ ss) [] = inr (_, refl, refl, λ e. cc e)
fill_services-ServesFlat c n [] (kv ∷ m) = map_values-keys (default_service c) (kv ∷ m)
fill_services-ServesFlat c n (s ∷ ss) (kv ∷ m) = map_values-keys (default_service c) (kv ∷ m)

default_protocol-IsGiven : (ep : EntryPointConfig) → IsGiven (default_protocol ep).protocol
unfolding default_protocol
default_protocol-IsGiven ep = text_or-IsGiven ep.protocol "http" refl

fill_entry_points-full :
    {F : Type 0} (port_text : ℤ → String) (c : Settings F) (m : Dict EntryPointConfig)
    → (fill_entry_points port_text c m ≢ [])
      × AllValues (λ ep. IsGiven ep.protocol) (fill_entry_points port_text c m)
unfolding fill_entry_points
fill_entry_points-full port_text c [] = (
  (λ e. cc),
  map_values-AllValues (λ ep. IsGiven ep.protocol) default_protocol
      (legacy_entry_points port_text c) default_protocol-IsGiven,
)
fill_entry_points-full port_text c ((k, ep) ∷ m) = (
  (λ e. cc),
  map_values-AllValues (λ ep. IsGiven ep.protocol) default_protocol ((k, ep) ∷ m)
      default_protocol-IsGiven,
)

pub set_defaults-IsComplete :
    {F : Type 0} ⦃fl : Float64 F⦄ (port_text : ℤ → String) (c : Config F)
    → let filled = set_defaults port_text c in
      IsComplete filled × ServesFlat c.services filled.servers filled.services
unfolding set_defaults default_settings
set_defaults-IsComplete {F} port_text c = (
  record {
    rate_set = float_or-IsRate c.rate_limit_rps;
    settings_full = full;
    servers_checked =
        fill_services-checked s servers c.services full
          (default_servers-IsFullCheck s.health_interval c.servers full.health_interval_set);
    services_full = fill_services-full s servers c.services full;
    some_entry_point = (fill_entry_points-full port_text s c.entry_points).0;
    protocols_given = (fill_entry_points-full port_text s c.entry_points).1;
  },
  fill_services-ServesFlat s s.health_interval c.servers c.services,
)
  where
    s : Settings F
    s = default_settings c.settings

    full : IsFullSettings s
    full = default_settings-IsFullSettings c.settings

    servers : List ServerConfig
    servers = map (default_server_check s.health_interval) c.servers
