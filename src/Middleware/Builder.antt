-- ===== src/Middleware/Builder.antt =====
-- `Builder` of internal/middleware/middleware.go. A middleware that the builder makes is described by
-- the call that makes it. `Decoder` is `json.Unmarshal` into the settings of each type, a parameter:
-- it yields the settings, with the zero value for a key that the JSON lacks, or an error's text.
pub mod Cached
pub mod Shared
pub mod Blank
mod Examples
use balance_x.Config.Defaults.{int_or, float_or, text_or}
use balance_x.Common.Float.{Float64}
use balance_x.Common.{
  some, none, String, List, ◌⊎◌, inl, inr, ◌∷◌, if◌then◌else◌, str_eq, [], some, ℕ, ◌+◌,
}
use balance_x.Common.Dict.{Dict, lookup, insert}
use balance_x.Common.Int.{ℤ, pos, eq_ℤ}
use balance_x.Config.{Config, Settings, MiddlewareConfig, CorsConfig, TimeoutConfig}
use balance_x.Middleware.Cors.{CorsPolicy, default_cors_config}

-- A middleware, by the function that makes it and its arguments.
pub data Built (F : Type 0) : Type 0 where
  rate_limit : F → ℤ → Built F
  basic_auth : String → String → Built F
  retry : ℤ → ℤ → Built F
  access_log : String → Built F
  request_headers : Built F
  priority_timeout : ℤ → ℤ → ℤ → Built F
  circuit_breaker : Built F
  cors : CorsPolicy → Built F

pub data BuildError : Type 0 where
  -- The type, the name of the middleware and the error of the decoder.
  parsing : String → String → String → BuildError
  unknown_type : String → String → BuildError
  unknown_legacy : String → BuildError
  -- The wrapping that `BuildChain` adds.
  building : String → BuildError → BuildError
  -- That of `ResolveMiddlewares`.
  failed_to_build : String → BuildError → BuildError

pub data Outcome (A : Type 0) : Type 0 where
  success : A → Outcome A
  failure : BuildError → Outcome A

pub data Decoded (A : Type 0) : Type 0 where
  settings_of : A → Decoded A
  malformed : String → Decoded A

pub record RateLimitSettings (F : Type 0) : Type 0 where
  pub requests_per_second : F
  pub burst : ℤ

pub record AuthSettings : Type 0 where
  pub username : String
  pub password : String

pub record RetrySettings : Type 0 where
  pub attempts : ℤ
  pub initial_interval_ms : ℤ

pub record BreakerSettings : Type 0 where
  pub threshold : ℤ
  pub recovery_timeout_sec : ℤ

pub record Decoder (F : Type 0) : Type 0 where
  pub to_rate_limit : String → Decoded (RateLimitSettings F)
  pub to_auth : String → Decoded AuthSettings
  pub to_retry : String → Decoded RetrySettings
  pub to_access_log : String → Decoded String
  pub to_timeout : String → Decoded TimeoutConfig
  pub to_breaker : String → Decoded BreakerSettings
  pub to_cors : String → Decoded CorsConfig

abbrev pub with_settings : {A B : Type 0} → String → String → (A → B) → Decoded A → Outcome B
with_settings kind name f (settings_of a) = success (f a)
with_settings kind name f (malformed e) = failure (parsing kind name e)

unfoldable pub list_or : List String → List String → List String
list_or [] d = d
list_or (x ∷ xs) d = x ∷ xs

-- The default policy with the lists that are not empty.
unfoldable pub cors_policy : CorsConfig → CorsPolicy
unfolding default_cors_config list_or
cors_policy c = record default_cors_config {
  allowed_origins = list_or c.allowed_origins default_cors_config.allowed_origins;
  allowed_methods = list_or c.allowed_methods default_cors_config.allowed_methods;
  allowed_headers = list_or c.allowed_headers default_cors_config.allowed_headers;
}

module _ {F : Type 0} ⦃fl : Float64 F⦄ (decoder : Decoder F) where
  unfoldable pub build_from_config : Config F → String → MiddlewareConfig → Outcome (Built F)
  unfolding int_or float_or text_or cors_policy
  build_from_config cfg name mw_cfg =
      if str_eq mw_cfg.kind "rateLimit"
      then with_settings "rateLimit" name
          (λ c.
            rate_limit (float_or c.requests_per_second cfg.rate_limit_rps)
              (int_or c.burst cfg.rate_limit_burst))
          (decoder.to_rate_limit mw_cfg.settings)
      else if str_eq mw_cfg.kind "basicAuth"
      then with_settings "basicAuth" name (λ c. basic_auth c.username c.password)
          (decoder.to_auth mw_cfg.settings)
      else if str_eq mw_cfg.kind "retry"
      then with_settings "retry" name
          (λ c.
            retry (int_or c.attempts cfg.max_retries)
              (int_or c.initial_interval_ms cfg.retry_backoff_ms))
          (decoder.to_retry mw_cfg.settings)
      else if str_eq mw_cfg.kind "accessLog"
      then with_settings "accessLog" name (λ path. access_log (text_or path cfg.access_log_path))
          (decoder.to_access_log mw_cfg.settings)
      else if str_eq mw_cfg.kind "headers"
      then success request_headers
      else if str_eq mw_cfg.kind "timeout"
      then with_settings "timeout" name
          (λ c.
            priority_timeout (int_or c.high_sec cfg.timeouts.high_sec)
              (int_or c.medium_sec cfg.timeouts.medium_sec) (int_or c.low_sec cfg.timeouts.low_sec))
          (decoder.to_timeout mw_cfg.settings)
      else if str_eq mw_cfg.kind "circuitBreaker"
      then with_settings "circuitBreaker" name (λ c. circuit_breaker)
          (decoder.to_breaker mw_cfg.settings)
      else if str_eq mw_cfg.kind "cors"
      then with_settings "cors" name (λ c. cors (cors_policy c)) (decoder.to_cors mw_cfg.settings)
      else failure (unknown_type mw_cfg.kind name)

  unfoldable pub build_legacy : Config F → String → Outcome (Built F)
  unfolding cors_policy
  build_legacy cfg name =
      if str_eq name "rate-limit"
      then success (rate_limit cfg.rate_limit_rps cfg.rate_limit_burst)
      else if str_eq name "headers"
      then success request_headers
      else if str_eq name "cors"
      then success (cors (cors_policy cfg.cors))
      else if str_eq name "basic-auth"
      then success (basic_auth cfg.dashboard_auth.username cfg.dashboard_auth.password)
      else if str_eq name "access-log"
      then success (access_log cfg.access_log_path)
      else if str_eq name "retry"
      then success (retry cfg.max_retries cfg.retry_backoff_ms)
      else if str_eq name "timeout"
      then success
          (priority_timeout cfg.timeouts.high_sec cfg.timeouts.medium_sec cfg.timeouts.low_sec)
      else failure (unknown_legacy name)

  -- What `Build` does for a name that the cache lacks.
  unfoldable pub make : Config F → String → Outcome (Built F)
  unfolding build_from_config build_legacy
  make cfg name = elim (lookup name cfg.middlewares) [
    | some mw_cfg ↦ build_from_config cfg name mw_cfg
    | none ↦ build_legacy cfg name
  ]

-- A middleware that was made: the number of its making in this builder, which tells it from any other,
-- even one made by the same call, and the call.
pub record Made (F : Type 0) : Type 0 where
  pub serial : ℕ
  pub call : Built F

-- `made` counts the middlewares made; the code tells them apart by their addresses.
pub record Builder (F : Type 0) : Type 0 where
  pub cfg : Config F
  pub cache : Dict (Made F)
  pub made : ℕ

unfoldable pub new_builder : {F : Type 0} → Config F → Builder F
new_builder cfg = record { cfg = cfg; cache = []; made = 0 }

unfoldable pub keep :
    {F : Type 0} → String → Builder F → Outcome (Built F) → Outcome (Made F) × Builder F
keep {F} name b (success call) =
    let m : Made F = record { serial = b.made; call = call } in
    (success m, record b { cache = insert name m b.cache; made = b.made + 1 })
keep name b (failure e) = (failure e, b)

module _ {F : Type 0} ⦃fl : Float64 F⦄ (decoder : Decoder F) where
  unfoldable pub build : String → Builder F → Outcome (Made F) × Builder F
  unfolding make keep
  build name b = elim (lookup name b.cache) [
    | some m ↦ (success m, b)
    | none ↦ keep name b (make decoder b.cfg name)
  ]

abbrev pub add_first : {A : Type 0} → A → Outcome (List A) → Outcome (List A)
add_first a (success rest) = success (a ∷ rest)
add_first a (failure e) = failure e

-- The step of the loop: what became of this name, and of the names after it.
abbrev pub join_built :
    {F : Type 0}
    → (BuildError → BuildError)
    → Outcome (Made F) × Builder F
    → Outcome (List (Made F)) × Builder F
    → Outcome (List (Made F)) × Builder F
join_built wrap (failure e, b) rest = (failure (wrap e), b)
join_built wrap (success m, b) rest = (add_first m rest.0, rest.1)

module _ {F : Type 0} ⦃fl : Float64 F⦄ (decoder : Decoder F) where
  -- The loop of `BuildChain`; `wrap` makes the error that names the middleware.
  unfoldable pub build_all :
      (String → BuildError → BuildError)
      → List String
      → Builder F
      → Outcome (List (Made F)) × Builder F
  unfolding build
  build_all wrap [] b = (success [], b)
  build_all wrap (name ∷ names) b =
      let r = build decoder name b in
      let rest = build_all wrap names r.1 in join_built (wrap name) r rest

  unfoldable pub build_chain : List String → Builder F → Outcome (List (Made F)) × Builder F
  unfolding build_all
  build_chain names b = build_all building names b
