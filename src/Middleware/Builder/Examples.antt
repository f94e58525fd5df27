-- ===== src/Middleware/Builder/Examples.antt =====
-- The theorems on `Builder` of internal/middleware/middleware.go at a small configuration.
use balance_x.Common.Dict.{lookup}
use balance_x.Middleware.Builder.Cached.{make_all, calls}
use balance_x.Middleware.Builder.Shared.{after_chains, build_chain-shares, Got}
use balance_x.Config.Sample.{bare}
use balance_x.Common.Float.{fixed, Float64, Fixed}
use balance_x.Middleware.Builder.Blank.{IsBlank, aliases, build_from_config-build_legacy}
use balance_x.Config.{Config}
use balance_x.Middleware.Builder.{
  Decoder, Decoded, build_from_config, pos, build_legacy, malformed, settings_of, Made, Outcome,
  build_chain, rate_limit, building, new_builder, Builder, success, failure,
}
use balance_x.Common.{String, All, ◌≡◌, if◌then◌else◌, refl, [], str_eq, ◌∷◌, List, ◌↔◌, inl, inr}

instance abbrev fixed_floats : Float64 Fixed
unfolding fixed
fixed_floats = fixed

-- It reads every text as zero values, but "x", which is no JSON.
abbrev read : {A : Type 0} → A → String → Decoded A
read a text = if str_eq text "x" then malformed "no JSON" else settings_of a

abbrev decoder : Decoder Fixed
decoder = record {
  to_rate_limit = read (record { requests_per_second = pos 0; burst = pos 0 });
  to_auth = read (record { username = ""; password = "" });
  to_retry = read (record { attempts = pos 0; initial_interval_ms = pos 0 });
  to_access_log = read "";
  to_timeout = read (record { high_sec = pos 0; medium_sec = pos 0; low_sec = pos 0 });
  to_breaker = read (record { threshold = pos 0; recovery_timeout_sec = pos 0 });
  to_cors = read (record { allowed_origins = []; allowed_methods = []; allowed_headers = [] });
}

abbrev cfg : Config Fixed
cfg = record (bare [] []) {
  middlewares =
      ("auth", record { kind = "basicAuth"; settings = "" })
      ∷ ("broken", record { kind = "cors"; settings = "x" })
      ∷ [];
}

blank : IsBlank decoder ""
unfolding fixed_floats
blank = record {
  rate = record { requests_per_second = pos 0; burst = pos 0 };
  rate_decoded = refl;
  rps_zero = refl;
  burst_zero = refl;
  retry_decoded = refl;
  log_decoded = refl;
  timeout_decoded = refl;
}

abbrev chain_of : Outcome (List (Made Fixed)) × Builder Fixed → List (Made Fixed)
chain_of (success ms, b) = ms
chain_of (failure e, b) = []

-- Two routes that name one rate limiter.
abbrev limited : Config Fixed
limited = record (bare [] []) {
  middlewares = ("limit", record { kind = "rateLimit"; settings = "" }) ∷ [];
}

abbrev first : Outcome (List (Made Fixed)) × Builder Fixed
unfolding after_chains new_builder build_chain
first =
    build_chain decoder ("headers" ∷ "limit" ∷ [])
      (after_chains decoder (("cors" ∷ []) ∷ []) (new_builder limited))

abbrev second : Outcome (List (Made Fixed)) × Builder Fixed
unfolding after_chains build_chain
second =
    build_chain decoder ("limit" ∷ "retry" ∷ [])
      (after_chains decoder (("retry" ∷ []) ∷ []) first.1)

abbrev limiter : Made Fixed
limiter = record { serial = 2; call = rate_limit (pos 0) (pos 0) }

first_built : first.0 ≡ success (chain_of first)
unfolding first second build_chain after_chains new_builder lookup balance_x.Common.Dict.insert
    fixed_floats
first_built = refl

second_built : second.0 ≡ success (chain_of second)
unfolding first second build_chain after_chains new_builder lookup balance_x.Common.Dict.insert
    fixed_floats
second_built = refl

first-Got : Got decoder "limit" limiter ("headers" ∷ "limit" ∷ []) (chain_of first)
unfolding first second build_chain after_chains new_builder lookup balance_x.Common.Dict.insert
    fixed_floats
first-Got = inr (inl (refl, refl))

second-Got : Got decoder "limit" limiter ("limit" ∷ "retry" ∷ []) (chain_of second)
unfolding first second build_chain after_chains new_builder lookup balance_x.Common.Dict.insert
    fixed_floats
second-Got = inl (refl, refl)

build_chain-shares_example :
    (make_all decoder building limited ("headers" ∷ "limit" ∷ [])
      ≡ success (calls (chain_of first)))
    × (make_all decoder building limited ("limit" ∷ "retry" ∷ [])
        ≡ success (calls (chain_of second)))
    × ((limiter.serial ≡ limiter.serial) ↔ (◌≡◌ {A = String} "limit" "limit"))
unfolding build_chain first
build_chain-shares_example =
    build_chain-shares decoder limited (("cors" ∷ []) ∷ []) (("retry" ∷ []) ∷ [])
      ("headers" ∷ "limit" ∷ []) ("limit" ∷ "retry" ∷ []) (chain_of first) (chain_of second) "limit"
      "limit" limiter limiter first_built second_built first-Got second-Got

build_from_config-build_legacy_example :
    All
      (λ p.
        build_from_config decoder cfg "any" (record { kind = p.0; settings = "" })
        ≡ build_legacy decoder cfg p.1)
      (aliases decoder)
build_from_config-build_legacy_example = build_from_config-build_legacy decoder cfg "any" "" blank
