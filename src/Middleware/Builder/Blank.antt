-- ===== src/Middleware/Builder/Blank.antt =====
-- The settings with which the builder of internal/middleware/middleware.go makes a middleware.
use balance_x.Config.{Config}
use balance_x.Middleware.Builder.{
  Decoder, build_from_config, RateLimitSettings, build_legacy, success, settings_of, rate_limit,
  pos, with_settings,
}
use balance_x.Common.Float.{Float64}
use balance_x.Common.{String, List, ◌≡◌, ◌∷◌, All, [], true, refl, ap, ◌∙◌, ap₂, if◌then◌else◌}
use balance_x.Config.Defaults.{int_or, float_or, text_or}

module _ {F : Type 0} ⦃fl : Float64 F⦄ (decoder : Decoder F) where
  -- The text decodes to zero values, whatever type it is decoded to.
  pub record IsBlank (settings : String) : Type 0 where
    pub rate : RateLimitSettings F
    pub rate_decoded : decoder.to_rate_limit settings ≡ settings_of rate
    pub rps_zero : fl.is_zero rate.requests_per_second ≡ true
    pub burst_zero : rate.burst ≡ pos 0
    pub retry_decoded :
        decoder.to_retry settings
        ≡ settings_of (record { attempts = pos 0; initial_interval_ms = pos 0 })
    pub log_decoded : decoder.to_access_log settings ≡ settings_of ""
    pub timeout_decoded :
        decoder.to_timeout settings
        ≡ settings_of (record { high_sec = pos 0; medium_sec = pos 0; low_sec = pos 0 })

  -- A type of the `middlewares` block, and the older name without an entry there.
  abbrev pub aliases : List (String × String)
  aliases =
      ("rateLimit", "rate-limit")
      ∷ ("retry", "retry")
      ∷ ("accessLog", "access-log")
      ∷ ("headers", "headers")
      ∷ ("timeout", "timeout")
      ∷ []

  from_rate_limit :
      (cfg : Config F) (name settings : String)
      → IsBlank settings
      → build_from_config decoder cfg name (record { kind = "rateLimit"; settings = settings })
        ≡ success (rate_limit cfg.rate_limit_rps cfg.rate_limit_burst)
  unfolding build_from_config float_or int_or
  from_rate_limit cfg name settings blank =
      ap
        (with_settings "rateLimit" name (λ c.
          rate_limit (float_or c.requests_per_second cfg.rate_limit_rps)
            (int_or c.burst cfg.rate_limit_burst)))
        blank.rate_decoded
      ∙ ap₂
          (λ b i. success (
            rate_limit (if b then cfg.rate_limit_rps else blank.rate.requests_per_second)
              (int_or i cfg.rate_limit_burst)))
          blank.rps_zero blank.burst_zero

  -- An entry of the `middlewares` block whose settings are all zero makes the same middleware as the
  -- older name does without an entry: the one of the global settings. This holds of the types
  -- rateLimit, retry, accessLog, headers and timeout.
  pub build_from_config-build_legacy :
      (cfg : Config F) (name settings : String)
      → IsBlank settings
      → All
          (λ p.
            build_from_config decoder cfg name (record { kind = p.0; settings = settings })
            ≡ build_legacy decoder cfg p.1)
          aliases
  unfolding build_from_config build_legacy int_or text_or
  build_from_config-build_legacy cfg name settings blank = (
    from_rate_limit cfg name settings blank,
    (
      rw blank.retry_decoded refl,
      (rw blank.log_decoded refl, (refl, (rw blank.timeout_decoded refl, tt))),
    ),
  )
