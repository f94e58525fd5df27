-- ===== src/Config/Examples.antt =====
-- The theorems on config/config.go at concrete configurations, over fixed-point numbers.
use balance_x.Config.Sample.{backend, bare}
use balance_x.Config.Validate.Distinct.{HasDistinctUrls, placements, validate_lem, StandsTwice}
use balance_x.Config.Idempotent.{set_defaults_idem}
use balance_x.Config.Validate.{validate, ok, err, duplicate_url}
use balance_x.Config.Defaults.{set_defaults, implicit_service}
use balance_x.Config.{Config}
use balance_x.Common.{List, [], ◌∷◌, ◌≡◌, refl, none, some, true, false, String, ◌⊎◌, Among}
use balance_x.Common.Int.{ℤ}
use balance_x.Common.Float.{Float64, Fixed, fixed}

instance abbrev fixed_floats : Float64 Fixed
unfolding fixed
fixed_floats = fixed

abbrev port_text : ℤ → String
port_text p = ":8080"

abbrev flat : Config Fixed
flat = bare (backend "http://a" ∷ backend "http://b" ∷ []) []

set_defaults_idem_example :
    set_defaults port_text (set_defaults port_text flat) ≡ set_defaults port_text flat
set_defaults_idem_example = set_defaults_idem port_text flat

-- One URL in two services.
abbrev shared : Config Fixed
shared = bare [] (
    ("web", implicit_service (backend "http://a" ∷ backend "http://b" ∷ []))
    ∷ ("api", implicit_service (backend "http://b" ∷ []))
    ∷ [])

shared_run : validate shared ≡ err (duplicate_url "http://b" "web" "api")
unfolding validate balance_x.Common.Dict.lookup balance_x.Common.Dict.insert
shared_run = refl

validate_lem_example :
    ((validate shared ≡ ok shared) × HasDistinctUrls (placements shared.services))
    ⊎ ((u : String) × (a : String) × (b : String) × (validate shared ≡ err (duplicate_url u a b))
        × StandsTwice u a b (placements shared.services)
        × ¬ HasDistinctUrls (placements shared.services))
validate_lem_example = validate_lem shared
