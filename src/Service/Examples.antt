-- ===== src/Service/Examples.antt =====
-- The theorems on internal/service/manager.go at the manager of a flat list of two servers.
use balance_x.Metrics.{ServerStats}
use balance_x.Metrics.Recording.{fresh_stats}
use balance_x.Service.Results.Recorded.{IsNotedAt, record_circuit_breaker_result_lem}
use balance_x.Health.Breaker.{new_breaker, Breaker}
use balance_x.Service.Ready.{HasIntervals}
use balance_x.Http.{Action}
use balance_x.Config.Complete.{IsFullService, set_defaults-IsComplete}
use balance_x.Service.Built.{HasKey, IsNamed, new_manager-answers}
use balance_x.Config.Defaults.{set_defaults, implicit_service}
use balance_x.Common.Int.{ℤ, pos}
use balance_x.Common.Float.{fixed, Fixed, Float64}
use balance_x.Service.{new_manager, Manager, Instance, get, algorithm, instance_with}
use balance_x.Proxy.{Answer, Incoming, unreachable, serve_http}
use balance_x.Config.{Config}
use balance_x.Service.Results.{HasOneOwner, record_circuit_breaker_result}
use balance_x.Common.{
  String, none, some, refl, ℕ, false, [], ◌≡◌, ◌∷◌, inr, List, Option, arith, ◌≤◌, length,
}
use balance_x.Config.Sample.{bare, backend}
use balance_x.Common.Dict.{lookup, AllValues}

instance abbrev fixed_floats : Float64 Fixed
unfolding fixed
fixed_floats = fixed

abbrev port_text : ℤ → String
port_text p = ":8080"

abbrev plain : Config Fixed
plain = bare (backend "http://a" ∷ backend "http://b" ∷ []) []

abbrev cfg : Config Fixed
unfolding set_defaults
cfg = set_defaults port_text plain

abbrev draws : ℕ → Fixed
draws k = pos 5000

abbrev digits : ℤ → String
digits n = "0"

abbrev failing : String → Answer
failing url = unreachable 40

abbrev req : Incoming
req = record { path = "/x"; priority_header = ""; attempt = 1; excluded = [] }

full : AllValues IsFullService cfg.services
unfolding cfg
full = (set_defaults-IsComplete port_text plain).0.services_full

default_there : HasKey draws "default" cfg.services
unfolding cfg lookup balance_x.Config.Defaults.fill_services
default_there = (_, refl)

all-IsNamed : AllValues (IsNamed draws) cfg.services
unfolding cfg balance_x.Config.Defaults.fill_services balance_x.Config.Defaults.default_service
    balance_x.Config.Defaults.default_service_server balance_x.Config.Defaults.default_server_check
all-IsNamed = (((refl, (refl, tt))), tt)

all-HasIntervals : AllValues HasIntervals cfg.services
unfolding cfg balance_x.Config.Defaults.fill_services balance_x.Config.Defaults.default_service
    balance_x.Config.Defaults.default_service_server balance_x.Config.Defaults.default_server_check
    balance_x.Config.Defaults.fill_check balance_x.Config.Defaults.int_or
    balance_x.Config.Defaults.default_settings
all-HasIntervals = (((6, refl, omega arith), ((6, refl, omega arith), tt)), tt)

new_manager-answers_example :
    (m : Manager Fixed) × (inst : Instance Fixed) × (actions : List Action) × (new_manager 0 cfg
      ≡ some m)
    × (get "default" m ≡ some inst)
    × ((serve_http digits (algorithm draws) failing req (λ url. 0) 0 inst.router).1 ≡ some actions)
new_manager-answers_example =
    new_manager-answers draws digits 0 cfg full all-IsNamed all-HasIntervals "default" default_there
      failing req (λ url. 0) 0 (λ url. omega arith)

abbrev manager : Manager Fixed
unfolding new_manager
manager = elim (new_manager 0 cfg) [ some m ↦ m | none ↦ record { instances = []; cfg = cfg } ]

one_owner : HasOneOwner "http://a" false 5 "12:00:00" manager.instances
unfolding manager cfg balance_x.Config.Defaults.fill_services
    balance_x.Config.Defaults.default_service balance_x.Common.Dict.insert
    balance_x.Common.Int.seconds_duration balance_x.Config.Defaults.default_service_server
    balance_x.Config.Defaults.fill_check balance_x.Config.Defaults.int_or
    balance_x.Config.Defaults.default_server_check balance_x.Config.Defaults.default_settings
one_owner = (inr tt, tt)

abbrev owner : Instance Fixed
owner = elim (get "default" manager) [
  | some inst ↦ inst
  | none ↦ instance_with 0 "" (implicit_service []) "" []
]

abbrev breaker : Breaker
unfolding new_breaker
breaker = new_breaker 3 15000000000

abbrev stats : ServerStats Fixed
unfolding fresh_stats
stats = fresh_stats "http://a" "http://a" (pos 1)

owner_there : lookup "default" manager.instances ≡ some owner
unfolding manager cfg balance_x.Config.Defaults.fill_services
    balance_x.Config.Defaults.default_service balance_x.Common.Dict.insert
    balance_x.Common.Int.seconds_duration balance_x.Config.Defaults.default_service_server
    balance_x.Config.Defaults.fill_check balance_x.Config.Defaults.int_or
    balance_x.Config.Defaults.default_server_check balance_x.Config.Defaults.default_settings
    balance_x.Config.Defaults.default_breaker breaker stats lookup get
owner_there = refl

breaker_there : lookup "http://a" owner.router.breakers ≡ some breaker
unfolding manager cfg balance_x.Config.Defaults.fill_services
    balance_x.Config.Defaults.default_service balance_x.Common.Dict.insert
    balance_x.Common.Int.seconds_duration balance_x.Config.Defaults.default_service_server
    balance_x.Config.Defaults.fill_check balance_x.Config.Defaults.int_or
    balance_x.Config.Defaults.default_server_check balance_x.Config.Defaults.default_settings
    balance_x.Config.Defaults.default_breaker breaker stats lookup get
breaker_there = refl

stats_there : lookup "http://a" owner.router.metrics.servers ≡ some stats
unfolding manager cfg balance_x.Config.Defaults.fill_services
    balance_x.Config.Defaults.default_service balance_x.Common.Dict.insert
    balance_x.Common.Int.seconds_duration balance_x.Config.Defaults.default_service_server
    balance_x.Config.Defaults.fill_check balance_x.Config.Defaults.int_or
    balance_x.Config.Defaults.default_server_check balance_x.Config.Defaults.default_settings
    balance_x.Config.Defaults.default_breaker breaker stats lookup get
    balance_x.Metrics.Recording.set_algorithm balance_x.Metrics.Recording.new_collector
stats_there = refl

record_circuit_breaker_result_lem_example :
    let m' = record_circuit_breaker_result "http://a" false 5 "12:00:00" manager in
    (after : Instance Fixed) × (lookup "default" m'.instances ≡ some after)
    × IsNotedAt "http://a" 5 "12:00:00" false breaker stats after
    × (lookup "http://b" after.router.breakers ≡ lookup "http://b" owner.router.breakers)
    × (lookup "api" m'.instances ≡ lookup "api" manager.instances)
    × (m'.cfg ≡ manager.cfg)
record_circuit_breaker_result_lem_example =
    record_circuit_breaker_result_lem "http://a" 5 "12:00:00" false manager "default" "api"
      "http://b" owner breaker stats one_owner owner_there breaker_there stats_there refl refl
