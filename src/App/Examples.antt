-- ===== src/App/Examples.antt =====
-- The theorems on cmd/loadbalancer/main.go at a configuration with one router and one service.
use balance_x.App.Reload.{reload-error}
use balance_x.App.Dispatch.{GoesTo, Wants, dispatch-GoesTo}
use balance_x.Routing.Bytes.{codes}
use balance_x.App.{
  Handler, AppError, initialize, dispatch, Request, fallback, App, reload, unknown_service,
  bad_config, add_routers,
}
use balance_x.Config.Sample.{bare, backend}
use balance_x.Routing.Table.{Sorter, Route}
use balance_x.Service.{Manager, get, new_manager}
use balance_x.Middleware.Builder.{Decoder, settings_of, new_builder}
use balance_x.Config.Defaults.{set_defaults}
use balance_x.Common.Float.{fixed, Fixed, Float64}
use balance_x.Common.Int.{ℤ, pos}
use balance_x.Routing.Table.Insertion.{insertion_sorter}
use balance_x.Config.{RouterConfig, Config}
use balance_x.Config.Validate
use balance_x.Config.Validate.{load, Error}
use balance_x.Common.{String, none, some, refl, Option, ◌∷◌, List, [], length, ◌≡◌, ◌⊎◌}
use balance_x.Routing.Sample.{no_net}

instance abbrev fixed_floats : Float64 Fixed
unfolding fixed
fixed_floats = fixed

-- It reads every text as zero values.
abbrev decoder : Decoder Fixed
decoder = record {
  to_rate_limit = λ text. settings_of (record { requests_per_second = pos 0; burst = pos 0 });
  to_auth = λ text. settings_of (record { username = ""; password = "" });
  to_retry = λ text. settings_of (record { attempts = pos 0; initial_interval_ms = pos 0 });
  to_access_log = λ text. settings_of "";
  to_timeout =
      λ text. settings_of (record { high_sec = pos 0; medium_sec = pos 0; low_sec = pos 0 });
  to_breaker = λ text. settings_of (record { threshold = pos 0; recovery_timeout_sec = pos 0 });
  to_cors = λ text.
      settings_of (record { allowed_origins = []; allowed_methods = []; allowed_headers = [] });
}

abbrev port_text : ℤ → String
port_text p = ":8080"

abbrev router_to : String → RouterConfig
router_to service = record {
  rule = "Method('GET')";
  priority = pos 1;
  middlewares = "headers" ∷ "cors" ∷ [];
  service = service;
}

abbrev plain : Config Fixed
plain = record (bare (backend "http://a" ∷ []) []) { routers = ("get", router_to "default") ∷ [] }

abbrev cfg : Config Fixed
unfolding set_defaults
cfg = set_defaults port_text plain

abbrev sorter : Sorter (Handler Fixed)
unfolding insertion_sorter
sorter = insertion_sorter (Handler Fixed)

abbrev started : Option ((Manager Fixed × List (Route (Handler Fixed))) × Option AppError)
started = initialize decoder no_net sorter 0 cfg

abbrev state : (Manager Fixed × List (Route (Handler Fixed))) × Option AppError
state = elim started [ some r ↦ r | none ↦ ((record { instances = []; cfg = cfg }, []), none) ]

initialized : started ≡ some ((state.0.0, state.0.1), none)
unfolding initialize cfg balance_x.Config.Defaults.fill_services
    balance_x.Config.Defaults.default_service balance_x.Common.Dict.lookup
    balance_x.Common.Dict.insert balance_x.Routing.Rule.Parser.parse_rule
    balance_x.Routing.Rule.next_token balance_x.Routing.Rule.read_matcher
    balance_x.Routing.Rule.Parser.parse_expression balance_x.Routing.Rule.Args.create_matcher
    balance_x.Routing.Bytes.split_at balance_x.Routing.Bytes.drop_last
    balance_x.Routing.Rule.Args.parse_args balance_x.Routing.Bytes.text_eq
    balance_x.Routing.Bytes.trim_space balance_x.Routing.Rule.Args.make_matcher sorter
    balance_x.Common.Int.seconds_duration balance_x.Config.Defaults.default_service_server
    balance_x.Config.Defaults.fill_check balance_x.Config.Defaults.default_server_check
    balance_x.Config.Defaults.default_settings
initialized = refl

abbrev get_request : Request
get_request = record {
  path = codes "/";
  method = codes "GET";
  remote_addr = [];
  header = λ name. [];
}

dispatch-GoesTo_example :
    let target =
      dispatch get_request (record { cfg = cfg; svc_mgr = state.0.0; routes = state.0.1 }) in
    GoesTo decoder no_net sorter cfg state.0.0 get_request target
    ⊎ (((n : String) (c : RouterConfig) → ¬ Wants decoder no_net sorter cfg get_request n c)
        × (target ≡ fallback (get "default" state.0.0)))
dispatch-GoesTo_example =
    dispatch-GoesTo decoder no_net sorter 0 cfg state.0.0 state.0.1 initialized get_request

abbrev running : App Fixed
running = record { cfg = cfg; svc_mgr = state.0.0; routes = state.0.1 }

-- The new file's router names a service that it does not define.
abbrev broken : Config Fixed
broken = record (bare (backend "http://b" ∷ []) []) { routers = ("lost", router_to "nowhere") ∷ [] }

abbrev reloaded : Option (App Fixed × Option AppError)
reloaded = reload decoder no_net sorter port_text (some broken) 1 running

abbrev after : App Fixed
after = elim reloaded [ some r ↦ r.0 | none ↦ running ]

reloaded_lem : reloaded ≡ some (after, some (unknown_service "lost" "nowhere"))
unfolding reload set_defaults Validate.validate balance_x.Config.Defaults.fill_services
    balance_x.Config.Defaults.default_service balance_x.Common.Dict.lookup
    balance_x.Common.Dict.insert balance_x.Common.Int.seconds_duration
    balance_x.Config.Defaults.default_service_server balance_x.Config.Defaults.fill_check
    balance_x.Config.Defaults.default_server_check balance_x.Config.Defaults.default_settings
reloaded_lem = refl

reload-error_example :
    ((bad : Error) × (load port_text (some broken) ≡ Validate.err bad)
      × (unknown_service "lost" "nowhere" ≡ bad_config bad)
      × (after ≡ running))
    ⊎ ((load port_text (some broken) ≡ Validate.ok after.cfg)
        × (new_manager 1 after.cfg ≡ some after.svc_mgr)
        × (add_routers decoder no_net sorter after.svc_mgr after.cfg.routers
              (new_builder after.cfg)
              []
            ≡ (after.routes, some (unknown_service "lost" "nowhere"))))
reload-error_example =
    reload-error decoder no_net sorter port_text (some broken) 1 running after
      (unknown_service "lost" "nowhere") reloaded_lem
