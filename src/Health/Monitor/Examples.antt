-- ===== src/Health/Monitor/Examples.antt =====
-- The theorem on internal/health/monitor.go at one server that recovers, over fixed-point numbers.
use balance_x.Health.Monitor.Checked.{IsChecked, check-IsChecked}
use balance_x.Metrics.Recording.{fresh_stats, new_collector}
use balance_x.Config.{ServerConfig}
use balance_x.Metrics.{ServerStats}
use balance_x.Common.Dict.{lookup}
use balance_x.Health.Breaker.{Breaker, record_failure, new_breaker, record_success}
use balance_x.Health.Monitor.{Monitor, check, is_up}
use balance_x.Common.{List, [], ◌∷◌, ◌≡◌, refl, none, some, true, false, String, if◌then◌else◌}
use balance_x.Common.Int.{pos}
use balance_x.Common.Float.{Float64, Fixed, fixed}
use balance_x.Config.Defaults.{standard_check}

instance abbrev fixed_floats : Float64 Fixed
unfolding fixed
fixed_floats = fixed

abbrev server : ServerConfig
server = record {
  url = "a";
  name = "A";
  weight = pos 1;
  delay_ms = pos 0;
  health_check = standard_check (pos 5);
}

abbrev tripped : Breaker
tripped = record_failure (new_breaker 1 10) 3

abbrev start : Monitor Fixed
start = record {
  metrics = new_collector ("a" ∷ []) ("A" ∷ []) (pos 1 ∷ []) 0;
  breakers = ("a", tripped) ∷ [];
}

abbrev stats : ServerStats Fixed
stats = fresh_stats "A" "a" (pos 1)

check-IsChecked_example :
    (mon' : Monitor Fixed) × (s' : ServerStats Fixed) × (check server
        (some (pos 200))
        "12:00"
        "12:01"
        9
        start
      ≡ some mon')
    × IsChecked "a"
        (is_up server (some (pos 200)))
        tripped
        (if is_up server (some (pos 200))
          then (record_success tripped).0
          else record_failure tripped 9)
        stats
        s'
        start
        mon'
unfolding lookup new_collector fresh_stats balance_x.Common.Dict.insert
check-IsChecked_example =
    check-IsChecked server (some (pos 200)) "12:00" "12:01" 9 tripped stats start refl refl
