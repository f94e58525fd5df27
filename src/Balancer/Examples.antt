-- ===== src/Balancer/Examples.antt =====
-- The theorems on internal/balancer at concrete pools, over fixed-point numbers.
use balance_x.Common.{
  ℕ, zero, suc, ◌+◌, ◌≡◌, ◌≤◌, refl, Bool, true, false, String, List, [], ◌∷◌, ◌++◌, length, drop,
  Among, arith, some,
}
use mathlib.Core.List.{Perm}
use balance_x.Common.Dict.{Dict, lookup}
use balance_x.Common.Int.{pos, negsuc}
use balance_x.Common.Float.{Float64, Fixed, fixed}
use balance_x.Metrics.{ServerStats, Collector}
use balance_x.Metrics.Recording.{new_collector, record_start, set_health, snapshot}
use balance_x.Health.Breaker.{Breaker, new_breaker, is_open}
use balance_x.Balancer.RoundRobin
use balance_x.Balancer.RoundRobin.{round_robin, picks, picks_rotation, round_robin-SelectsAmong}
use balance_x.Balancer.LeastConn
use balance_x.Balancer.LeastConn.{IsLeast, conn_limit, least_connections, select-IsLeast}
use balance_x.Balancer.Weighted
use balance_x.Balancer.Weighted.{score, scored}
use balance_x.Balancer.Weighted.Best.{IsBest, select-IsBest}
use balance_x.Balancer.Router
use balance_x.Balancer.Router.{Router, Selection, chosen, new_router}
use balance_x.Balancer.Router.Healthy.{Selects, select-Selects}

instance abbrev fixed_floats : Float64 Fixed
unfolding fixed
fixed_floats = fixed

abbrev pool : List String
pool = "a" ∷ "b" ∷ "c" ∷ []

-- Two open connections to "a", and "b" down.
abbrev metrics : Collector Fixed
unfolding new_collector record_start set_health
metrics =
    set_health "b" false "12:00:00"
      (record_start "a" (record_start "a" (new_collector pool [] (pos 1 ∷ pos 2 ∷ pos 1 ∷ []) 0)))

abbrev breakers : Dict Breaker
unfolding new_breaker
breakers = ("a", new_breaker 3 10) ∷ ("b", new_breaker 3 10) ∷ ("c", new_breaker 3 10) ∷ []

abbrev router : Router Fixed ℕ
unfolding new_router
router = new_router pool metrics breakers 0

picks_rotation_example :
    (picks 3 pool metrics.servers "LOW" 4 ≡ "b" ∷ "c" ∷ "a" ∷ [])
    × Perm (picks 3 pool metrics.servers "LOW" 4) pool
picks_rotation_example = picks_rotation pool metrics.servers "LOW" 4 (omega arith) (omega arith)

abbrev idle_stats : ServerStats Fixed
unfolding new_collector record_start set_health
idle_stats = record {
  name = "c";
  url = "c";
  weight = pos 1;
  is_healthy = true;
  avg_latency_ms = pos 0;
  p95_latency_ms = pos 0;
  active_connections = 0;
  total_requests = 0;
  success_count = 0;
  failure_count = 0;
  retry_count = 0;
  circuit_state = "CLOSED";
  high_priority_count = 0;
  low_priority_count = 0;
  last_checked = "";
  recent_latencies = [];
}

select-IsLeast_example :
    let r = (LeastConn.select ("c" ∷ "a" ∷ []) metrics.servers "LOW" tt).1 in
    Among r ("c" ∷ "a" ∷ []) × IsLeast metrics.servers conn_limit ("c" ∷ "a" ∷ []) r
unfolding metrics lookup balance_x.Common.Dict.adjust balance_x.Common.Dict.insert fixed_floats
select-IsLeast_example =
    select-IsLeast "c" ("a" ∷ []) metrics.servers "LOW" idle_stats refl (omega arith)

-- Draws of a half.
abbrev draws : ℕ → Fixed
draws k = pos 5000

select-IsBest_example :
    IsBest
      (negsuc 9999)
      (scored draws metrics.servers "HIGH" ("c" ∷ "a" ∷ []) 0)
      (Weighted.select draws ("c" ∷ "a" ∷ []) metrics.servers "HIGH" 0).1
unfolding metrics lookup score fixed balance_x.Common.Dict.adjust balance_x.Common.Dict.insert
    balance_x.Common.Int.◌+ℤ◌
select-IsBest_example =
    select-IsBest draws "c" ("a" ∷ []) metrics.servers "HIGH" 0 idle_stats refl refl

weighted_run : (Weighted.select draws ("a" ∷ "c" ∷ []) metrics.servers "HIGH" 0).1 ≡ "c"
unfolding metrics Weighted.select lookup score fixed balance_x.Common.Dict.adjust
    balance_x.Common.Dict.insert balance_x.Common.Int.◌+ℤ◌
weighted_run = refl

select-Selects_example :
    Selects round_robin router
      ("a" ∷ [])
      (λ url. 5)
      (Router.select round_robin router "LOW" ("a" ∷ []) (λ url. 5) 6)
unfolding metrics breakers router lookup snapshot
select-Selects_example =
    select-Selects round_robin router "LOW" ("a" ∷ []) (λ url. 5) 6
      (round_robin-SelectsAmong router.algo) ((_, refl), ((_, refl), ((_, refl), tt)))
      (refl, (refl, (refl, tt))) (λ url. omega arith)

-- With "a" excluded and "b" down, "c" is left.
select_run : (Router.select round_robin router "LOW" ("a" ∷ []) (λ url. 5) 6).1 ≡ chosen "c"
unfolding metrics breakers router Router.select Router.admits snapshot lookup is_open
    balance_x.Common.Dict.contains round_robin RoundRobin.select balance_x.Health.Breaker.can_send
    balance_x.Common.Dict.adjust balance_x.Common.Dict.insert
select_run = refl
