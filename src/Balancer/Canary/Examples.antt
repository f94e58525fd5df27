-- ===== src/Balancer/Canary/Examples.antt =====
-- The theorems on internal/balancer/canary.go at a pool of the weights 3 and 1.
use balance_x.Balancer.Canary.{new_canary, List, init_weights, Canary}
use balance_x.Common.Int.{ℤ, pos}
use balance_x.Metrics.{ServerStats}
use balance_x.Balancer.Canary.Fair.{selections, times, total_of, weight_of}
use balance_x.Common.Dict.{Dict}
use balance_x.Common.{refl, String, ◌∷◌, [], true, ◌≡◌, All, inl, Among, inr, ◌*◌, ◌<◌, ◌+◌}
use balance_x.Balancer.Canary.Start.{select-shares, select-cycle}

abbrev stats_of : String → ℤ → ServerStats ℤ
stats_of url weight = record {
  name = url;
  url = url;
  weight = weight;
  is_healthy = true;
  avg_latency_ms = pos 0;
  p95_latency_ms = pos 0;
  active_connections = 0;
  total_requests = 0;
  success_count = 0;
  failure_count = 0;
  retry_count = 0;
  circuit_state = "CLOSED";
  high_priority_count = 0;
  low_priority_count = 0;
  last_checked = "";
  recent_latencies = [];
}

abbrev stats : Dict (ServerStats ℤ)
stats = ("stable", stats_of "stable" (pos 3)) ∷ ("next", stats_of "next" (pos 0)) ∷ []

abbrev request : Dict (ServerStats ℤ) × String
request = (stats, "LOW")

abbrev order : List String
unfolding selections new_canary
order =
    (selections ("stable" ∷ "next" ∷ []) (request ∷ request ∷ request ∷ request ∷ []) new_canary).1

order_lem : order ≡ "stable" ∷ "stable" ∷ "next" ∷ "stable" ∷ []
unfolding order balance_x.Common.Dict.lookup balance_x.Common.Dict.insert balance_x.Common.Int.◌+ℤ◌
    balance_x.Common.Int.◌-ℤ◌
order_lem = refl

abbrev started : Canary
unfolding init_weights new_canary
started = init_weights stats new_canary

select-shares_example :
    All (λ b. Among b ("stable" ∷ "next" ∷ [])) order
    × (times "next" order * total_of ("stable" ∷ "next" ∷ []) started
        < 4 * weight_of "next" started + total_of ("stable" ∷ "next" ∷ []) started)
unfolding order started
select-shares_example =
    select-shares "stable" ("next" ∷ []) stats "LOW" (request ∷ request ∷ request ∷ [])
      (((refl, tt), (tt, tt))) ((refl, (refl, tt))) ((inl refl, (inr (inl refl), tt))) "next"
      (inr (inl refl))

select-cycle_example : times "stable" order ≡ 3
unfolding order balance_x.Balancer.Canary.Sums.sum_of balance_x.Common.Int.◌+ℤ◌
    balance_x.Common.Dict.lookup balance_x.Common.Dict.insert
select-cycle_example =
    select-cycle "stable" ("next" ∷ []) stats "LOW" (request ∷ request ∷ request ∷ [])
      (((refl, tt), (tt, tt))) ((refl, (refl, tt))) ((inl refl, (inr (inl refl), tt))) refl "stable"
      (inl refl)
