-- ===== src/Proxy/Examples.antt =====
-- The theorems on internal/proxy/proxy.go at a router of two servers, over fixed-point numbers.
use balance_x.Proxy.Recorded.{circuit_breaker-proxy}
use balance_x.Proxy.Outcomes.{IsServed, serve_http_lem}
use balance_x.Balancer.RoundRobin.{round_robin, round_robin-SelectsAmong}
use balance_x.Health.Breaker.{new_breaker}
use balance_x.Balancer.Router.Healthy.{IsEligible}
use balance_x.Middleware.Breaker.{circuit_breaker}
use balance_x.Common.Dict.{lookup}
use balance_x.Proxy.InFlight.{Flies, concluded, count_to, opened, Flies-Counts, launched}
use balance_x.Metrics.{ServerStats}
use balance_x.Common.{
  ◌≡◌, ◌⊎◌, refl, true, false, List, [], ◌∷◌, ◌++◌, some, none, arith, String, str_eq, ltb, Bool,
  if◌then◌else◌, ℕ,
}
use balance_x.Common.Float.{Float64, Fixed, fixed}
use balance_x.Common.Int.{ℤ, pos}
use balance_x.Metrics.Recording.{
  new_collector, snapshot, record_start, prioritised, fresh_stats, ended, started,
}
use balance_x.Proxy.{
  unreachable, answered, Collector, Answer, Router, Incoming, conclude, Action, proxy_to_backend,
  serve_http, unavailable, no_healthy_servers,
}

instance abbrev fixed_floats : Float64 Fixed
unfolding fixed
fixed_floats = fixed

abbrev itoa : ℤ → String
itoa n = "0"

abbrev metrics : Collector Fixed
metrics = new_collector ("a" ∷ "b" ∷ []) ("A" ∷ "B" ∷ []) (pos 1 ∷ pos 2 ∷ []) 0

abbrev router : Router Fixed ℕ
router = record {
  servers = "a" ∷ "b" ∷ [];
  metrics = metrics;
  breakers = ("a", new_breaker 3 10) ∷ ("b", new_breaker 3 10) ∷ [];
  algo = 0;
}

-- "a" cannot be reached and "b" answers.
abbrev backend : String → Answer
backend url = if str_eq url "a" then unreachable 40 else answered 12 200 [] (104 ∷ [])

abbrev incoming : Incoming
incoming = record { path = "/static"; priority_header = ""; attempt = 1; excluded = "a" ∷ [] }

serve_http_lem_example :
    ((target : String) × IsEligible round_robin router ("a" ∷ []) (λ url. 5) target
      × IsServed itoa
          (backend target)
          target
          metrics
          (serve_http itoa round_robin backend incoming (λ url. 5) 6 router))
    ⊎ ((serve_http itoa round_robin backend incoming (λ url. 5) 6 router
          ≡ (router, some (unavailable no_healthy_servers)))
        × ((url : String) → ¬ IsEligible round_robin router ("a" ∷ []) (λ url. 5) url))
unfolding lookup
serve_http_lem_example =
    serve_http_lem itoa round_robin backend incoming (λ url. 5) 6 router
      (round_robin-SelectsAmong 0) ((_, refl), ((_, refl), tt)) (refl, (refl, tt))
      (λ url. omega arith)

-- The registry keeps the results in the order they come.
abbrev log_result : String → Bool → List (String × Bool) → List (String × Bool)
log_result url success results = results ++ (url, success) ∷ []

abbrev down : List (String × Bool) → List (String × Bool) × List Action
down results = (results, (proxy_to_backend itoa "a" "LOW" 1 (unreachable 40) metrics).1)

-- The failure of "a" is not recorded.
circuit_breaker-proxy_example : (circuit_breaker (some log_result) down []).0 ≡ []
circuit_breaker-proxy_example =
    circuit_breaker-proxy itoa log_result down [] "a" "LOW" 1 (unreachable 40) metrics refl refl

-- Two requests to "a" and one to "b" have set out, and the first one to "a" has ended.
abbrev busy : Collector Fixed
busy =
    (conclude itoa "a" "LOW" 1 (answered 12 200 [] [])
      (record_start "b" (record_start "a" (record_start "a" metrics)))).0

busy-Flies : Flies itoa busy ("b" ∷ "a" ∷ [])
busy-Flies = concluded "a" "LOW" 1 (answered 12 200 [] []) _ ("b" ∷ "a" ∷ []) [] (
    opened "b" _ _ (
      opened "a" _ _
        (opened "a" _ _ (launched ("a" ∷ "b" ∷ []) ("A" ∷ "B" ∷ []) (pos 1 ∷ pos 2 ∷ []) 0))))

-- The statistics of "a" then.
abbrev busy_stats : ServerStats Fixed
busy_stats =
    prioritised "LOW"
      (ended (fixed_floats.of_int (pos 12)) true (started (started (fresh_stats "A" "a" (pos 1)))))

Flies-Counts_example : busy_stats.active_connections ≡ count_to "a" ("b" ∷ "a" ∷ [])
unfolding conclude lookup fresh_stats balance_x.Metrics.Recording.record_priority
    balance_x.Common.Dict.adjust balance_x.Metrics.Recording.record_end record_start new_collector
    balance_x.Common.Dict.insert
Flies-Counts_example = Flies-Counts itoa busy-Flies "a" busy_stats refl
