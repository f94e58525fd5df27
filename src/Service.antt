-- ===== src/Service.antt =====
-- internal/service/manager.go. An instance's collector and breakers are those of its router, which the
-- monitor and the handler share. Go walks the map of instances in any order: that of the list. A
-- field of a nil block is a panic, `none`, and so is a ticker whose interval is not positive; a
-- negative recovery time or threshold counts as 0.
pub mod Results
pub mod Dashboard
pub mod Ready
pub mod Built
mod Examples
use balance_x.Metrics.{ServerStats}
use balance_x.Common.Float.{Float64}
use balance_x.Common.Int.{pos_part, seconds_duration, ltb_ℤ, pos}
use mathlib.Core.Option
use balance_x.Common.{
  String, none, some, if◌then◌else◌, List, Option, Bool, ℕ, true, ◌*◌, str_eq, map, ◌∷◌, not, false,
  [], ◌^◌, ◌&&◌,
}
use balance_x.Common.Dict.{Dict, lookup, insert}
use balance_x.Config.{Config, ServiceConfig, ServerConfig, CircuitBreakerConfig}
use balance_x.Health.Breaker.{Breaker, new_breaker}
use balance_x.Balancer.Algorithm.{Algorithm}
use balance_x.Balancer.RoundRobin
use balance_x.Balancer.LeastConn
use balance_x.Balancer.Weighted
use balance_x.Balancer.Canary
use balance_x.Balancer.Canary.{Canary, new_canary}
use balance_x.Balancer.Router.{Router, new_router}
use balance_x.Metrics.Recording.{new_collector, set_algorithm, import_metrics, snapshot}

infixl 20 ◌>>=◌
abbrev ◌>>=◌ : {A B : Type 0} → Option A → (A → Option B) → Option B
none >>= f = none
some a >>= f = f a

-- What the algorithm of a service keeps; the weighted one the number of its next random draw.
pub data AlgorithmState : Type 0 where
  round_robin_at : ℕ → AlgorithmState
  least_connections_at : AlgorithmState
  canary_at : Canary → AlgorithmState
  weighted_at : ℕ → AlgorithmState

unfoldable pub get_algorithm : String → AlgorithmState
unfolding new_canary
get_algorithm name =
    if str_eq name "roundrobin"
    then round_robin_at 0
    else if str_eq name "leastconn"
    then least_connections_at
    else if str_eq name "canary"
    then canary_at new_canary
    else weighted_at 0

module _ {F : Type 0} ⦃fl : Float64 F⦄ (draws : ℕ → F) where
  -- `Select` of the algorithm that the state belongs to.
  unfoldable pub select_with :
      List String → Dict (ServerStats F) → String → AlgorithmState → AlgorithmState × String
  select_with cs stats priority (round_robin_at n) =
      let r = RoundRobin.select cs stats priority n in (round_robin_at r.0, r.1)
  select_with cs stats priority least_connections_at =
      (least_connections_at, (LeastConn.select cs stats priority tt).1)
  select_with cs stats priority (canary_at k) =
      let r = Canary.select cs stats priority k in (canary_at r.0, r.1)
  select_with cs stats priority (weighted_at n) =
      let r = Weighted.select draws cs stats priority n in (weighted_at r.0, r.1)

  unfoldable pub algorithm : Algorithm F AlgorithmState
  algorithm = record { select = select_with }

-- `running` says that the health checks run; `monitored` that there is a monitor.
pub record Instance (F : Type 0) : Type 0 where
  pub name : String
  pub config : ServiceConfig
  pub router : Router F AlgorithmState
  pub monitored : Bool
  pub running : Bool

pub record Manager (F : Type 0) : Type 0 where
  pub instances : Dict (Instance F)
  pub cfg : Config F

unfoldable pub breaker_for : CircuitBreakerConfig → Breaker
breaker_for c =
    new_breaker (pos_part c.threshold) (pos_part (seconds_duration c.recovery_timeout_sec))

-- The loop over the URLs that makes the breakers.
unfoldable pub add_breakers :
    Option CircuitBreakerConfig → List String → Dict Breaker → Option (Dict Breaker)
unfolding breaker_for
add_breakers c [] breakers = some breakers
add_breakers none (url ∷ urls) breakers = none
add_breakers (some c) (url ∷ urls) breakers =
    add_breakers (some c) urls (insert url (breaker_for c) breakers)

abbrev pub is_empty : List ServerConfig → Bool
is_empty [] = true
is_empty (s ∷ ss) = false

-- `Start` of internal/health/monitor.go: whether the ticker of every server's checks can be made. The
-- panic of one that cannot, in its goroutine, ends the program.
unfoldable pub starts : List ServerConfig → Bool
starts [] = true
starts (s ∷ ss) = ltb_ℤ (pos 0) (seconds_duration s.health_check.interval_sec) && starts ss

abbrev made_if : {A : Type 0} → Bool → A → Option A
made_if true a = some a
made_if false a = none

module _ {F : Type 0} ⦃fl : Float64 F⦄ (now : ℕ) where
  -- The instance, once the algorithm and the breakers are there.
  unfoldable pub instance_with : String → ServiceConfig → String → Dict Breaker → Instance F
  unfolding get_algorithm new_router
  instance_with name svc algo breakers =
      let urls = map (λ s. s.url) svc.servers in
      let names = map (λ s. s.name) svc.servers in
      let weights = map (λ s. s.weight) svc.servers in
      record {
        name = name;
        config = svc;
        router =
            new_router urls (set_algorithm algo (new_collector urls names weights now)) breakers
              (get_algorithm algo);
        monitored = not (is_empty svc.servers);
        running = not (is_empty svc.servers);
      }

  unfoldable pub build_instance : String → ServiceConfig → Option (Instance F)
  unfolding add_breakers instance_with starts
  build_instance name svc = do
    balancer ← svc.load_balancer
    breakers ← add_breakers svc.circuit_breaker (map (λ s. s.url) svc.servers) []
    made_if (starts svc.servers)
        (instance_with name svc (if svc.canary then "canary" else balancer.algorithm) breakers)

  unfoldable pub build_all : Dict ServiceConfig → Dict (Instance F) → Option (Dict (Instance F))
  unfolding build_instance
  build_all [] instances = some instances
  build_all ((name, svc) ∷ services) instances = elim (build_instance name svc) [
    | none ↦ none
    | some inst ↦ build_all services (insert name inst instances)
  ]

  unfoldable pub new_manager : Config F → Option (Manager F)
  unfolding build_all
  new_manager cfg =
      Option.map (λ instances. record { instances = instances; cfg = cfg })
        (build_all cfg.services [])

unfoldable pub get : {F : Type 0} → String → Manager F → Option (Instance F)
get name m = lookup name m.instances
