-- ===== src/Balancer/Router.antt =====
-- internal/balancer/router.go. `IsOpen` reads the clock once for each server, `read url`, and
-- `CanSend` reads it later, `now`. Dereferencing a breaker that the map lacks is a panic.
-- Nothing that other requests do comes between the filter and the gate.
pub mod Healthy
use balance_x.Common.{
  ℕ, ◌≡◌, Bool, true, false, not, String, List, [], ◌∷◌, Option, none, some, str_eq, if◌then◌else◌,
}
use mathlib.Core.Option
use balance_x.Common.Dict.{Dict, lookup, insert, contains}
use balance_x.Metrics.{ServerStats, Collector}
use balance_x.Metrics.Recording.{snapshot}
use balance_x.Health.Breaker.{Breaker, is_open, can_send}
use balance_x.Balancer.Algorithm.{Algorithm}

pub data RouteError : Type 0 where
  no_healthy_servers no_server_returned circuit_is_open : RouteError

pub data Selection : Type 0 where
  chosen : String → Selection
  failed : RouteError → Selection
  nil_breaker : Selection

-- `algo` is the state that the algorithm keeps.
pub record Router (F S : Type 0) : Type 0 where
  pub servers : List String
  pub metrics : Collector F
  pub breakers : Dict Breaker
  pub algo : S

unfoldable pub new_router :
    {F S : Type 0} → List String → Collector F → Dict Breaker → S → Router F S
new_router servers m b algo = record { servers = servers; metrics = m; breakers = b; algo = algo }

module _ {F : Type 0} (stats : Dict (ServerStats F)) (breakers : Dict Breaker)
    (excluded : List String) (read : String → ℕ) where
  -- The tests of the loop's body: `none` is the panic.
  unfoldable pub admits : String → Option Bool
  admits url = if contains url excluded then some false else elim (lookup url stats) [
    | none ↦ some false
    | some s ↦
        if s.is_healthy
        then elim (lookup url breakers) [ none ↦ none | some b ↦ some (not (is_open b (read url))) ]
        else some false
  ]

  -- The loop over the servers.
  unfoldable pub candidates : List String → Option (List String)
  candidates [] = some []
  candidates (url ∷ urls) =
      let rest = candidates urls in
      elim (admits url) [
        | none ↦ none
        | some a ↦ if a then Option.map (λ cs. url ∷ cs) rest else rest
      ]

module _ {F S : Type 0} (algorithm : Algorithm F S) where
  -- What follows once the algorithm has answered.
  unfoldable pub gate : Router F S → ℕ → S × String → Router F S × Selection
  gate r now (algo, url) =
      let r' = record r { algo = algo } in
      if str_eq url "" then (r', failed no_server_returned) else elim (lookup url r.breakers) [
        | none ↦ (r', nil_breaker)
        | some b ↦
            let (b', ok) = can_send b now in
            (
              record r' { breakers = insert url b' r.breakers },
              if ok then chosen url else failed circuit_is_open,
            )
      ]

  unfoldable pub select_from :
      Router F S → String → ℕ → Option (List String) → Router F S × Selection
  unfolding gate
  select_from r priority now none = (r, nil_breaker)
  select_from r priority now (some []) = (r, failed no_healthy_servers)
  select_from r priority now (some (c ∷ cs)) =
      gate r now (algorithm.select (c ∷ cs) (snapshot r.metrics) priority r.algo)

  unfoldable pub select :
      Router F S → String → List String → (String → ℕ) → ℕ → Router F S × Selection
  unfolding select_from candidates
  select r priority excluded read now =
      select_from r priority now
        (candidates (snapshot r.metrics) r.breakers excluded read r.servers)
