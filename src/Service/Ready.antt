-- ===== src/Service/Ready.antt =====
-- The instances that internal/service/manager.go builds from a complete configuration: their routers
-- are fit to select.
use balance_x.Common.Int.{seconds_duration_lem}
use balance_x.Config.Complete.{IsFullService}
use balance_x.Balancer.Router.{new_router}
use balance_x.Balancer.Router.Healthy.{HasBreaker}
use balance_x.Balancer.Algorithm.{SelectsAmong}
use balance_x.Config.{CircuitBreakerConfig, ServiceConfig, LoadBalancerConfig, ServerConfig}
use balance_x.Common.Float.{Float64}
use balance_x.Health.Breaker.{Breaker}
use balance_x.Service.{
  add_breakers, Instance, build_instance, algorithm, instance_with, get_algorithm, select_with,
  breaker_for, AlgorithmState, round_robin_at, least_connections_at, weighted_at, canary_at, starts,
  pos,
}
use balance_x.Common.{
  String, some, true, false, List, ◌≡◌, Among, ℕ, All, ◌⊎◌, ◌∷◌, inl, Bool-cases, map, str_eq, inr,
  ◌∙◌, [], eq_iff, refl, arith, Bool, if◌then◌else◌, suc, ◌≤◌,
}
use balance_x.Common.Dict.{Dict, insert, lookup-insert}
use balance_x.Balancer.RoundRobin.{round_robin, round_robin-SelectsAmong}
use balance_x.Balancer.LeastConn.{least_connections-SelectsAmong, least_connections}
use balance_x.Balancer.Weighted.Best.{weighted_score-SelectsAmong, weighted_score}
use balance_x.Balancer.Canary.Fresh.{new_canary-SelectsAmong}
use balance_x.Balancer.Canary.{new_canary, canary}

either : {A : Type 0} (P : A → Type 0) (b : Bool) (x y : A) → P x → P y → P (if b then x else y)
either P true x y h k = h
either P false x y h k = k

module _ {F : Type 0} ⦃fl : Float64 F⦄ (draws : ℕ → F) where
  abbrev Selects : AlgorithmState → Type 0
  Selects s = SelectsAmong (algorithm {F = F} draws) s

  Selects-round_robin : (n : ℕ) → Selects (round_robin_at n)
  unfolding algorithm select_with round_robin
  Selects-round_robin n c cs stats priority = round_robin-SelectsAmong n c cs stats priority

  Selects-least_connections : Selects least_connections_at
  unfolding algorithm select_with least_connections
  Selects-least_connections c cs stats priority =
      least_connections-SelectsAmong tt c cs stats priority

  Selects-weighted : (n : ℕ) → Selects (weighted_at n)
  unfolding algorithm select_with weighted_score
  Selects-weighted n c cs stats priority = weighted_score-SelectsAmong n draws c cs stats priority

  Selects-canary : Selects (canary_at new_canary)
  unfolding algorithm select_with canary
  Selects-canary c cs stats priority = new_canary-SelectsAmong c cs stats priority

  get_algorithm-SelectsAmong : (name : String) → Selects (get_algorithm name)
  unfolding get_algorithm
  get_algorithm-SelectsAmong name =
      either Selects (str_eq name "roundrobin") _ _ (Selects-round_robin 0) (
        either Selects (str_eq name "leastconn") _ _ Selects-least_connections
          (either Selects (str_eq name "canary") _ _ Selects-canary (Selects-weighted 0)))

HasBreaker-insert :
    (url u : String) (b : Breaker) (d : Dict Breaker)
    → ((url ≡ u) ⊎ HasBreaker d u)
    → HasBreaker (insert url b d) u
HasBreaker-insert url u b d h = elim (Bool-cases (str_eq url u)) [
  | inl e ↦ (b, lookup-insert url u b d ∙ rw e refl)
  | inr e ↦ elim h [
    | inl same ↦ absurd (let t = (eq_iff url u).1 same in ground arith)
    | inr (a, found) ↦ (a, lookup-insert url u b d ∙ rw e found)
  ]
]

-- The breakers are made, those that there were stay, and each URL has one.
add_breakers-HasBreaker :
    (c : CircuitBreakerConfig) (urls : List String) (d : Dict Breaker)
    → (d' : Dict Breaker) × (add_breakers (some c) urls d ≡ some d')
      × ((u : String) → (Among u urls ⊎ HasBreaker d u) → HasBreaker d' u)
unfolding add_breakers
add_breakers-HasBreaker c [] d = (d, refl, λ u h. elim h [ inl at ↦ absurd at | inr k ↦ k ])
add_breakers-HasBreaker c (url ∷ urls) d =
    let (d', e, has) = add_breakers-HasBreaker c urls (insert url (breaker_for c) d) in
    (
      d',
      e,
      λ u h. elim h [
        | inl (inl same) ↦ has u (inr (HasBreaker-insert url u (breaker_for c) d (inl same)))
        | inl (inr at) ↦ has u (inl at)
        | inr k ↦ has u (inr (HasBreaker-insert url u (breaker_for c) d (inr k)))
      ],
    )

All-by-Among :
    (P : String → Type 0) (us : List String) → ((u : String) → Among u us → P u) → All P us
All-by-Among P [] h = tt
All-by-Among P (u ∷ us) h = (h u (inl refl), All-by-Among P us (λ v at. h v (inr at)))

-- Every server's health check has an interval that is positive and that as nanoseconds fits an int64.
abbrev pub IsInterval : ServerConfig → Type 0
IsInterval s = (n : ℕ) × (s.health_check.interval_sec ≡ pos (suc n)) × (suc n ≤ 9223372036)

abbrev pub HasIntervals : ServiceConfig → Type 0
HasIntervals svc = All IsInterval svc.servers

starts-HasIntervals : (ss : List ServerConfig) → All IsInterval ss → starts ss ≡ true
unfolding starts
starts-HasIntervals [] h = refl
starts-HasIntervals (s ∷ ss) ((n, e, fits), rest) =
    rw (e, seconds_duration_lem (suc n) fits, starts-HasIntervals ss rest) (ground arith)

module _ {F : Type 0} ⦃fl : Float64 F⦄ (draws : ℕ → F) where
  -- The router of the instance is fit to select.
  pub record IsReady (inst : Instance F) : Type 0 where
    pub selects : SelectsAmong (algorithm draws) inst.router.algo
    pub wired : All (HasBreaker inst.router.breakers) inst.router.servers
    pub serves : inst.router.servers ≡ map (λ s. s.url) inst.config.servers

  build_instance-full :
      (now : ℕ) (name : String) (svc : ServiceConfig) (b : CircuitBreakerConfig)
      (l : LoadBalancerConfig) (d : Dict Breaker)
      → svc.circuit_breaker ≡ some b
      → svc.load_balancer ≡ some l
      → add_breakers (some b) (map (λ s. s.url) svc.servers) [] ≡ some d
      → starts svc.servers ≡ true
      → build_instance {F = F} now name svc
        ≡ some (instance_with now name svc (if svc.canary then "canary" else l.algorithm) d)
  unfolding build_instance
  build_instance-full now name svc b l d has_b has_l e starting =
      rw (has_l, has_b, e, starting, build_instance) refl

  pub build_instance-IsReady :
      (now : ℕ) (name : String) (svc : ServiceConfig)
      → IsFullService svc
      → HasIntervals svc
      → (inst : Instance F) × (build_instance now name svc ≡ some inst)
        × (inst.config ≡ svc)
        × IsReady inst
  unfolding instance_with new_router
  build_instance-IsReady now name svc full intervals =
      let (d, e, has) = add_breakers-HasBreaker full.1 (map (λ s. s.url) svc.servers) [] in
      (
        instance_with now name svc (if svc.canary then "canary" else (full.2).algorithm) d,
        build_instance-full now name svc full.1 full.2 d full.5 full.8 e
            (starts-HasIntervals svc.servers intervals),
        refl,
        record {
          selects =
              get_algorithm-SelectsAmong draws
                (if svc.canary then "canary" else (full.2).algorithm);
          wired =
              All-by-Among (HasBreaker d) (map (λ s. s.url) svc.servers) (λ u at. has u (inl at));
          serves = refl;
        },
      )
