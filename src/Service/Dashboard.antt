-- ===== src/Service/Dashboard.antt =====
-- `GlobalCollector`, `DashboardSnap`, `ImportMetrics` and `Stop` of internal/service/manager.go.
use balance_x.Metrics.Invariant.{IsConsistent, Reachable, Reachable-IsSound}
use balance_x.Metrics.Dashboard.{count_totals, dashboard_snap, success_rate}
use balance_x.Metrics.Recording.{import_metrics, set_algorithm, snapshot, new_collector}
use balance_x.Config.{ServerConfig}
use balance_x.Common.Int.{ℤ}
use balance_x.Service.{Manager, Instance}
use balance_x.Common.Float.{Float64, float_zero}
use balance_x.Metrics.{ServerStats, CircuitEvent, Collector, DashboardSnapshot}
use balance_x.Metrics.Dashboard.{dashboard_snap, count_totals, count_totals-bounds}
use balance_x.Common.{
  String, none, some, List, ℕ, map, [], Option, false, if◌then◌else◌, ◌∷◌, ◌++◌, ltb, length, drop,
  ◌-◌, ◌≤◌, length-drop, arith,
}
use balance_x.Common.Dict.{Dict, lookup, insert, contains, AllValues, AllValues-insert}

-- `allURLs`, `allNames` and `allWeights`.
pub record Servers : Type 0 where
  pub urls : List String
  pub names : List String
  pub weights : List ℤ

-- The inner loop of `GlobalCollector`, where `seen` holds the URLs met.
unfoldable pub gather_servers : List ServerConfig → List String → Servers → List String × Servers
gather_servers [] seen all = (seen, all)
gather_servers (s ∷ ss) seen all =
    if contains s.url seen
    then gather_servers ss seen all
    else gather_servers ss (s.url ∷ seen) (record {
      urls = all.urls ++ s.url ∷ [];
      names = all.names ++ s.name ∷ [];
      weights = all.weights ++ s.weight ∷ [];
    })

module _ {F : Type 0} where
  unfoldable pub gather : Dict (Instance F) → List String → Servers → Servers
  unfolding gather_servers
  gather [] seen all = all
  gather ((name, inst) ∷ rest) seen all =
      let r = gather_servers inst.config.servers seen all in gather rest r.0 r.1

  -- `allServers[url] = stats` for each.
  unfoldable pub merge : Dict (ServerStats F) → Dict (ServerStats F) → Dict (ServerStats F)
  merge [] all = all
  merge ((url, s) ∷ rest) all = merge rest (insert url s all)

  unfoldable pub stop : Manager F → Manager F
  stop m = record m { instances = map (λ e. (e.0, record e.1 { running = false })) m.instances }

-- What the loop over the instances adds up.
pub record Sums (F : Type 0) : Type 0 where
  pub all_servers : Dict (ServerStats F)
  pub all_events : List CircuitEvent
  pub total_rps : F

-- The last 50 events.
unfoldable pub last_events : List CircuitEvent → List CircuitEvent
last_events events = if ltb 50 (length events) then drop (length events - 50) events else events

last_events-bounded : (events : List CircuitEvent) → length (last_events events) ≤ 50
unfolding last_events
last_events-bounded events = let e = length-drop (length events - 50) events in ground arith

module _ {F : Type 0} ⦃fl : Float64 F⦄ where
  unfoldable pub global_collector : ℕ → Manager F → Collector F
  unfolding gather
  global_collector now m =
      let all = gather m.instances [] (record { urls = []; names = []; weights = [] }) in
      set_algorithm m.cfg.algorithm (new_collector all.urls all.names all.weights now)

  unfoldable pub snap_all : ℕ → Dict (Instance F) → Sums F → Dict (Instance F) × Sums F
  unfolding merge
  snap_all now [] sums = ([], sums)
  snap_all now ((name, inst) ∷ rest) sums =
      let r = dashboard_snap now inst.router.metrics in
      let later = snap_all now rest (record {
        all_servers = merge r.1.servers sums.all_servers;
        all_events = sums.all_events ++ r.1.circuit_events;
        total_rps = fl.add sums.total_rps r.1.global_rps;
      }) in
      ((name, record inst { router = record inst.router { metrics = r.0 } }) ∷ later.0, later.1)

  abbrev pub no_sums : Sums F
  no_sums = record { all_servers = []; all_events = []; total_rps = float_zero }

  unfoldable pub manager_snap : ℕ → Manager F → Manager F × DashboardSnapshot F
  unfolding snap_all last_events
  manager_snap now m =
      let r = snap_all now m.instances no_sums in
      let t = count_totals r.1.all_servers in
      (
        record m { instances = r.0 },
        record {
          servers = r.1.all_servers;
          global_rps = r.1.total_rps;
          total_requests = t.requests;
          success_rate = success_rate t;
          healthy_count = t.healthy;
          total_count = length r.1.all_servers;
          algorithm = m.cfg.algorithm;
          circuit_events = last_events r.1.all_events;
        },
      )

  -- The statistics of the service of the same name, if the old manager had it.
  unfoldable pub import_one : Manager F → String → Instance F → Instance F
  import_one old name inst = elim (lookup name old.instances) [
    | some o ↦ record inst {
      router = record inst.router {
        metrics = import_metrics (snapshot o.router.metrics) inst.router.metrics;
      };
    }
    | none ↦ inst
  ]

  unfoldable pub import_from : Option (Manager F) → Manager F → Manager F
  unfolding import_one
  import_from none m = m
  import_from (some old) m = record m {
    instances = map (λ e. (e.0, import_one old e.0 e.1)) m.instances;
  }

  merge-AllValues :
      (P : ServerStats F → Type 0) (more all : Dict (ServerStats F))
      → AllValues P more
      → AllValues P all
      → AllValues P (merge more all)
  unfolding merge
  merge-AllValues P [] all h k = k
  merge-AllValues P ((url, s) ∷ rest) all h k =
      merge-AllValues P rest (insert url s all) h.1 (AllValues-insert P url s all h.0 k)

  -- Each collector arises from the operations of the program.
  abbrev pub AllReachable : Dict (Instance F) → Type 0
  AllReachable m = AllValues (λ inst. Reachable inst.router.metrics) m

  snap_all-IsConsistent :
      (now : ℕ) (m : Dict (Instance F)) (sums : Sums F)
      → AllReachable m
      → AllValues IsConsistent sums.all_servers
      → AllValues IsConsistent (snap_all now m sums).1.all_servers
  unfolding snap_all dashboard_snap
  snap_all-IsConsistent now [] sums h k = k
  snap_all-IsConsistent now ((name, inst) ∷ rest) sums h k = snap_all-IsConsistent now rest _ h.1 (
      merge-AllValues IsConsistent inst.router.metrics.servers sums.all_servers
        (Reachable-IsSound h.0).servers_consistent k)

  -- A snapshot of the whole manager, whose collectors arise from the operations of the program, counts
  -- no more healthy servers than servers and no more successes than requests, and shows at most 50
  -- circuit events.
  pub manager_snap-bounds :
      (now : ℕ) (m : Manager F)
      → AllReachable m.instances
      → let snap = (manager_snap now m).1 in
        (snap.healthy_count ≤ snap.total_count)
        × ((count_totals snap.servers).successes ≤ snap.total_requests)
        × (length snap.circuit_events ≤ 50)
  unfolding manager_snap
  manager_snap-bounds now m h =
      let r = snap_all now m.instances no_sums in
      let bounds =
        count_totals-bounds r.1.all_servers (snap_all-IsConsistent now m.instances no_sums h tt) in
      (bounds.1, bounds.0, last_events-bounded r.1.all_events)
