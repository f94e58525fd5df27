-- ===== src/Metrics/Examples.antt =====
-- The theorems on internal/metrics/collector.go at a concrete collector, over fixed-point numbers.
use balance_x.Common.{◌≡◌, ◌≤◌, refl, true, false, List, [], ◌∷◌, length, arith, String, Bool, ◌+◌}
use balance_x.Common.Int.{pos}
use balance_x.Common.Float.{Float64, Fixed, fixed}
use balance_x.Metrics.{ServerStats, Collector}
use balance_x.Metrics.Percentile.{compute_p95, IsPercentile95, compute_p95-IsPercentile95}
use balance_x.Metrics.Recording.{new_collector, snapshot, import_metrics}
use balance_x.Metrics.Invariant.{
  start, finish, circuit, step, Reachable, created, called, imported, IsSound, Reachable-IsSound,
}
use balance_x.Metrics.Dashboard.{dashboard_snap, seconds}
use balance_x.Metrics.Dashboard.Rates.{dashboard_snap_lem, end_all, IsRate, sum_of, known_ends}

instance abbrev fixed_floats : Float64 Fixed
unfolding fixed
fixed_floats = fixed

abbrev latencies : List Fixed
latencies = pos 30 ∷ pos 10 ∷ pos 20 ∷ []

compute_p95_run : compute_p95 latencies ≡ pos 30
unfolding compute_p95 fixed balance_x.Metrics.Percentile.p95_index
compute_p95_run = refl

compute_p95-IsPercentile95_example : IsPercentile95 (compute_p95 latencies) latencies
compute_p95-IsPercentile95_example = compute_p95-IsPercentile95 latencies (omega arith)

abbrev two_servers : Collector Fixed
two_servers = new_collector ("a" ∷ "b" ∷ []) ("A" ∷ []) (pos 3 ∷ []) 7

-- One request to each server, a trip of the second, and a reload.
served : Collector Fixed
served = step (circuit "b" "OPEN" "12:00:00") (
    step (finish "b" (pos 50) false)
      (step (start "b") (step (finish "a" (pos 20) true) (step (start "a") two_servers))))

served-Reachable : Reachable served
unfolding served
served-Reachable = called _ _ (called _ _ (called _ _ (called _ _ (called _ _ (created _ _ _ 7)))))

Reachable-IsSound_example : IsSound (import_metrics (snapshot served) two_servers)
Reachable-IsSound_example =
    Reachable-IsSound (imported two_servers served (created _ _ _ 7) served-Reachable)

-- One request more at each server, and one at a server that there is not.
abbrev more_ends : List (String × Fixed × Bool)
more_ends = ("a", pos 10, true) ∷ ("b", pos 20, false) ∷ ("c", pos 30, true) ∷ []

dashboard_snap_lem_example :
    let first = dashboard_snap 9 served in
    let second = dashboard_snap 2000000009 (end_all more_ends first.0) in
    (first.1.healthy_count ≡ 2)
    × (first.1.total_requests ≡ 2)
    × IsRate 1 1 first.1.success_rate
    × (second.1.total_requests ≡ first.1.total_requests + 2)
    × (second.1.global_rps ≡ pos 10000)
unfolding served sum_of known_ends seconds fixed balance_x.Common.Int.◌+ℤ◌ dashboard_snap step
    balance_x.Metrics.Recording.set_circuit_state balance_x.Common.Dict.lookup
    balance_x.Metrics.Recording.record_end balance_x.Common.Dict.adjust
    balance_x.Metrics.Recording.record_start new_collector balance_x.Common.Dict.insert
dashboard_snap_lem_example = dashboard_snap_lem 9 2000000009 served more_ends served-Reachable refl
