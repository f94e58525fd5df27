-- ===== src/Metrics/Dashboard.antt =====
-- `DashboardSnap` and `CircuitEvents` of internal/metrics/collector.go. The order in which Go walks
-- a map is the order of the list; the sums do not depend on it.
pub mod Rates
use balance_x.Common.{
  ℕ, ◌+◌, ◌-◌, ◌/◌, ◌%◌, ◌≤◌, ◌≡◌, refl, List, [], ◌∷◌, length, arith, ltb, if◌then◌else◌,
}
use balance_x.Common.Dict.{Dict, AllValues}
use balance_x.Common.Int.{pos, sub_ℕ}
use balance_x.Common.Float.{Float64, float_zero, lt_float}
use balance_x.Metrics.{CircuitEvent, ServerStats, Collector, DashboardSnapshot}
use balance_x.Metrics.Invariant.{IsConsistent, Reachable, Reachable-IsSound}

-- `totalReq`, `totalOK` and `healthyCount`.
pub record Totals : Type 0 where
  pub requests : ℕ
  pub successes : ℕ
  pub healthy : ℕ

module _ {F : Type 0} where
  unfoldable pub count_totals : Dict (ServerStats F) → Totals
  count_totals [] = record { requests = 0; successes = 0; healthy = 0 }
  count_totals ((url, s) ∷ rest) =
      let t = count_totals rest in
      record {
        requests = s.total_requests + t.requests;
        successes = s.success_count + t.successes;
        healthy = if s.is_healthy then t.healthy + 1 else t.healthy;
      }

module _ {F : Type 0} ⦃fl : Float64 F⦄ where
  -- `Duration.Seconds`.
  unfoldable pub seconds : ℕ → F
  seconds d =
      fl.add (fl.of_int (pos (d / 1000000000)))
        (fl.quot (fl.of_int (pos (d % 1000000000))) (fl.of_int (pos 1000000000)))

  unfoldable pub success_rate : Totals → F
  success_rate t =
      if ltb 0 t.requests
      then fl.mul (fl.quot (fl.of_int (pos t.successes)) (fl.of_int (pos t.requests)))
          (fl.of_int (pos 100))
      else float_zero

  unfoldable pub requests_per_second : Collector F → ℕ → ℕ → F
  unfolding seconds
  requests_per_second c total now =
      let elapsed = seconds (now - c.last_snapshot_time) in
      if lt_float float_zero elapsed
      then fl.quot (fl.of_int (sub_ℕ total c.last_total_requests)) elapsed
      else float_zero

  unfoldable pub dashboard_snap : ℕ → Collector F → Collector F × DashboardSnapshot F
  unfolding count_totals requests_per_second success_rate
  dashboard_snap now c =
      let t = count_totals c.servers in
      (
        record c { last_snapshot_time = now; last_total_requests = t.requests },
        record {
          servers = c.servers;
          global_rps = requests_per_second c t.requests now;
          total_requests = t.requests;
          success_rate = success_rate t;
          healthy_count = t.healthy;
          total_count = length c.servers;
          algorithm = c.algorithm;
          circuit_events = c.circuit_events;
        },
      )

  unfoldable pub circuit_events : Collector F → List CircuitEvent
  circuit_events c = c.circuit_events

  pub count_totals-bounds :
      (m : Dict (ServerStats F))
      → AllValues IsConsistent m
      → ((count_totals m).successes ≤ (count_totals m).requests)
        × ((count_totals m).healthy ≤ length m)
  unfolding count_totals
  count_totals-bounds [] h = (omega arith, omega arith)
  count_totals-bounds ((url, s) ∷ rest) h =
      let ih = count_totals-bounds rest h.1 in
      (omega (arith, h.0.adds_up, ih), ground (arith, ih.1))
