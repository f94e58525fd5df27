-- ===== src/Metrics.antt =====
-- internal/metrics/collector.go: the data. A map of pointers to `ServerStats` is a dictionary whose
-- values are replaced; counters do not wrap; `clock` is the text of the time of day.
pub mod Recording
pub mod Invariant
pub mod Dashboard
mod Examples
pub mod Percentile
use balance_x.Common.{ℕ, suc, ◌+◌, ◌≤◌, ◌≡◌, Bool, true, String, List, [], ◌∷◌, length, Option}
use balance_x.Common.Dict.{Dict}
use balance_x.Common.Int.{ℤ}

pub record CircuitEvent : Type 0 where
  pub server_name : String
  pub server_url : String
  pub old_state : String
  pub new_state : String
  pub timestamp : String

pub record ServerStats (F : Type 0) : Type 0 where
  pub name : String
  pub url : String
  pub weight : ℤ
  pub is_healthy : Bool
  pub avg_latency_ms : F
  pub p95_latency_ms : F
  pub active_connections : ℕ
  pub total_requests : ℕ
  pub success_count : ℕ
  pub failure_count : ℕ
  pub retry_count : ℕ
  pub circuit_state : String
  pub high_priority_count : ℕ
  pub low_priority_count : ℕ
  pub last_checked : String
  pub recent_latencies : List F

pub record DashboardSnapshot (F : Type 0) : Type 0 where
  pub servers : Dict (ServerStats F)
  pub global_rps : F
  pub total_requests : ℕ
  pub success_rate : F
  pub healthy_count : ℕ
  pub total_count : ℕ
  pub algorithm : String
  pub circuit_events : List CircuitEvent

-- `last_snapshot_time` is in nanoseconds.
pub record Collector (F : Type 0) : Type 0 where
  pub servers : Dict (ServerStats F)
  pub last_snapshot_time : ℕ
  pub last_total_requests : ℕ
  pub circuit_events : List CircuitEvent
  pub algorithm : String
