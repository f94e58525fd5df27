-- ===== src/Metrics/Recording.antt =====
-- internal/metrics/collector.go: the constructor and the methods that record. Each runs under the
-- collector's mutex, so it is one atomic step. A method that finds no server changes nothing.
use balance_x.Common.{
  ℕ, suc, ◌+◌, ◌-◌, Bool, true, String, List, [], ◌∷◌, ◌++◌, length, get_elem?, drop, none, some,
  ltb, str_eq, if◌then◌else◌,
}
use mathlib.Core.List.{foldl}
use balance_x.Common.Dict.{Dict, lookup, insert, adjust}
use balance_x.Common.Int.{ℤ, pos, ltb_ℤ}
use balance_x.Common.Float.{Float64, float_zero}
use balance_x.Metrics.Percentile.{compute_p95}
use balance_x.Metrics.{CircuitEvent, ServerStats, Collector}

abbrev pub max_latencies : ℕ
max_latencies = 100

abbrev pub max_events : ℕ
max_events = 50

-- `names[i]` if `i < len(names)`, else the URL.
unfoldable pub server_name : List String → ℕ → String → String
server_name names i url = elim (get_elem? names i) [ some n ↦ n | none ↦ url ]

-- `weights[i]` if it is there and positive, else 1.
unfoldable pub server_weight : List ℤ → ℕ → ℤ
server_weight weights i = elim (get_elem? weights i) [
  | some w ↦ if ltb_ℤ (pos 0) w then w else pos 1
  | none ↦ pos 1
]

-- The log keeps its last `max_events` events.
unfoldable pub push_event : CircuitEvent → List CircuitEvent → List CircuitEvent
push_event e events =
    let grown = events ++ e ∷ [] in
    if ltb max_events (length grown) then drop (length grown - max_events) grown else grown

module _ {F : Type 0} where
  unfoldable pub get_name : String → Collector F → String
  get_name url c = elim (lookup url c.servers) [ some s ↦ s.name | none ↦ url ]

  -- A copy of the statistics: the values themselves.
  unfoldable pub snapshot : Collector F → Dict (ServerStats F)
  snapshot c = c.servers

module _ {F : Type 0} ⦃fl : Float64 F⦄ where
  unfoldable pub fresh_stats : String → String → ℤ → ServerStats F
  fresh_stats name url weight = record {
    name = name;
    url = url;
    weight = weight;
    is_healthy = true;
    avg_latency_ms = float_zero;
    p95_latency_ms = float_zero;
    active_connections = 0;
    total_requests = 0;
    success_count = 0;
    failure_count = 0;
    retry_count = 0;
    circuit_state = "CLOSED";
    high_priority_count = 0;
    low_priority_count = 0;
    last_checked = "";
    recent_latencies = [];
  }

  -- The loop of `New`, at index `i`.
  unfoldable pub add_servers :
      List String → List ℤ → ℕ → List String → Dict (ServerStats F) → Dict (ServerStats F)
  unfolding server_name server_weight fresh_stats
  add_servers names weights i [] m = m
  add_servers names weights i (url ∷ urls) m =
      add_servers names weights (suc i) urls
        (insert url (fresh_stats (server_name names i url) url (server_weight weights i)) m)

  -- `New`.
  unfoldable pub new_collector : List String → List String → List ℤ → ℕ → Collector F
  unfolding add_servers
  new_collector servers names weights now = record {
    servers = add_servers names weights 0 servers [];
    last_snapshot_time = now;
    last_total_requests = 0;
    circuit_events = [];
    algorithm = "";
  }

  unfoldable pub set_algorithm : String → Collector F → Collector F
  set_algorithm algo c = record c { algorithm = algo }

  abbrev pub update : String → (ServerStats F → ServerStats F) → Collector F → Collector F
  update url f c = record c { servers = adjust url f c.servers }

  abbrev pub started : ServerStats F → ServerStats F
  started s = record s { active_connections = s.active_connections + 1 }

  unfoldable pub record_start : String → Collector F → Collector F
  record_start url c = update url started c

  -- The rolling window after one more sample.
  abbrev pub push_latency : F → List F → List F
  push_latency x window =
      let grown = window ++ x ∷ [] in
      if ltb max_latencies (length grown) then drop 1 grown else grown

  abbrev pub mean : List F → F
  mean window = fl.quot (foldl fl.add float_zero window) (fl.of_int (pos (length window)))

  -- The count of connections stops at 0, as `-` does.
  abbrev pub ended : F → Bool → ServerStats F → ServerStats F
  ended latency_ms success s =
      let window = push_latency latency_ms s.recent_latencies in
      record s {
        active_connections = s.active_connections - 1;
        total_requests = s.total_requests + 1;
        recent_latencies = window;
        avg_latency_ms = mean window;
        p95_latency_ms = compute_p95 window;
        success_count = if success then s.success_count + 1 else s.success_count;
        failure_count = if success then s.failure_count else s.failure_count + 1;
      }

  unfoldable pub record_end : String → F → Bool → Collector F → Collector F
  record_end url latency_ms success c = update url (ended latency_ms success) c

  abbrev pub retried : ServerStats F → ServerStats F
  retried s = record s { retry_count = s.retry_count + 1 }

  unfoldable pub record_retry : String → Collector F → Collector F
  record_retry url c = update url retried c

  abbrev pub checked : Bool → String → ServerStats F → ServerStats F
  checked healthy clock s = record s { is_healthy = healthy; last_checked = clock }

  unfoldable pub set_health : String → Bool → String → Collector F → Collector F
  set_health url healthy clock c = update url (checked healthy clock) c

  abbrev pub in_state : String → ServerStats F → ServerStats F
  in_state state s = record s { circuit_state = state }

  abbrev pub transition : String → String → String → ServerStats F → CircuitEvent
  transition url state clock s = record {
    server_name = s.name;
    server_url = url;
    old_state = s.circuit_state;
    new_state = state;
    timestamp = clock;
  }

  unfoldable pub set_circuit_state : String → String → String → Collector F → Collector F
  set_circuit_state url state clock c = elim (lookup url c.servers) [
    | none ↦ c
    | some s ↦
        let stored = update url (in_state state) c in
        if str_eq s.circuit_state state then stored else record stored {
          circuit_events = push_event (transition url state clock s) c.circuit_events;
        }
  ]

  abbrev pub prioritised : String → ServerStats F → ServerStats F
  prioritised priority s =
      if str_eq priority "HIGH"
      then record s { high_priority_count = s.high_priority_count + 1 }
      else record s { low_priority_count = s.low_priority_count + 1 }

  unfoldable pub record_priority : String → String → Collector F → Collector F
  record_priority url priority c = update url (prioritised priority) c

  abbrev pub cleared : ServerStats F → ServerStats F
  cleared s = record s {
    recent_latencies = [];
    avg_latency_ms = float_zero;
    p95_latency_ms = float_zero;
  }

  unfoldable pub clear_latencies : String → Collector F → Collector F
  clear_latencies url c = update url cleared c

  abbrev pub restored : ServerStats F → ServerStats F → ServerStats F
  restored old s = record s {
    total_requests = old.total_requests;
    success_count = old.success_count;
    failure_count = old.failure_count;
    retry_count = old.retry_count;
    high_priority_count = old.high_priority_count;
    low_priority_count = old.low_priority_count;
    avg_latency_ms = old.avg_latency_ms;
    p95_latency_ms = old.p95_latency_ms;
  }

  unfoldable pub import_metrics : Dict (ServerStats F) → Collector F → Collector F
  import_metrics [] c = c
  import_metrics ((url, old) ∷ rest) c = import_metrics rest (update url (restored old) c)
