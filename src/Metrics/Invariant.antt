-- ===== src/Metrics/Invariant.antt =====
-- What holds of every collector that the program can build (internal/metrics/collector.go).
use balance_x.Common.{
  ℕ, suc, ◌+◌, ◌-◌, ◌≤◌, ◌≡◌, inl, inr, Bool, false, String, List, [], ◌∷◌, ◌++◌, length,
  length-append, length-drop, arith, str_eq, Option-cases, Bool-cases,
}
use balance_x.Common.Dict.{
  Dict, lookup, AllValues, AllValues-insert, AllValues-adjust, lookup-adjust,
}
use balance_x.Common.Int.{ℤ}
use balance_x.Common.Float.{Float64}
use balance_x.Metrics.{CircuitEvent, ServerStats, Collector}
use balance_x.Metrics.Recording.{
  new_collector, update, started, record_start, push_latency, ended, record_end, retried,
  record_retry, checked, set_health, push_event, in_state, set_circuit_state, prioritised,
  record_priority, cleared, clear_latencies, snapshot, restored, import_metrics, fresh_stats,
  add_servers, set_algorithm,
}

-- The calls on a collector that change it, but for `ImportMetrics`.
pub data Call (F : Type 0) : Type 0 where
  start : String → Call F
  finish : String → F → Bool → Call F
  retry : String → Call F
  health : String → Bool → String → Call F
  circuit : String → String → String → Call F
  priority : String → String → Call F
  clear : String → Call F

push_event-bounded :
    (e : CircuitEvent) (events : List CircuitEvent) → length (push_event e events) ≤ 50
unfolding push_event
push_event-bounded e events =
    ground (arith, length-drop (length (events ++ e ∷ []) - 50) (events ++ e ∷ []))

pub record IsConsistent {F : Type 0} (s : ServerStats F) : Type 0 where
  pub adds_up : s.total_requests ≡ s.success_count + s.failure_count
  pub windowed : length s.recent_latencies ≤ 100

module _ {F : Type 0} ⦃fl : Float64 F⦄ where
  unfoldable pub step : Call F → Collector F → Collector F
  step (start url) c = record_start url c
  step (finish url latency success) c = record_end url latency success c
  step (retry url) c = record_retry url c
  step (health url healthy clock) c = set_health url healthy clock c
  step (circuit url state clock) c = set_circuit_state url state clock c
  step (priority url p) c = record_priority url p c
  step (clear url) c = clear_latencies url c

  -- The collectors that arise: new ones, those after a call, and those that take over the metrics
  -- of another one.
  pub data Reachable : Collector F → Type 0 where
    created :
        (servers names : List String) (weights : List ℤ) (now : ℕ)
        → Reachable (new_collector servers names weights now)
    called : (k : Call F) (c : Collector F) → Reachable c → Reachable (step k c)
    imported :
        (c old : Collector F)
        → Reachable c
        → Reachable old
        → Reachable (import_metrics (snapshot old) c)
    named : (algo : String) (c : Collector F) → Reachable c → Reachable (set_algorithm algo c)
    -- What a dashboard snapshot leaves.
    timed :
        (now total : ℕ) (c : Collector F)
        → Reachable c
        → Reachable (record c { last_snapshot_time = now; last_total_requests = total })

  push_latency-windowed :
      (x : F) (window : List F) → length window ≤ 100 → length (push_latency x window) ≤ 100
  push_latency-windowed x window h =
      ground (arith, length-append window (x ∷ []), length-drop 1 (window ++ x ∷ []))

  ended-IsConsistent :
      (latency : F) (success : Bool) (s : ServerStats F)
      → IsConsistent s
      → IsConsistent (ended latency success s)
  ended-IsConsistent latency success s v = record {
    adds_up = ground arith;
    windowed = push_latency-windowed latency s.recent_latencies v.windowed;
  }

  -- The servers' statistics are consistent and the event log keeps its limit.
  pub record IsSound (c : Collector F) : Type 0 where
    pub servers_consistent : AllValues IsConsistent c.servers
    pub events_bounded : length c.circuit_events ≤ 50

  add_servers-IsConsistent :
      (names : List String) (weights : List ℤ) (i : ℕ) (urls : List String)
      (m : Dict (ServerStats F))
      → AllValues IsConsistent m
      → AllValues IsConsistent (add_servers names weights i urls m)
  unfolding add_servers fresh_stats
  add_servers-IsConsistent names weights i [] m h = h
  add_servers-IsConsistent names weights i (url ∷ urls) m h =
      add_servers-IsConsistent names weights (suc i) urls _ (
        AllValues-insert IsConsistent url _ m
          (record { adds_up = omega arith; windowed = omega arith }) h)

  import_metrics-IsSound :
      (old : Dict (ServerStats F)) (c : Collector F)
      → AllValues IsConsistent old
      → IsSound c
      → IsSound (import_metrics old c)
  unfolding import_metrics
  import_metrics-IsSound [] c h v = v
  import_metrics-IsSound ((url, old) ∷ rest) c h v = import_metrics-IsSound rest _ h.1 (record {
    servers_consistent =
        AllValues-adjust IsConsistent url (restored old) c.servers
          (λ s w. record { adds_up = h.0.adds_up; windowed = w.windowed }) v.servers_consistent;
    events_bounded = v.events_bounded;
  })

  -- An update of one server's statistics that keeps them consistent keeps the collector sound.
  update-IsSound :
      (url : String) (f : ServerStats F → ServerStats F) (c : Collector F)
      → ((s : ServerStats F) → IsConsistent s → IsConsistent (f s))
      → IsSound c
      → IsSound (update url f c)
  update-IsSound url f c keep v = record {
    servers_consistent = AllValues-adjust IsConsistent url f c.servers keep v.servers_consistent;
    events_bounded = v.events_bounded;
  }

  set_circuit_state-IsSound :
      (url state clock : String) (c : Collector F)
      → IsSound c
      → IsSound (set_circuit_state url state clock c)
  unfolding set_circuit_state
  set_circuit_state-IsSound url state clock c v = elim (Option-cases (lookup url c.servers)) [
    | inl e ↦ rw (e, set_circuit_state) v
    | inr (s, e) ↦
        rw (e, set_circuit_state)
          (elim (Bool-cases (str_eq s.circuit_state state)) [
            | inl same ↦ rw same stored
            | inr new ↦ rw new (record {
              servers_consistent = stored.servers_consistent;
              events_bounded = push_event-bounded _ c.circuit_events;
            })
          ])
  ]
    where
      stored : IsSound (update url (in_state state) c)
      stored =
          update-IsSound url (in_state state) c
            (λ s w. record { adds_up = w.adds_up; windowed = w.windowed }) v

  step-IsSound : (k : Call F) (c : Collector F) → IsSound c → IsSound (step k c)
  unfolding step record_start record_end record_retry set_health record_priority clear_latencies
  step-IsSound (start url) c v =
      update-IsSound url started c (λ s w. record { adds_up = w.adds_up; windowed = w.windowed }) v
  step-IsSound (finish url latency success) c v =
      update-IsSound url (ended latency success) c (ended-IsConsistent latency success) v
  step-IsSound (retry url) c v =
      update-IsSound url retried c (λ s w. record { adds_up = w.adds_up; windowed = w.windowed }) v
  step-IsSound (health url healthy clock) c v =
      update-IsSound url (checked healthy clock) c
        (λ s w. record { adds_up = w.adds_up; windowed = w.windowed }) v
  step-IsSound (circuit url state clock) c v = set_circuit_state-IsSound url state clock c v
  step-IsSound (priority url p) c v =
      update-IsSound url (prioritised p) c
        (λ s w. record { adds_up = ground arith; windowed = ground arith }) v
  step-IsSound (clear url) c v =
      update-IsSound url cleared c (λ s w. record { adds_up = w.adds_up; windowed = omega arith }) v

  -- Of every collector that arises, by any calls and by taking over the metrics of others: each
  -- server's requests are its successes and failures together, its latency window holds at most
  -- 100 samples, and the event log at most 50 events.
  pub Reachable-IsSound : {c : Collector F} → Reachable c → IsSound c
  unfolding new_collector snapshot set_algorithm
  Reachable-IsSound (created servers names weights now) = record {
    servers_consistent = add_servers-IsConsistent names weights 0 servers [] tt;
    events_bounded = omega arith;
  }
  Reachable-IsSound (called k c r) = step-IsSound k c (Reachable-IsSound r)
  Reachable-IsSound (imported c old r s) =
      import_metrics-IsSound _ c (Reachable-IsSound s).servers_consistent (Reachable-IsSound r)
  Reachable-IsSound (named algo c r) =
      let sound = Reachable-IsSound r in
      record {
        servers_consistent = sound.servers_consistent;
        events_bounded = sound.events_bounded;
      }
  Reachable-IsSound (timed now total c r) =
      let sound = Reachable-IsSound r in
      record {
        servers_consistent = sound.servers_consistent;
        events_bounded = sound.events_bounded;
      }

  -- The server that a call is about.
  abbrev pub subject : Call F → String
  subject (start url) = url
  subject (finish url latency success) = url
  subject (retry url) = url
  subject (health url healthy clock) = url
  subject (circuit url state clock) = url
  subject (priority url p) = url
  subject (clear url) = url

  lookup-update :
      (url other : String) (f : ServerStats F → ServerStats F) (c : Collector F)
      → str_eq url other ≡ false
      → lookup other (update url f c).servers ≡ lookup other c.servers
  lookup-update url other f c ne = rw (lookup-adjust url other f c.servers, ne)

  -- A call about one server leaves the statistics of every other server as they were.
  pub lookup-step :
      (k : Call F) (c : Collector F) (other : String)
      → str_eq (subject k) other ≡ false
      → lookup other (step k c).servers ≡ lookup other c.servers
  unfolding step record_start record_end record_retry set_health record_priority clear_latencies
      set_circuit_state
  lookup-step (start url) c other ne = lookup-update url other started c ne
  lookup-step (finish url latency success) c other ne =
      lookup-update url other (ended latency success) c ne
  lookup-step (retry url) c other ne = lookup-update url other retried c ne
  lookup-step (health url healthy clock) c other ne =
      lookup-update url other (checked healthy clock) c ne
  lookup-step (circuit url state clock) c other ne =
      ground (arith, lookup-update url other (in_state state) c ne)
  lookup-step (priority url p) c other ne = lookup-update url other (prioritised p) c ne
  lookup-step (clear url) c other ne = lookup-update url other cleared c ne
