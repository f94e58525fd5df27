-- ===== src/Health/Monitor/Checked.antt =====
-- What one health check of internal/health/monitor.go leaves in the collector and the breaker.
use balance_x.Health.Monitor.{mark_down, mark_up, clear_if, Monitor, check, is_up}
use mathlib.Core.Option
use balance_x.Metrics.Invariant.{lookup-step, circuit, clear, health}
use balance_x.Metrics.Recording.{
  set_health, set_circuit_state, in_state, clear_latencies, checked, cleared,
}
use balance_x.Common.{
  ℕ, ◌≡◌, refl, ap, ◌∙◌, Bool, true, false, ◌&&◌, String, [], Option, some, if◌then◌else◌, str_eq,
  arith,
}
use balance_x.Common.Dict.{
  Dict, lookup, insert, lookup-insert, lookup-adjust_self, lookup-insert_self,
}
use balance_x.Common.Int.{ℤ}
use balance_x.Common.Float.{Float64}
use balance_x.Config.{ServerConfig}
use balance_x.Health.Breaker.{Breaker, record_success, record_failure, state_name}
use balance_x.Metrics.{ServerStats, Collector}

stored-other :
    (url other : String) (b : Breaker) (m : Dict Breaker)
    → str_eq url other ≡ false
    → lookup other (insert url b m) ≡ lookup other m
stored-other url other b m differ = rw (lookup-insert url other b m, differ)

module _ {F : Type 0} ⦃fl : Float64 F⦄ where
  circuit-own :
      (url state clock : String) (s : ServerStats F) (c : Collector F)
      → lookup url c.servers ≡ some s
      → lookup url (set_circuit_state url state clock c).servers ≡ some (in_state state s)
  unfolding set_circuit_state
  circuit-own url state clock s c h =
      let own = lookup-adjust_self url (in_state state) s c.servers h in ground (arith, h, own)

  circuit-other :
      (url other state clock : String) (c : Collector F)
      → str_eq url other ≡ false
      → lookup other (set_circuit_state url state clock c).servers ≡ lookup other c.servers
  unfolding set_circuit_state balance_x.Metrics.Invariant.step
  circuit-other url other state clock c differ =
      lookup-step (circuit url state clock) c other differ

  abbrev cleared_if : Bool → ServerStats F → ServerStats F
  cleared_if true s = cleared s
  cleared_if false s = s

  clear_if-own :
      (recovered : Bool) (url : String) (s : ServerStats F) (c : Collector F)
      → lookup url c.servers ≡ some s
      → lookup url (clear_if recovered url c).servers ≡ some (cleared_if recovered s)
  unfolding clear_latencies
  clear_if-own true url s c h = lookup-adjust_self url cleared s c.servers h
  clear_if-own false url s c h = h

  clear_if-other :
      (recovered : Bool) (url other : String) (c : Collector F)
      → str_eq url other ≡ false
      → lookup other (clear_if recovered url c).servers ≡ lookup other c.servers
  unfolding clear_latencies balance_x.Metrics.Invariant.step
  clear_if-other true url other c differ = lookup-step (clear url) c other differ
  clear_if-other false url other c differ = refl

  cleared_if_lem :
      (recovered : Bool) (s : ServerStats F)
      → ((cleared_if recovered s).is_healthy ≡ s.is_healthy)
        × ((cleared_if recovered s).total_requests ≡ s.total_requests)
        × ((cleared_if recovered s).recent_latencies
            ≡ (if recovered then [] else s.recent_latencies))
  cleared_if_lem true s = (refl, refl, refl)
  cleared_if_lem false s = (refl, refl, refl)

  -- What `check` makes of a monitor in which the server has the breaker `b` and the statistics `s`.
  pub record IsChecked (url : String) (up : Bool) (b b' : Breaker) (s s' : ServerStats F)
      (mon mon' : Monitor F) : Type 0 where
    pub breaker_stored : lookup url mon'.breakers ≡ some b'
    pub stats_stored : lookup url mon'.metrics.servers ≡ some s'
    pub health_shown : s'.is_healthy ≡ up
    pub state_shown : s'.circuit_state ≡ state_name b'
    pub requests_kept : s'.total_requests ≡ s.total_requests
    pub latencies_fresh :
        s'.recent_latencies ≡ (if up && (record_success b).1 then [] else s.recent_latencies)
    pub breakers_kept :
        (other : String)
        → str_eq url other ≡ false
        → lookup other mon'.breakers ≡ lookup other mon.breakers
    pub stats_kept :
        (other : String)
        → str_eq url other ≡ false
        → lookup other mon'.metrics.servers ≡ lookup other mon.metrics.servers

  mark_down-IsChecked :
      (url c₁ c₂ : String) (now : ℕ) (b : Breaker) (s : ServerStats F) (mon : Monitor F)
      → lookup url mon.metrics.servers ≡ some s
      → IsChecked url false b
          (record_failure b now)
          s
          (in_state (state_name (record_failure b now)) (checked false c₁ s))
          mon
          (mark_down url c₁ c₂ now b mon)
  unfolding mark_down set_health balance_x.Metrics.Invariant.step lookup
  mark_down-IsChecked url c₁ c₂ now b s mon h = record {
    breaker_stored = lookup-insert_self url (record_failure b now) mon.breakers;
    stats_stored =
        circuit-own url _ c₂ (checked false c₁ s) (set_health url false c₁ mon.metrics)
          (lookup-adjust_self url (checked false c₁) s mon.metrics.servers h);
    health_shown = refl;
    state_shown = refl;
    requests_kept = refl;
    latencies_fresh = refl;
    breakers_kept =
        λ other differ. stored-other url other (record_failure b now) mon.breakers differ;
    stats_kept = λ other differ.
        circuit-other url other (state_name (record_failure b now)) c₂
          (set_health url false c₁ mon.metrics) differ
        ∙ lookup-step (health url false c₁) mon.metrics other differ;
  }

  mark_up-IsChecked :
      (url c₁ c₂ : String) (b : Breaker) (s : ServerStats F) (mon : Monitor F)
      → lookup url mon.metrics.servers ≡ some s
      → IsChecked url true b
          (record_success b).0
          s
          (in_state
            (state_name (record_success b).0)
            (cleared_if (record_success b).1 (checked true c₁ s)))
          mon
          (mark_up url c₁ c₂ b mon)
  unfolding mark_up set_health balance_x.Metrics.Invariant.step lookup
  mark_up-IsChecked url c₁ c₂ b s mon h =
      let r : Bool = (record_success b).1 in
      let up : Collector F = set_health url true c₁ mon.metrics in
      let kept = cleared_if_lem r (checked true c₁ s) in
      record {
        breaker_stored = lookup-insert_self url (record_success b).0 mon.breakers;
        stats_stored = circuit-own url _ c₂ (cleared_if r (checked true c₁ s)) (clear_if r url up) (
            clear_if-own r url (checked true c₁ s) up
              (lookup-adjust_self url (checked true c₁) s mon.metrics.servers h));
        health_shown = kept.0;
        state_shown = refl;
        requests_kept = kept.1;
        latencies_fresh = kept.2;
        breakers_kept =
            λ other differ. stored-other url other (record_success b).0 mon.breakers differ;
        stats_kept = λ other differ.
            circuit-other url other (state_name (record_success b).0) c₂ (clear_if r url up) differ
            ∙ clear_if-other r url other up differ
            ∙ lookup-step (health url true c₁) mon.metrics other differ;
      }

  check-some :
      (server : ServerConfig) (probe : Option ℤ) (c₁ c₂ : String) (now : ℕ) (b : Breaker)
      (mon : Monitor F)
      → lookup server.url mon.breakers ≡ some b
      → check server probe c₁ c₂ now mon
        ≡ some (
            if is_up server probe
            then mark_up server.url c₁ c₂ b mon
            else mark_down server.url c₁ c₂ now b mon)
  unfolding check
  check-some server probe c₁ c₂ now b mon h = ap (Option.map _) h

  -- The statistics that `check` leaves.
  abbrev outcome : Bool → String → ℕ → Breaker → ServerStats F → ServerStats F
  outcome true c₁ now b s =
      in_state (state_name (record_success b).0)
        (cleared_if (record_success b).1 (checked true c₁ s))
  outcome false c₁ now b s = in_state (state_name (record_failure b now)) (checked false c₁ s)

  either-IsChecked :
      (up : Bool) (url c₁ c₂ : String) (now : ℕ) (b : Breaker) (s : ServerStats F) (mon : Monitor F)
      → lookup url mon.metrics.servers ≡ some s
      → IsChecked url up b
          (if up then (record_success b).0 else record_failure b now)
          s
          (outcome up c₁ now b s)
          mon
          (if up then mark_up url c₁ c₂ b mon else mark_down url c₁ c₂ now b mon)
  either-IsChecked true url c₁ c₂ now b s mon k = mark_up-IsChecked url c₁ c₂ b s mon k
  either-IsChecked false url c₁ c₂ now b s mon k = mark_down-IsChecked url c₁ c₂ now b s mon k

  -- For a server with a breaker and statistics, `check` succeeds. Afterwards its breaker has recorded
  -- a success or a failure as the server is up (it answered with the expected status) or not, its
  -- statistics show that health and the name of its breaker's state, its requests are as before, its
  -- latencies are cleared when it is up and the breaker was not closed and else as before, and the
  -- breakers and statistics of servers with another URL are untouched.
  pub check-IsChecked :
      (server : ServerConfig) (probe : Option ℤ) (c₁ c₂ : String) (now : ℕ) (b : Breaker)
      (s : ServerStats F) (mon : Monitor F)
      → lookup server.url mon.breakers ≡ some b
      → lookup server.url mon.metrics.servers ≡ some s
      → (mon' : Monitor F) × (s' : ServerStats F) × (check server probe c₁ c₂ now mon ≡ some mon')
        × IsChecked server.url
            (is_up server probe)
            b
            (if is_up server probe then (record_success b).0 else record_failure b now)
            s
            s'
            mon
            mon'
  check-IsChecked server probe c₁ c₂ now b s mon h k = (
    _,
    outcome (is_up server probe) c₁ now b s,
    check-some server probe c₁ c₂ now b mon h,
    either-IsChecked (is_up server probe) server.url c₁ c₂ now b s mon k,
  )
