-- ===== src/Health/Monitor.antt =====
-- `check` of internal/health/monitor.go: one health check of one server. `probe` is the status code of
-- the answer, `none` when the request fails. The goroutines that repeat the check are left out.
pub mod Checked
mod Examples
use mathlib.Core.Option
use balance_x.Metrics.Invariant.{lookup-step, circuit, clear, health}
use balance_x.Metrics.Recording.{
  set_health, set_circuit_state, in_state, clear_latencies, checked, cleared,
}
use balance_x.Common.{
  ℕ, ◌+◌, ◌≡◌, refl, ap, sym, ◌∙◌, Bool, true, false, not, ◌&&◌, String, List, [], ◌∷◌, Option,
  none, some, if◌then◌else◌, str_eq, arith, eq_iff, Bool-cases, inl, inr, subst,
}
use balance_x.Common.Dict.{Dict, lookup, insert, lookup-insert, lookup-adjust, adjust}
use balance_x.Common.Int.{ℤ, pos, eq_ℤ}
use balance_x.Common.Float.{Float64}
use balance_x.Config.{ServerConfig}
use balance_x.Health.Breaker.{Breaker, closed, record_success, record_failure, state_name}
use balance_x.Metrics.{ServerStats, Collector}

-- `Monitor`, without its list of servers and its channels.
pub record Monitor (F : Type 0) : Type 0 where
  pub metrics : Collector F
  pub breakers : Dict Breaker

-- The server answered with the status that is expected of it.
unfoldable pub is_up : ServerConfig → Option ℤ → Bool
is_up server none = false
is_up server (some code) = eq_ℤ code server.health_check.expected_status

module _ {F : Type 0} ⦃fl : Float64 F⦄ where
  -- Both branches for a server that is down.
  unfoldable pub mark_down : String → String → String → ℕ → Breaker → Monitor F → Monitor F
  mark_down url checked_at changed_at now b mon =
      let b' = record_failure b now in
      record {
        metrics =
            set_circuit_state url (state_name b') changed_at
              (set_health url false checked_at mon.metrics);
        breakers = insert url b' mon.breakers;
      }

  abbrev pub clear_if : Bool → String → Collector F → Collector F
  clear_if true url m = clear_latencies url m
  clear_if false url m = m

  unfoldable pub mark_up : String → String → String → Breaker → Monitor F → Monitor F
  mark_up url checked_at changed_at b mon =
      let (b', recovered) = record_success b in
      let up = set_health url true checked_at mon.metrics in
      record {
        metrics = set_circuit_state url (state_name b') changed_at (clear_if recovered url up);
        breakers = insert url b' mon.breakers;
      }

  -- `none` is the nil dereference for a server without a breaker.
  unfoldable pub check :
      ServerConfig → Option ℤ → String → String → ℕ → Monitor F → Option (Monitor F)
  check server probe checked_at changed_at now mon =
      Option.map
        (λ b.
          if is_up server probe
          then mark_up server.url checked_at changed_at b mon
          else mark_down server.url checked_at changed_at now b mon)
        (lookup server.url mon.breakers)
