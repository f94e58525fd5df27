-- ===== src/Health/Breaker.antt =====
-- internal/health/breaker.go. The mutex makes each method one atomic step, so a method is a
-- function of the breaker and of the clock reading `now` that it takes; times and durations are
-- nanoseconds, and the zero `time.Time` is 0.
pub mod History
pub mod Gate
mod Examples
use balance_x.Common.{ℕ, ◌+◌, ◌-◌, Bool, true, false, ◌||◌, not, String, ltb, leb, if◌then◌else◌}

pub data State : Type 0 where
  closed open_ half_open : State

unfoldable pub state_string : State → String
state_string closed = "CLOSED"
state_string open_ = "OPEN"
state_string half_open = "HALF_OPEN"

abbrev pub is_closed : State → Bool
is_closed closed = true
is_closed _ = false

abbrev pub is_half_open : State → Bool
is_half_open half_open = true
is_half_open _ = false

pub record Breaker : Type 0 where
  pub state : State
  pub failure_count : ℕ
  pub threshold : ℕ
  pub recovery_timeout : ℕ
  pub last_failure_time : ℕ

unfoldable pub new_breaker : ℕ → ℕ → Breaker
new_breaker threshold recovery_timeout = record {
  state = closed;
  failure_count = 0;
  threshold = threshold;
  recovery_timeout = recovery_timeout;
  last_failure_time = 0;
}

-- `time.Since(b.lastFailureTime)` at the reading `now`.
abbrev pub since_failure : Breaker → ℕ → ℕ
since_failure b now = now - b.last_failure_time

open_at : State → Breaker → ℕ → Bool
open_at open_ b now = leb (since_failure b now) b.recovery_timeout
open_at _ b now = false

unfoldable pub is_open : Breaker → ℕ → Bool
unfolding open_at
is_open b now = open_at b.state b now

send_at : State → Breaker → ℕ → Breaker × Bool
send_at closed b now = (b, true)
send_at open_ b now =
    if ltb b.recovery_timeout (since_failure b now)
    then (record b { state = half_open }, true)
    else (b, false)
send_at half_open b now = (b, true)

unfoldable pub can_send : Breaker → ℕ → Breaker × Bool
unfolding send_at
can_send b now = send_at b.state b now

unfoldable pub record_success : Breaker → Breaker × Bool
record_success b = (record b { failure_count = 0; state = closed }, not (is_closed b.state))

unfoldable pub record_failure : Breaker → ℕ → Breaker
record_failure b now =
    let counted = record b { failure_count = b.failure_count + 1; last_failure_time = now } in
    if leb b.threshold (b.failure_count + 1) || is_half_open b.state
    then record counted { state = open_ }
    else counted

-- The method `State`.
unfoldable pub state_name : Breaker → String
unfolding state_string
state_name b = state_string b.state
