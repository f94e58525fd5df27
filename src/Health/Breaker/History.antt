-- ===== src/Health/Breaker/History.antt =====
-- What internal/health/breaker.go promises of a whole history of calls: the state is a function of
-- the calls so far, described without the breaker's fields.
use balance_x.Common.{
  ℕ, suc, ◌+◌, ◌<◌, ◌≡◌, Bool, false, ◌||◌, List, [], ◌∷◌, arith, ltb, leb, if◌then◌else◌,
}
use balance_x.Health.Breaker.{
  State, closed, open_, half_open, Breaker, new_breaker, can_send, record_success, record_failure,
}

-- The calls that may change a breaker, with the clock readings that they take.
pub data Call : Type 0 where
  sends fails : ℕ → Call
  succeeds : Call

unfoldable pub step : Call → Breaker → Breaker
step (sends now) b = (can_send b now).0
step (fails now) b = record_failure b now
step succeeds b = (record_success b).0

-- The newest call stands first.
unfoldable pub run : Breaker → List Call → Breaker
unfolding step
run b [] = b
run b (c ∷ older) = step c (run b older)

-- The failures since the last success.
unfoldable pub streak : List Call → ℕ
streak [] = 0
streak (sends now ∷ older) = streak older
streak (fails now ∷ older) = suc (streak older)
streak (succeeds ∷ older) = 0

-- The time of the last failure.
unfoldable pub last_failure : List Call → ℕ
last_failure [] = 0
last_failure (fails now ∷ older) = now
last_failure (sends now ∷ older) = last_failure older
last_failure (succeeds ∷ older) = last_failure older

-- Whether a request was let through after the recovery timeout of the last failure.
unfoldable pub probed : ℕ → List Call → Bool
unfolding last_failure
probed timeout [] = false
probed timeout (fails now ∷ older) = false
probed timeout (sends now ∷ older) = ltb (last_failure older + timeout) now || probed timeout older
probed timeout (succeeds ∷ older) = false

unfoldable pub state_after : ℕ → ℕ → List Call → State
unfolding streak probed
state_after threshold timeout calls =
    if leb threshold (streak calls)
    then (if probed timeout calls then half_open else open_)
    else closed

pub record Agrees (threshold timeout : ℕ) (calls : List Call) (b : Breaker) : Type 0 where
  pub threshold_kept : b.threshold ≡ threshold
  pub timeout_kept : b.recovery_timeout ≡ timeout
  pub counts_streak : b.failure_count ≡ streak calls
  pub remembers_failure : b.last_failure_time ≡ last_failure calls
  pub state_known : b.state ≡ state_after threshold timeout calls

module _ (threshold timeout : ℕ) (positive : 0 < threshold) where
  step-Agrees :
      (c : Call) (calls : List Call) (b : Breaker)
      → Agrees threshold timeout calls b
      → Agrees threshold timeout (c ∷ calls) (step c b)
  unfolding step state_after can_send record_failure record_success
  step-Agrees (sends now) calls b v = ground arith
  step-Agrees (fails now) calls b v = ground arith
  step-Agrees succeeds calls b v = ground arith

  -- For a positive threshold, after any history of calls on a new breaker the failure count is the
  -- number of failures since the last success, and the breaker is closed, open or half-open as
  -- that number, the last failure's time and the later requests say.
  pub run-Agrees :
      (calls : List Call)
      → Agrees threshold timeout calls (run (new_breaker threshold timeout) calls)
  unfolding run new_breaker streak last_failure state_after
  run-Agrees [] = ground arith
  run-Agrees (c ∷ older) = step-Agrees c older _ (run-Agrees older)
