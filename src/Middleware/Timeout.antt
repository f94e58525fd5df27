-- ===== src/Middleware/Timeout.antt =====
-- `NewPriorityTimeout` of internal/middleware/timeout.go: the timeout, in nanoseconds, that the context of
-- a request gets. What the deadline does to the request is left out.
use balance_x.Common.{
  ℕ, zero, suc, ◌≡◌, sym, ◌∙◌, ◌<◌, ◌≢◌, ◌⊎◌, String, str_eq, if◌then◌else◌, inl, inr, ◌<◌, arith,
  ◌⊎◌, ◌≢◌, ◌≤◌, ◌*◌,
}
use balance_x.Common.Int.{ℤ, pos, negsuc, pos_part, seconds_duration, seconds_duration_lem}
use balance_x.Priority.{classify, classify_lem, low-ne-high}

-- `if sec <= 0 { sec = d }`.
unfoldable pub seconds_or : ℤ → ℕ → ℕ
seconds_or (pos zero) d = d
seconds_or (pos (suc n)) d = suc n
seconds_or (negsuc n) d = d

-- The durations, and the `switch` on the priority.
unfoldable pub timeout_for : ℤ → ℤ → ℤ → String → ℤ
unfolding seconds_or
timeout_for high medium low pri =
    let high_timeout = seconds_duration (pos (seconds_or high 5)) in
    let medium_timeout = seconds_duration (pos (seconds_or medium 10)) in
    let low_timeout = seconds_duration (pos (seconds_or low 20)) in
    if str_eq pri "HIGH"
    then high_timeout
    else if str_eq pri "MEDIUM"
    then medium_timeout
    else low_timeout

unfoldable pub priority_timeout : ℤ → ℤ → ℤ → String → String → ℤ
priority_timeout high medium low path header = timeout_for high medium low (classify path header)

seconds_positive : (x : ℤ) (d : ℕ) → 0 < d → 0 < seconds_or x d
unfolding seconds_or
seconds_positive (pos zero) d h = h
seconds_positive (pos (suc n)) d h = omega arith
seconds_positive (negsuc n) d h = h

seconds_bounded : (x : ℤ) (d : ℕ) → pos_part x ≤ 9223372036 → d ≤ 20 → seconds_or x d ≤ 9223372036
unfolding seconds_or
seconds_bounded (pos zero) d h k = omega arith
seconds_bounded (pos (suc n)) d h k = h
seconds_bounded (negsuc n) d h k = omega arith

duration-seconds :
    (x : ℤ) (d : ℕ)
    → pos_part x ≤ 9223372036
    → 0 < d
    → d ≤ 20
    → (seconds_duration (pos (seconds_or x d)) ≡ pos (seconds_or x d * 1000000000))
      × (0 < pos_part (seconds_duration (pos (seconds_or x d))))
duration-seconds x d h some_d k =
    let exact = seconds_duration_lem (seconds_or x d) (seconds_bounded x d h k) in
    let positive = seconds_positive x d some_d in (exact, rw exact (omega arith))

-- When the high and the low setting are at most 9223372036 seconds, which as nanoseconds still fit an
-- int64, the timeout of every request is positive; it is the high one (5 seconds when that is not
-- positive) for a request classified "HIGH" and the low one (20 seconds when that is not positive) for
-- every other. So the medium timeout is never used.
pub priority_timeout_lem :
    (high medium low : ℤ) (path header : String)
    → pos_part high ≤ 9223372036
    → pos_part low ≤ 9223372036
    → (0 < pos_part (priority_timeout high medium low path header))
      × (((classify path header ≡ "HIGH")
            × (priority_timeout high medium low path header ≡ pos (seconds_or high 5 * 1000000000)))
          ⊎ ((classify path header ≢ "HIGH")
              × (priority_timeout high medium low path header
                  ≡ pos (seconds_or low 20 * 1000000000))))
unfolding priority_timeout timeout_for
priority_timeout_lem high medium low path header h l = elim (classify_lem path header).0 [
  | inl is_high ↦
      let d = duration-seconds high 5 h (omega arith) (omega arith) in
      (rw is_high d.1, inl (is_high, rw is_high d.0))
  | inr is_low ↦
      let d = duration-seconds low 20 l (omega arith) (omega arith) in
      (rw is_low d.1, inr (λ e. low-ne-high (sym is_low ∙ e), rw is_low d.0))
]
