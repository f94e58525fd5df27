-- ===== src/Health/Breaker/Gate.antt =====
-- How the two gates of internal/health/breaker.go, `IsOpen` and `CanSend`, agree, and what they let
-- through while the circuit cools down and after.
use balance_x.Common.{
  ℕ, ◌+◌, ◌<◌, ◌≤◌, ◌≡◌, refl, sym, subst, ap₂, ◌∙◌, Bool, true, false, not, List, [], ◌∷◌, map,
  arith, All,
}
use balance_x.Health.Breaker.{open_, half_open, Breaker, new_breaker, is_open, can_send}
use balance_x.Health.Breaker.History.{
  Call, fails, run, streak, last_failure, state_after, Agrees, run-Agrees,
}

-- At one clock reading the pure check and the gate agree: a request is let through exactly when the
-- breaker does not count as open.
pub can_send-is_open : (b : Breaker) (now : ℕ) → (can_send b now).1 ≡ not (is_open b now)
unfolding can_send is_open
can_send-is_open b now = ground arith

-- A breaker that did not count as open when it was read lets a request through at every later
-- reading, if nothing else happened to it in between.
pub can_send_later :
    (b : Breaker) (read now : ℕ) → is_open b read ≡ false → read ≤ now → (can_send b now).1 ≡ true
unfolding can_send is_open
can_send_later b read now h le = ground arith

-- The answers to requests that ask one after the other.
unfoldable pub grants : Breaker → List ℕ → List Bool
grants b [] = []
grants b (now ∷ rest) = (can_send b now).1 ∷ grants (can_send b now).0 rest

abbrev same {ℓ} : {A : Type ℓ} → A → List ℕ → List A
same a = map (λ _. a)

grants_half_open :
    (b : Breaker) (times : List ℕ) → b.state ≡ half_open → grants b times ≡ same true times
unfolding grants can_send
grants_half_open b [] h = refl
grants_half_open b (t ∷ ts) h = ground (arith, grants_half_open b ts h)

half_open_after_send :
    (b : Breaker) (t : ℕ)
    → b.state ≡ open_
    → b.last_failure_time + b.recovery_timeout < t
    → can_send b t ≡ (record b { state = half_open }, true)
unfolding can_send
half_open_after_send b t h k = ground arith

-- From an open circuit whose recovery timeout has run out, every request of a series is let
-- through, however many ask before a result is recorded: the half-open state limits nothing.
pub half_open_unlimited :
    (b : Breaker) (times : List ℕ)
    → b.state ≡ open_
    → All (λ t. b.last_failure_time + b.recovery_timeout < t) times
    → grants b times ≡ map (λ _. true) times
unfolding grants
half_open_unlimited b [] h k = refl
half_open_unlimited b (t ∷ ts) h k = ground (
  arith,
  half_open_after_send b t h k.0,
  grants_half_open (record b { state = half_open }) ts refl,
)

refused :
    (b : Breaker) (t : ℕ)
    → b.state ≡ open_
    → t ≤ b.last_failure_time + b.recovery_timeout
    → can_send b t ≡ (b, false)
unfolding can_send
refused b t h k = ground arith

grants_refused :
    (b : Breaker) (times : List ℕ)
    → b.state ≡ open_
    → All (λ t. t ≤ b.last_failure_time + b.recovery_timeout) times
    → grants b times ≡ same false times
unfolding grants
grants_refused b [] h k = refl
grants_refused b (t ∷ ts) h k = ground (arith, refused b t h k.0, grants_refused b ts h k.1)

tripped_state :
    (threshold timeout now : ℕ) (older : List Call)
    → threshold ≤ streak (fails now ∷ older)
    → state_after threshold timeout (fails now ∷ older) ≡ open_
unfolding state_after
tripped_state threshold timeout now older h = ground arith

-- Once a failure brings the failures since the last success up to the (positive) threshold, every
-- request until the recovery timeout has run out is refused, in any number.
pub cooldown :
    (threshold timeout now : ℕ) (older : List Call) (times : List ℕ)
    → 0 < threshold
    → threshold ≤ streak (fails now ∷ older)
    → All (λ t. t ≤ now + timeout) times
    → grants (run (new_breaker threshold timeout) (fails now ∷ older)) times
      ≡ map (λ _. false) times
unfolding last_failure
cooldown threshold timeout now older times positive tripped within =
    grants_refused b times (agrees.state_known ∙ tripped_state threshold timeout now older tripped)
      (subst (λ d. All (λ t. t ≤ d) times) (sym deadline) within)
  where
    b : Breaker
    b = run (new_breaker threshold timeout) (fails now ∷ older)

    agrees : Agrees threshold timeout (fails now ∷ older) b
    agrees = run-Agrees threshold timeout positive (fails now ∷ older)

    deadline : b.last_failure_time + b.recovery_timeout ≡ now + timeout
    deadline = ap₂ ◌+◌ agrees.remembers_failure agrees.timeout_kept
