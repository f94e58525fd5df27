-- ===== src/Health/Breaker/Examples.antt =====
-- Runs of the breaker of internal/health/breaker.go, and its theorems at concrete histories.
use balance_x.Common.{◌≡◌, refl, true, false, not, List, [], ◌∷◌, arith}
use balance_x.Health.Breaker.{
  State, open_, half_open, closed, Breaker, new_breaker, is_open, can_send, record_success,
  record_failure, state_name, state_string,
}
use balance_x.Health.Breaker.History.{Call, sends, fails, succeeds, run, Agrees, run-Agrees}
use balance_x.Health.Breaker.Gate.{
  can_send-is_open, can_send_later, grants, half_open_unlimited, cooldown,
}

-- A threshold of 2 and a recovery timeout of 10; the newest call stands first.
abbrev tripping : List Call
tripping = fails 5 ∷ sends 4 ∷ fails 3 ∷ []

tripping_state : state_name (run (new_breaker 2 10) tripping) ≡ "OPEN"
unfolding run new_breaker record_failure can_send state_name
tripping_state = refl

recovered_state : (run (new_breaker 2 10) (succeeds ∷ sends 16 ∷ tripping)).state ≡ closed
unfolding run new_breaker record_failure record_success can_send
recovered_state = refl

abbrev tripped : Breaker
tripped = record {
  state = open_;
  failure_count = 2;
  threshold = 2;
  recovery_timeout = 10;
  last_failure_time = 5;
}

run-Agrees_example :
    Agrees 2 10 (sends 16 ∷ tripping) (run (new_breaker 2 10) (sends 16 ∷ tripping))
run-Agrees_example = run-Agrees 2 10 (omega arith) (sends 16 ∷ tripping)

can_send-is_open_example : (can_send tripped 15).1 ≡ not (is_open tripped 15)
can_send-is_open_example = can_send-is_open tripped 15

can_send_later_example : (can_send tripped 20).1 ≡ true
unfolding is_open
can_send_later_example = can_send_later tripped 16 20 refl (omega arith)

half_open_unlimited_example : grants tripped (16 ∷ 16 ∷ 17 ∷ []) ≡ true ∷ true ∷ true ∷ []
half_open_unlimited_example = half_open_unlimited tripped (16 ∷ 16 ∷ 17 ∷ []) refl (omega arith)

cooldown_example : grants (run (new_breaker 2 10) tripping) (6 ∷ 15 ∷ []) ≡ false ∷ false ∷ []
unfolding balance_x.Health.Breaker.History.streak
cooldown_example =
    cooldown 2 10 5 (sends 4 ∷ fails 3 ∷ []) (6 ∷ 15 ∷ []) (omega arith) (omega arith) (omega arith)
