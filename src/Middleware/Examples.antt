-- ===== src/Middleware/Examples.antt =====
-- The theorems on internal/middleware at concrete handlers.
use balance_x.Middleware.Auth.{MayPass, basic_auth, challenge, basic_auth_lem}
use balance_x.Priority.{classify}
use balance_x.Middleware.Timeout.{priority_timeout, seconds_or, priority_timeout_lem}
use balance_x.Middleware.Retry.Buffer.{all_headers, last_status, all_bytes, finish_lem}
use balance_x.Middleware.Chain.{chain, onion, chain_lem}
use balance_x.Middleware.Retry.{
  apply_all, retry, new_writer, attempts_or_default, add_header, send_status, finish, header_calls,
  send_body, get_current_attempt, body_calls, flush,
}
use balance_x.Middleware.Retry.Attempts.{Answers, Leaves, retry-Ends}
use balance_x.Middleware.Breaker.{circuit_breaker, circuit_breaker_lem}
use balance_x.Http.{Action, set_header_to, write_status, write_body, first_status, header_after}
use balance_x.Common.{
  ◌<◌, ◌≢◌, ℕ, List, [], ◌∷◌, ◌++◌, ◌≡◌, refl, none, some, false, String, ◌+◌, ltb, if◌then◌else◌,
  ◌⊎◌, Bool, str_eq, ◌*◌, arith,
}
use balance_x.Common.Int.{pos, pos_part}
use balance_x.Common.Dict.{insert}

-- A backend that fails twice and then answers; the state counts the calls.
abbrev flaky : ℕ → ℕ → ℕ × List Action
flaky attempt calls = (
  calls + 1,
  if ltb calls 2
      then set_header_to "X-Backend-URL" "http://a" ∷ write_status 503 ∷ []
      else write_body (104 ∷ 105 ∷ []) ∷ [],
)

abbrev digits : ℕ → String
digits n = if ltb n 2 then "1" else "more"

abbrev stays : ℕ → Bool
stays attempt = false

retry_run :
    retry digits flaky stays none (pos 5) 0
    ≡ (3, add_header "X-Attempts" "1" ∷ send_status 200 ∷ send_body (104 ∷ 105 ∷ []) ∷ [])
unfolding retry balance_x.Middleware.Retry.retry_loop attempts_or_default
    balance_x.Middleware.Retry.is_retryable apply_all balance_x.Middleware.Retry.write_header
    balance_x.Middleware.Retry.set_header new_writer balance_x.Middleware.Retry.write finish
    balance_x.Middleware.Retry.flush insert balance_x.Middleware.Retry.get_current_attempt
retry_run = refl

retry-Ends_example :
    Answers digits flaky stays none
      (attempts_or_default (pos 5))
      1
      0
      (retry digits flaky stays none (pos 5) 0)
    ⊎ Leaves digits flaky stays none
        (attempts_or_default (pos 5))
        1
        0
        (retry digits flaky stays none (pos 5) 0)
retry-Ends_example = retry-Ends digits flaky stays none (pos 5) 0

abbrev calls_made : List Action
calls_made = write_body (104 ∷ []) ∷ write_status 404 ∷ write_body (105 ∷ []) ∷ []

finish_lem_example :
    ((apply_all calls_made new_writer).sent ≡ [])
    × (finish digits none (apply_all calls_made new_writer)
        ≡ header_calls (
            insert "X-Attempts"
              (digits (get_current_attempt none) ∷ [])
              (all_headers [] calls_made))
          ++ send_status (last_status 200 calls_made) ∷ body_calls (all_bytes calls_made))
    × (flush (flush (apply_all calls_made new_writer)) ≡ flush (apply_all calls_made new_writer))
finish_lem_example = finish_lem digits none calls_made

-- The registry keeps the results in the order they come.
abbrev log_result : String → Bool → List (String × Bool) → List (String × Bool)
log_result url success results = results ++ (url, success) ∷ []

abbrev answer : List (String × Bool) → List (String × Bool) × List Action
answer results = (results, set_header_to "X-Backend-URL" "http://a" ∷ write_status 502 ∷ [])

circuit_breaker_lem_example : circuit_breaker (some log_result) answer [] ≡ (
  if str_eq (header_after "X-Backend-URL" "" (answer []).1) ""
      then (answer []).0
      else log_result
          (header_after "X-Backend-URL" "" (answer []).1)
          (ltb (first_status (answer []).1) 500)
          (answer []).0,
  (answer []).1,
)
circuit_breaker_lem_example = circuit_breaker_lem log_result answer []

chain_lem_example :
    chain ((λ n. n + 1) ∷ (λ n. n + n) ∷ []) 5 ≡ onion ((λ n. n + 1) ∷ (λ n. n + n) ∷ []) 5
chain_lem_example = chain_lem ((λ n. n + 1) ∷ (λ n. n + n) ∷ []) 5

priority_timeout_lem_example :
    (0 < pos_part (priority_timeout (pos 2) (pos 10) (pos 0) "/static" ""))
    × (((classify "/static" "" ≡ "HIGH")
          × (priority_timeout (pos 2) (pos 10) (pos 0) "/static" ""
              ≡ pos (seconds_or (pos 2) 5 * 1000000000)))
        ⊎ ((classify "/static" "" ≢ "HIGH")
            × (priority_timeout (pos 2) (pos 10) (pos 0) "/static" ""
                ≡ pos (seconds_or (pos 0) 20 * 1000000000))))
priority_timeout_lem_example =
    priority_timeout_lem (pos 2) (pos 10) (pos 0) "/static" "" (omega arith) (omega arith)

basic_auth_lem_example :
    (MayPass "admin" "secret" (some ("admin", "guess"))
      → basic_auth "admin" "secret" (some ("admin", "guess")) answer [] ≡ answer [])
    × (¬ MayPass "admin" "secret" (some ("admin", "guess"))
        → basic_auth "admin" "secret" (some ("admin", "guess")) answer [] ≡ ([], challenge))
basic_auth_lem_example = basic_auth_lem "admin" "secret" (some ("admin", "guess")) answer []
