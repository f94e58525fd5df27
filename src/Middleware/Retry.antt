-- ===== src/Middleware/Retry.antt =====
-- internal/middleware/retry.go. The state `S` is whatever lies behind the middleware; `next` gives, for
-- the number of the attempt, the calls that the next handler makes on the writer it is given. The exclusions that the code puts into a request after an attempt are dropped
-- with that request, so they do not show. `cancelled n` says that the client left during the pause
-- before attempt `n`. The length of the pauses and the log are left out.
pub mod Buffer
pub mod Attempts
use balance_x.Http.{Action, put_header, write_status, write_body}
use balance_x.Common.{
  ℕ, zero, suc, ◌+◌, Bool, true, false, not, ◌&&◌, ◌||◌, ltb, leb, ◌==◌, String, List, [], ◌∷◌,
  ◌++◌, Option, none, some, if◌then◌else◌,
}
use balance_x.Common.Dict.{Dict, insert}
use balance_x.Common.Int.{ℤ, pos, negsuc}

-- What reaches the writer of the client; `send_error` is `http.Error`.
pub data Call : Type 0 where
  add_header : String → String → Call
  send_status : ℕ → Call
  send_body : List ℕ → Call
  send_error : ℕ → String → Call

-- `retryResponseWriter`, with the calls that it made on the writer below.
pub record Writer : Type 0 where
  pub status_code : ℕ
  pub body : List ℕ
  pub headers : Dict (List String)
  pub committed : Bool
  pub sent : List Call

unfoldable pub new_writer : Writer
new_writer = record { status_code = 200; body = []; headers = []; committed = false; sent = [] }

-- An assignment to `Header()`.
unfoldable pub set_header : String → List String → Writer → Writer
set_header key values w = record w { headers = insert key values w.headers }

unfoldable pub write_header : ℕ → Writer → Writer
write_header code w = if w.committed then w else record w { status_code = code }

unfoldable pub write : List ℕ → Writer → Writer
write bytes w =
    if w.committed
    then record w { sent = w.sent ++ send_body bytes ∷ [] }
    else record w { body = w.body ++ bytes }

abbrev pub value_calls : String → List String → List Call
value_calls key [] = []
value_calls key (v ∷ vs) = add_header key v ∷ value_calls key vs

abbrev pub header_calls : Dict (List String) → List Call
header_calls [] = []
header_calls ((key, values) ∷ rest) = value_calls key values ++ header_calls rest

abbrev pub body_calls : List ℕ → List Call
body_calls [] = []
body_calls (b ∷ bytes) = send_body (b ∷ bytes) ∷ []

unfoldable pub flush : Writer → Writer
flush w = if w.committed then w else record w {
  committed = true;
  sent = w.sent ++ (header_calls w.headers ++ send_status w.status_code ∷ body_calls w.body);
}

unfoldable pub apply : Action → Writer → Writer
apply (put_header key values) w = set_header key values w
apply (write_status code) w = write_header code w
apply (write_body bytes) w = write bytes w

unfoldable pub apply_all : List Action → Writer → Writer
unfolding apply
apply_all [] w = w
apply_all (a ∷ actions) w = apply_all actions (apply a w)

unfoldable pub is_retryable : ℕ → Bool
is_retryable status_code = leb 500 status_code

-- The attempt number that the context of a request holds.
unfoldable pub get_current_attempt : Option ℕ → ℕ
get_current_attempt (some attempt) = attempt
get_current_attempt none = 1

unfoldable pub attempts_or_default : ℤ → ℕ
attempts_or_default (pos zero) = 3
attempts_or_default (pos (suc n)) = suc n
attempts_or_default (negsuc n) = 3

-- The last lines: the attempts in the header are those of the context of the request itself.
unfoldable pub finish : (ℕ → String) → Option ℕ → Writer → List Call
finish itoa context w =
    (flush (set_header "X-Attempts" (itoa (get_current_attempt context) ∷ []) w)).sent

abbrev pub left_early : List Call
left_early = send_error 504 "Client disconnected during retry backoff" ∷ []

module _ {S : Type 0} (itoa : ℕ → String) (next : ℕ → S → S × List Action) (cancelled : ℕ → Bool)
    (context : Option ℕ) where
  -- The loop from the attempt at hand on, with the number of attempts that are left.
  unfoldable pub retry_loop : ℕ → ℕ → ℕ → S → S × List Call
  retry_loop max_attempts zero attempt s = (s, [])
  retry_loop max_attempts (suc left) attempt s =
      let (s', actions) = next attempt s in
      let w = apply_all actions new_writer in
      let rest = retry_loop max_attempts left (attempt + 1) s' in
      if ltb 1 attempt && cancelled attempt
      then (s, left_early)
      else if not (is_retryable w.status_code) || attempt == max_attempts
      then (s', finish itoa context w)
      else rest

  unfoldable pub retry : ℤ → S → S × List Call
  retry max_attempts s =
      retry_loop (attempts_or_default max_attempts) (attempts_or_default max_attempts) 1 s
