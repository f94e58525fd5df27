-- ===== src/Middleware/AccessLog.antt =====
-- internal/middleware/accesslog.go: the recorder of the status and the bytes, and the line of the log.
-- Writing the line to the file and to the terminal is left out. `scan` is `fmt.Sscanf` with "%d"; the
-- time stamp and the latency are arguments, and `Write` takes all the bytes that it is given. The
-- request is as the next handler leaves it, since both share its headers.
use balance_x.Common.Int.{ℤ, pos}
use balance_x.Common.{
  String, none, some, List, Option, ℕ, if◌then◌else◌, Bool, ◌∷◌, false, length, true, ◌≡◌, [], ◌+◌,
  str_eq, refl, ap, arith, ◌∙◌,
}
use balance_x.Http.{
  Action, put_header, write_status, write_body, header_value, header_after, first_status,
}
use balance_x.Middleware.Headers.{Request}
use balance_x.Middleware.RateLimit.{extract_ip}

pub record StatusRecorder : Type 0 where
  pub status_code : ℕ
  pub bytes : ℕ
  pub written : Bool

-- The methods `WriteHeader` and `Write`.
unfoldable pub note_action : Action → StatusRecorder → StatusRecorder
note_action (put_header key values) r = r
note_action (write_status code) r =
    if r.written then r else record r { status_code = code; written = true }
note_action (write_body body) r =
    if r.written
    then record r { bytes = r.bytes + length body }
    else record { status_code = 200; bytes = r.bytes + length body; written = true }

unfoldable pub note_actions : List Action → StatusRecorder → StatusRecorder
unfolding note_action
note_actions [] r = r
note_actions (a ∷ actions) r = note_actions actions (note_action a r)

-- The line, with a latency of any type.
pub record AccessLogEntry (F : Type 0) : Type 0 where
  pub timestamp : String
  pub request_id : String
  pub client_ip : String
  pub method : String
  pub path : String
  pub priority : String
  pub backend_name : String
  pub backend_url : String
  pub status_code : ℕ
  pub latency_ms : F
  pub attempts : ℤ
  pub bytes_sent : ℕ

abbrev or_no_attempts : Option ℤ → ℤ
or_no_attempts none = pos 0
or_no_attempts (some n) = n

module _ {F : Type 0} (split_host : String → Option String) (scan : String → Option ℤ) where
  unfoldable pub entry_for :
      String → F → String → String → String → Request → List Action → AccessLogEntry F
  unfolding note_actions
  entry_for timestamp latency request_id method path r actions =
      let recorder =
        note_actions actions (record { status_code = 200; bytes = 0; written = false }) in
      let attempts = header_after "X-Attempts" "" actions in
      record {
        timestamp = timestamp;
        request_id = request_id;
        client_ip = extract_ip split_host r;
        method = method;
        path = path;
        priority = header_value "X-Priority" r.headers;
        backend_name = header_after "X-Handled-By" "" actions;
        backend_url = header_after "X-Backend-URL" "" actions;
        status_code = recorder.status_code;
        latency_ms = latency;
        attempts = if str_eq attempts "" then pos 0 else or_no_attempts (scan attempts);
        bytes_sent = recorder.bytes;
      }

  -- The handler: what the next handler does, and the line.
  unfoldable pub access_log :
      {S : Type 0}
      → String
      → F
      → String
      → String
      → String
      → Request
      → (S → S × List Action)
      → S
      → S × List Action × AccessLogEntry F
  unfolding entry_for
  access_log timestamp latency request_id method path r next s =
      let answer = next s in
      (answer.0, answer.1, entry_for timestamp latency request_id method path r answer.1)

-- The bytes of the body that the calls write.
unfoldable pub body_length : List Action → ℕ
body_length [] = 0
body_length (put_header key values ∷ actions) = body_length actions
body_length (write_status code ∷ actions) = body_length actions
body_length (write_body body ∷ actions) = length body + body_length actions

abbrev recorded : ℕ → ℕ → Bool → StatusRecorder
recorded code n written = record { status_code = code; bytes = n; written = written }

note_actions-written :
    (actions : List Action) (code n : ℕ)
    → note_actions actions (recorded code n true) ≡ recorded code (n + body_length actions) true
unfolding note_actions note_action body_length
note_actions-written [] code n = ap (λ k. recorded code k true) (omega arith)
note_actions-written (put_header key values ∷ actions) code n = note_actions-written actions code n
note_actions-written (write_status c ∷ actions) code n = note_actions-written actions code n
note_actions-written (write_body body ∷ actions) code n =
    note_actions-written actions code (n + length body)
    ∙ ap (λ k. recorded code k true) (omega arith)

note_actions-fresh :
    (actions : List Action)
    → ((note_actions actions (recorded 200 0 false)).status_code ≡ first_status actions)
      × ((note_actions actions (recorded 200 0 false)).bytes ≡ body_length actions)
unfolding note_actions note_action first_status body_length
note_actions-fresh [] = (refl, refl)
note_actions-fresh (put_header key values ∷ actions) = note_actions-fresh actions
note_actions-fresh (write_status code ∷ actions) =
    let e = note_actions-written actions code 0 in
    (ap (λ r. r.status_code) e, ap (λ r. r.bytes) e ∙ (omega arith))
note_actions-fresh (write_body body ∷ actions) =
    let e = note_actions-written actions 200 (0 + length body) in
    (ap (λ r. r.status_code) e, ap (λ r. r.bytes) e ∙ (omega arith))

-- The access log leaves the answer of the next handler as it is, and its line has the status that
-- the client sees and the number of bytes that were written.
pub access_log_lem :
    {F S : Type 0} (split_host : String → Option String) (scan : String → Option ℤ)
    (timestamp : String) (latency : F) (request_id method path : String) (r : Request)
    (next : S → S × List Action) (s : S)
    → let out = access_log split_host scan timestamp latency request_id method path r next s in
      (out.0 ≡ (next s).0)
      × (out.1 ≡ (next s).1)
      × ((out.2).status_code ≡ first_status (next s).1)
      × ((out.2).bytes_sent ≡ body_length (next s).1)
unfolding access_log entry_for
access_log_lem split_host scan timestamp latency request_id method path r next s =
    let fresh = note_actions-fresh (next s).1 in (refl, refl, fresh.0, fresh.1)
