-- ===== src/Middleware/Breaker.antt =====
-- internal/middleware/circuitbreaker.go: the recorder of the status, and what is recorded at the
-- breaker of the backend. The state `S` is whatever lies behind the middleware, the registry included.
use balance_x.Common.{
  ap, ◌∙◌, ℕ, ◌≡◌, refl, Bool, true, false, ltb, str_eq, String, List, [], ◌∷◌, Option, none, some,
  if◌then◌else◌, get_or, ap₂,
}
use balance_x.Common.Dict.{Dict, lookup, insert, lookup-insert}
use balance_x.Http.{
  Action, put_header, write_status, write_body, first_value, header_value, first_status,
  header_after,
}

-- `cbStatusRecorder`, with the headers of the writer that it wraps.
pub record Recorder : Type 0 where
  pub status_code : ℕ
  pub written : Bool
  pub headers : Dict (List String)

unfoldable pub new_recorder : Recorder
new_recorder = record { status_code = 200; written = false; headers = [] }

-- `WriteHeader` and `Write`.
unfoldable pub note_status : ℕ → Recorder → Recorder
note_status code r = if r.written then r else record r { status_code = code; written = true }

unfoldable pub observe : Action → Recorder → Recorder
unfolding note_status
observe (put_header key values) r = record r { headers = insert key values r.headers }
observe (write_status code) r = note_status code r
observe (write_body bytes) r = note_status 200 r

unfoldable pub observe_all : List Action → Recorder → Recorder
unfolding observe
observe_all [] r = r
observe_all (a ∷ actions) r = observe_all actions (observe a r)

-- `registry` is `RecordCircuitBreakerResult`, if there is one.
unfoldable pub record_outcome : {S : Type 0} → Option (String → Bool → S → S) → S → String → ℕ → S
record_outcome none s url status_code = s
record_outcome (some record_result) s url status_code =
    if str_eq url "" then s else record_result url (ltb status_code 500) s

unfoldable pub circuit_breaker :
    {S : Type 0} → Option (String → Bool → S → S) → (S → S × List Action) → S → S × List Action
unfolding record_outcome
circuit_breaker registry next s =
    let (s', actions) = next s in
    let r = observe_all actions new_recorder in
    (record_outcome registry s' (header_value "X-Backend-URL" r.headers) r.status_code, actions)

abbrev seen : ℕ → Bool → Dict (List String) → Recorder
seen code written headers = record { status_code = code; written = written; headers = headers }

status-written :
    (actions : List Action) (code : ℕ) (headers : Dict (List String))
    → (observe_all actions (seen code true headers)).status_code ≡ code
unfolding observe_all observe note_status
status-written [] code headers = refl
status-written (put_header key values ∷ actions) code headers =
    status-written actions code (insert key values headers)
status-written (write_status new ∷ actions) code headers = status-written actions code headers
status-written (write_body bytes ∷ actions) code headers = status-written actions code headers

status-unwritten :
    (actions : List Action) (headers : Dict (List String))
    → (observe_all actions (seen 200 false headers)).status_code ≡ first_status actions
unfolding observe_all observe note_status first_status
status-unwritten [] headers = refl
status-unwritten (put_header key values ∷ actions) headers =
    status-unwritten actions (insert key values headers)
status-unwritten (write_status new ∷ actions) headers = status-written actions new headers
status-unwritten (write_body bytes ∷ actions) headers = status-written actions 200 headers

first_value-if :
    (b : Bool) (values : List String) (o : Option (List String))
    → first_value (if b then some values else o) ≡ (if b then get_or values 0 "" else first_value o)
first_value-if true values o = refl
first_value-if false values o = refl

header_value-insert :
    (key : String) (values : List String) (other : String) (headers : Dict (List String))
    → header_value other (insert key values headers)
      ≡ (if str_eq key other then get_or values 0 "" else header_value other headers)
unfolding header_value
header_value-insert key values other headers =
    ap first_value (lookup-insert key other values headers)
    ∙ first_value-if (str_eq key other) values (lookup other headers)

headers-observed :
    (actions : List Action) (code : ℕ) (written : Bool) (headers : Dict (List String))
    → header_value "X-Backend-URL" (observe_all actions (seen code written headers)).headers
      ≡ header_after "X-Backend-URL" (header_value "X-Backend-URL" headers) actions
unfolding observe_all observe note_status header_after
headers-observed [] code written headers = refl
headers-observed (put_header key values ∷ actions) code written headers =
    headers-observed actions code written (insert key values headers)
    ∙ ap (λ u. header_after "X-Backend-URL" u actions)
        (header_value-insert key values "X-Backend-URL" headers)
headers-observed (write_status new ∷ actions) code true headers =
    headers-observed actions code true headers
headers-observed (write_status new ∷ actions) code false headers =
    headers-observed actions new true headers
headers-observed (write_body bytes ∷ actions) code true headers =
    headers-observed actions code true headers
headers-observed (write_body bytes ∷ actions) code false headers =
    headers-observed actions 200 true headers

-- For every handler behind the middleware: its calls on the writer pass unchanged, and after it has
-- run, when X-Backend-URL was last set to a URL that is not empty, one result is recorded for that
-- URL, a success exactly if the first status that was written (200 for a body without one, or for
-- no call at all) is below 500; otherwise nothing is recorded.
pub circuit_breaker_lem :
    {S : Type 0} (record_result : String → Bool → S → S) (next : S → S × List Action) (s : S)
    → circuit_breaker (some record_result) next s ≡ (
      if str_eq (header_after "X-Backend-URL" "" (next s).1) ""
          then (next s).0
          else record_result
              (header_after "X-Backend-URL" "" (next s).1)
              (ltb (first_status (next s).1) 500)
              (next s).0,
      (next s).1,
    )
unfolding circuit_breaker record_outcome new_recorder header_value lookup
circuit_breaker_lem record_result next s =
    ap₂ (λ u c. (record_outcome (some record_result) (next s).0 u c, (next s).1))
      (headers-observed (next s).1 200 false []) (status-unwritten (next s).1 [])
