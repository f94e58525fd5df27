-- ===== src/Proxy.antt =====
-- internal/proxy/proxy.go. The router, the metrics and the breakers are one state, `Router`, since
-- the handler and its router share the collector and the map of breakers. What the HTTP client makes
-- of the request is an argument, with a status that `WriteHeader` accepts; the transport's settings,
-- the deadline and the log are left out.
pub mod Outcomes
pub mod InFlight
pub mod Recorded
mod Examples
use balance_x.Common.{ℕ, Bool, String, List, [], ◌∷◌, ◌++◌, Option, none, some, ltb, map, false}
use balance_x.Common.Dict.{Dict}
use balance_x.Common.Int.{ℤ, pos, sub_ℕ}
use balance_x.Common.Float.{Float64, float_zero}
use balance_x.Routing.Bytes.{Text, codes}
use balance_x.Http.{Action, put_header, write_status, write_body, set_header_to, http_error}
use balance_x.Metrics.{Collector}
use balance_x.Metrics.Recording.{record_start, record_end, record_priority, get_name}
use balance_x.Priority.{classify}
use balance_x.Balancer.Algorithm.{Algorithm}
use balance_x.Balancer.Router.{
  Router, RouteError, no_healthy_servers, no_server_returned, circuit_is_open, Selection, chosen,
  failed, nil_breaker, select,
}

-- What the handler reads of a request and its context.
pub record Incoming : Type 0 where
  pub path : String
  pub priority_header : String
  pub attempt : ℕ
  pub excluded : List String

-- What comes of the request to the backend: it cannot be built; it fails after so many milliseconds;
-- or it is answered, with a status, headers and a body.
pub data Answer : Type 0 where
  unbuildable : Answer
  unreachable : ℕ → Answer
  answered : ℕ → ℕ → Dict (List String) → List ℕ → Answer

abbrev pub copy_headers : Dict (List String) → List Action
copy_headers [] = []
copy_headers ((key, values) ∷ rest) = put_header key values ∷ copy_headers rest

-- The three headers that the handler sets, the status and the body.
abbrev pub closing : (ℤ → String) → String → String → ℕ → ℕ → List ℕ → List Action
closing itoa name target attempt code body =
    set_header_to "X-Handled-By" name
    ∷ set_header_to "X-Backend-URL" target
    ∷ set_header_to "X-Retry-Count" (itoa (sub_ℕ attempt 1))
    ∷ write_status code
    ∷ write_body body
    ∷ []

abbrev pub route_error_text : RouteError → String
route_error_text no_healthy_servers = "no healthy servers available"
route_error_text no_server_returned = "routing algorithm returned no server"
route_error_text circuit_is_open = "chosen server circuit is open"

abbrev pub unavailable : RouteError → List Action
unavailable e =
    http_error (codes "All backend servers unavailable: " ++ codes (route_error_text e)) 502

module _ {F : Type 0} ⦃fl : Float64 F⦄ (itoa : ℤ → String) where
  -- `proxyToBackend` from the client's answer on.
  unfoldable pub conclude : String → String → ℕ → Answer → Collector F → Collector F × List Action
  conclude target pri attempt unbuildable m =
      (record_end target float_zero false m, http_error (codes "Failed to build proxy request") 500)
  conclude target pri attempt (unreachable ms) m = (
    record_end target (fl.of_int (pos ms)) false m,
    http_error (codes "Backend server error") 502,
  )
  conclude target pri attempt (answered ms code headers body) m =
      let m' =
        record_priority target pri (record_end target (fl.of_int (pos ms)) (ltb code 500) m) in
      (m', copy_headers headers ++ closing itoa (get_name target m') target attempt code body)

  unfoldable pub proxy_to_backend :
      String → String → ℕ → Answer → Collector F → Collector F × List Action
  proxy_to_backend target pri attempt answer m =
      conclude target pri attempt answer (record_start target m)

  -- `backend` gives the answer of each target; `none` is the panic of a nil breaker.
  unfoldable pub respond :
      {S : Type 0}
      → String
      → ℕ
      → (String → Answer)
      → Router F S × Selection
      → Router F S × Option (List Action)
  respond pri attempt backend (r, chosen target) =
      let (m', actions) = proxy_to_backend target pri attempt (backend target) r.metrics in
      (record r { metrics = m' }, some actions)
  respond pri attempt backend (r, failed e) = (r, some (unavailable e))
  respond pri attempt backend (r, nil_breaker) = (r, none)

  unfoldable pub serve_http :
      {S : Type 0}
      → Algorithm F S
      → (String → Answer)
      → Incoming
      → (String → ℕ)
      → ℕ
      → Router F S
      → Router F S × Option (List Action)
  unfolding respond
  serve_http algorithm backend req read now r =
      let pri = classify req.path req.priority_header in
      respond pri req.attempt backend (select algorithm r pri req.excluded read now)
