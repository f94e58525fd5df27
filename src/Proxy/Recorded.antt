-- ===== src/Proxy/Recorded.antt =====
-- internal/proxy/proxy.go behind internal/middleware/circuitbreaker.go: which outcomes of a request
-- reach the breaker of the backend.
use balance_x.Proxy.Outcomes.{status_of, proxy_to_backend-status}
use balance_x.Common.{
  ℕ, List, [], ◌∷◌, ◌++◌, ◌≡◌, refl, false, some, ◌∙◌, ap, ap₂, str_eq, if◌then◌else◌, String, Bool,
  get_or, ltb,
}
use balance_x.Common.Float.{Float64}
use balance_x.Middleware.Breaker.{circuit_breaker, circuit_breaker_lem}
use balance_x.Http.{header_after, first_status, Action, put_header, write_status, write_body}
use balance_x.Proxy.{
  unbuildable, unreachable, answered, ℤ, proxy_to_backend, Answer, Collector, conclude,
  copy_headers,
}

-- What is recorded for an answer of `target`.
abbrev pub recorded_for : {S : Type 0} → (String → Bool → S → S) → String → Answer → S → S
recorded_for record_result target unbuildable s = s
recorded_for record_result target (unreachable ms) s = s
recorded_for record_result target (answered ms code headers body) s =
    record_result target (ltb code 500) s

header_after-append :
    (name value : String) (xs ys : List Action)
    → header_after name value (xs ++ ys) ≡ header_after name (header_after name value xs) ys
unfolding header_after
header_after-append name value [] ys = refl
header_after-append name value (put_header key values ∷ xs) ys =
    header_after-append name (if str_eq key name then get_or values 0 "" else value) xs ys
header_after-append name value (write_status code ∷ xs) ys = header_after-append name value xs ys
header_after-append name value (write_body bytes ∷ xs) ys = header_after-append name value xs ys

-- The URL that the handler leaves in X-Backend-URL.
abbrev pub url_left : String → Answer → String
url_left target unbuildable = ""
url_left target (unreachable ms) = ""
url_left target (answered ms code headers body) = target

module _ {F : Type 0} ⦃fl : Float64 F⦄ (itoa : ℤ → String) where
  proxy_to_backend-url :
      (target pri : String) (attempt : ℕ) (answer : Answer) (m : Collector F)
      → header_after "X-Backend-URL" "" (proxy_to_backend itoa target pri attempt answer m).1
        ≡ url_left target answer
  unfolding proxy_to_backend conclude header_after
  proxy_to_backend-url target pri attempt unbuildable m = refl
  proxy_to_backend-url target pri attempt (unreachable ms) m = refl
  proxy_to_backend-url target pri attempt (answered ms code headers body) m =
      header_after-append "X-Backend-URL" "" (copy_headers headers) _

  -- For a target with a URL and any handler that writes what the proxy writes for its answer, the
  -- circuit-breaker middleware around it records the answer at the target's breaker, a success when
  -- its status is below 500, and records nothing when the backend did not answer: a backend that
  -- refuses connections is never reported to its breaker by a request.
  pub circuit_breaker-proxy :
      {S : Type 0} (record_result : String → Bool → S → S) (next : S → S × List Action) (s : S)
      (target pri : String) (attempt : ℕ) (answer : Answer) (m : Collector F)
      → str_eq target "" ≡ false
      → (next s).1 ≡ (proxy_to_backend itoa target pri attempt answer m).1
      → (circuit_breaker (some record_result) next s).0
        ≡ recorded_for record_result target answer (next s).0
  circuit_breaker-proxy record_result next s target pri attempt answer m named writes =
      ap (λ q. q.0) (circuit_breaker_lem record_result next s)
      ∙ ap₂ (λ u c. if str_eq u "" then (next s).0 else record_result u (ltb c 500) (next s).0)
          (ap (header_after "X-Backend-URL" "") writes
            ∙ proxy_to_backend-url target pri attempt answer m)
          (ap first_status writes ∙ proxy_to_backend-status itoa target pri attempt answer m)
      ∙ settle answer
    where
      settle :
          (a : Answer)
          → (if str_eq (url_left target a) ""
              then (next s).0
              else record_result (url_left target a) (ltb (status_of a) 500) (next s).0)
            ≡ recorded_for record_result target a (next s).0
      settle unbuildable = refl
      settle (unreachable ms) = refl
      settle (answered ms code headers body) = rw named
