-- ===== src/Proxy/Outcomes.antt =====
-- What one request through internal/proxy/proxy.go leaves in the metrics and writes to the client.
use balance_x.Balancer.Algorithm.{SelectsAmong}
use balance_x.Balancer.Router.Healthy.{HasBreaker, IsEligible, select-Selects}
use balance_x.Common.Dict.{lookup, lookup-adjust_self}
use balance_x.Metrics.Recording.{
  ended, started, record_start, record_end, prioritised, record_priority, snapshot,
}
use balance_x.Metrics.{ServerStats, Collector}
use balance_x.Http.{first_status, Action}
use balance_x.Common.Int.{ℤ, pos}
use balance_x.Proxy.{
  Answer, unreachable, Dict, Router, respond, answered, proxy_to_backend, conclude, copy_headers,
  chosen, unbuildable, serve_http, Selection, failed, Algorithm, no_healthy_servers, classify,
  Incoming, unavailable,
}
use balance_x.Common.{
  ℕ, List, [], ◌∷◌, ◌≡◌, refl, true, false, some, sym, ◌∙◌, ap, subst, ◌⊎◌, inl, inr, All,
  if◌then◌else◌, str_eq, arith, Bool, String, ◌+◌, Option, ltb, ◌++◌, ap₂, ◌≤◌,
}
use balance_x.Common.Float.{Float64, float_zero}
use balance_x.Metrics.Invariant.{start, finish, priority, lookup-step}

-- The answer counts as a success, and an answer came at all.
abbrev pub is_success : Answer → Bool
is_success unbuildable = false
is_success (unreachable ms) = false
is_success (answered ms code headers body) = ltb code 500

abbrev pub is_answered : Answer → Bool
is_answered unbuildable = false
is_answered (unreachable ms) = false
is_answered (answered ms code headers body) = true

abbrev pub status_of : Answer → ℕ
status_of unbuildable = 500
status_of (unreachable ms) = 502
status_of (answered ms code headers body) = code

-- One more request with this answer: the counts before and after.
pub record IsAccounted {F : Type 0} (answer : Answer) (s s' : ServerStats F) : Type 0 where
  pub connections_kept : s'.active_connections ≡ s.active_connections
  pub request_counted : s'.total_requests ≡ s.total_requests + 1
  pub success_counted :
      s'.success_count ≡ (if is_success answer then s.success_count + 1 else s.success_count)
  pub failure_counted :
      s'.failure_count ≡ (if is_success answer then s.failure_count else s.failure_count + 1)
  pub priority_counted : s'.high_priority_count + s'.low_priority_count ≡ (
      if is_answered answer
      then s.high_priority_count + s.low_priority_count + 1
      else s.high_priority_count + s.low_priority_count)

first_status-copy :
    (headers : Dict (List String)) (actions : List Action)
    → first_status (copy_headers headers ++ actions) ≡ first_status actions
unfolding first_status
first_status-copy [] actions = refl
first_status-copy ((key, values) ∷ rest) actions = first_status-copy rest actions

module _ {F : Type 0} ⦃fl : Float64 F⦄ where
  -- The statistics of the target at the end.
  abbrev settled : Answer → String → ServerStats F → ServerStats F
  settled unbuildable pri s = ended float_zero false (started s)
  settled (unreachable ms) pri s = ended (fl.of_int (pos ms)) false (started s)
  settled (answered ms code headers body) pri s =
      prioritised pri (ended (fl.of_int (pos ms)) (ltb code 500) (started s))

  settled-IsAccounted :
      (answer : Answer) (pri : String) (s : ServerStats F)
      → IsAccounted answer s (settled answer pri s)
  settled-IsAccounted unbuildable pri s = ground arith
  settled-IsAccounted (unreachable ms) pri s = ground arith
  settled-IsAccounted (answered ms code headers body) pri s = record {
    connections_kept = ground arith;
    request_counted = ground arith;
    success_counted = ground arith;
    failure_counted = ground arith;
    priority_counted = ground arith;
  }

module _ {F : Type 0} ⦃fl : Float64 F⦄ (itoa : ℤ → String) where
  proxy_to_backend-settled :
      (target pri : String) (attempt : ℕ) (answer : Answer) (m : Collector F) (s : ServerStats F)
      → lookup target m.servers ≡ some s
      → lookup target (proxy_to_backend itoa target pri attempt answer m).0.servers
        ≡ some (settled answer pri s)
  unfolding proxy_to_backend conclude record_start record_end record_priority
  proxy_to_backend-settled target pri attempt unbuildable m s h =
      lookup-adjust_self target (ended float_zero false) _ _
        (lookup-adjust_self target started s m.servers h)
  proxy_to_backend-settled target pri attempt (unreachable ms) m s h =
      lookup-adjust_self target (ended (fl.of_int (pos ms)) false) _ _
        (lookup-adjust_self target started s m.servers h)
  proxy_to_backend-settled target pri attempt (answered ms code headers body) m s h =
      lookup-adjust_self target (prioritised pri) _ _ (
        lookup-adjust_self target (ended (fl.of_int (pos ms)) (ltb code 500)) _ _
          (lookup-adjust_self target started s m.servers h))

  proxy_to_backend-other :
      (target pri : String) (attempt : ℕ) (answer : Answer) (m : Collector F) (other : String)
      → str_eq target other ≡ false
      → lookup other (proxy_to_backend itoa target pri attempt answer m).0.servers
        ≡ lookup other m.servers
  unfolding proxy_to_backend conclude balance_x.Metrics.Invariant.step
  proxy_to_backend-other target pri attempt unbuildable m other differ =
      lookup-step (finish target float_zero false) _ other differ
      ∙ lookup-step (start target) m other differ
  proxy_to_backend-other target pri attempt (unreachable ms) m other differ =
      lookup-step (finish target (fl.of_int (pos ms)) false) _ other differ
      ∙ lookup-step (start target) m other differ
  proxy_to_backend-other target pri attempt (answered ms code headers body) m other differ =
      lookup-step (priority target pri) _ other differ
      ∙ lookup-step (finish target (fl.of_int (pos ms)) (ltb code 500)) _ other differ
      ∙ lookup-step (start target) m other differ

  pub proxy_to_backend-status :
      (target pri : String) (attempt : ℕ) (answer : Answer) (m : Collector F)
      → first_status (proxy_to_backend itoa target pri attempt answer m).1 ≡ status_of answer
  unfolding proxy_to_backend conclude first_status
  proxy_to_backend-status target pri attempt unbuildable m = refl
  proxy_to_backend-status target pri attempt (unreachable ms) m = refl
  proxy_to_backend-status target pri attempt (answered ms code headers body) m =
      first_status-copy headers _

  module _ {S : Type 0} where
    -- The outcome for the chosen `target`: the counts of `target` alone move, and the status is the
    -- answer's.
    abbrev pub IsServed : Answer → String → Collector F → Router F S × Option (List Action) → Type 0
    IsServed answer target m out =
        (actions : List Action) × (s : ServerStats F) × (s' : ServerStats F) × (out.1
          ≡ some actions)
        × (lookup target m.servers ≡ some s)
        × (lookup target out.0.metrics.servers ≡ some s')
        × IsAccounted answer s s'
        × ((other : String)
            → str_eq target other ≡ false
            → lookup other out.0.metrics.servers ≡ lookup other m.servers)
        × (first_status actions ≡ status_of answer)

    chosen-IsServed :
        (pri : String) (attempt : ℕ) (backend : String → Answer) (target : String) (r : Router F S)
        (s : ServerStats F)
        → lookup target r.metrics.servers ≡ some s
        → IsServed
            (backend target)
            target
            r.metrics
            (respond itoa pri attempt backend (r, chosen target))
    unfolding respond
    chosen-IsServed pri attempt backend target r s h = (
      _,
      s,
      settled (backend target) pri s,
      refl,
      h,
      proxy_to_backend-settled target pri attempt (backend target) r.metrics s h,
      settled-IsAccounted (backend target) pri s,
      λ other differ.
          proxy_to_backend-other target pri attempt (backend target) r.metrics other differ,
      proxy_to_backend-status target pri attempt (backend target) r.metrics,
    )

    selected-IsServed :
        (pri : String) (attempt : ℕ) (backend : String → Answer) (target : String) (m : Collector F)
        (s : ServerStats F) (out : Router F S × Selection)
        → out.1 ≡ chosen target
        → out.0.metrics ≡ m
        → lookup target m.servers ≡ some s
        → IsServed (backend target) target m (respond itoa pri attempt backend out)
    selected-IsServed pri attempt backend target m s out e same h =
        subst
          (λ sel.
            IsServed (backend target) target m (respond itoa pri attempt backend (out.0, sel)))
          (sym e)
          (subst
            (λ m'.
              IsServed (backend target) target m'
                (respond itoa pri attempt backend (out.0, chosen target)))
            same
            (chosen-IsServed pri attempt backend target out.0 s
              (ap (λ m'. lookup target m'.servers) same ∙ h)))

    refused-unavailable :
        (pri : String) (attempt : ℕ) (backend : String → Answer) (r : Router F S)
        (out : Router F S × Selection)
        → out.1 ≡ failed no_healthy_servers
        → out.0 ≡ r
        → respond itoa pri attempt backend out ≡ (r, some (unavailable no_healthy_servers))
    unfolding respond
    refused-unavailable pri attempt backend r out e same =
        ap₂ (λ r' sel. respond itoa pri attempt backend (r', sel)) same e

    -- For any algorithm that in its state selects one of its candidates, servers that each have a name and a
    -- breaker, and a gate reading of the clock not before the filter's, whatever each backend answers:
    -- the handler never panics, and either it sends the request to an eligible server, whose open
    -- connections are then as before, with one more request, one more success or failure as the answer
    -- is below 500 or not, and one more prioritised request if there was an answer, while every other
    -- server's statistics are as they were and the client sees the status of the answer (502 when the
    -- backend fails, 500 when no request can be built); or no server is eligible, the client gets the
    -- error 502 and nothing changes.
    pub serve_http_lem :
        (algorithm : Algorithm F S) (backend : String → Answer) (req : Incoming) (read : String → ℕ)
        (now : ℕ) (r : Router F S)
        → SelectsAmong algorithm r.algo
        → All (HasBreaker r.breakers) r.servers
        → All (λ url. str_eq url "" ≡ false) r.servers
        → ((url : String) → read url ≤ now)
        → ((target : String) × IsEligible algorithm r req.excluded read target
            × IsServed
                (backend target)
                target
                r.metrics
                (serve_http itoa algorithm backend req read now r))
          ⊎ ((serve_http itoa algorithm backend req read now r
                ≡ (r, some (unavailable no_healthy_servers)))
              × ((url : String) → ¬ IsEligible algorithm r req.excluded read url))
    unfolding serve_http snapshot
    serve_http_lem algorithm backend req read now r selects wired named later =
        let pri : String = classify req.path req.priority_header in
        elim (select-Selects algorithm r pri req.excluded read now selects wired named later) [
          | inl (target, e, eligible, touches) ↦ inl (
            target,
            eligible,
            selected-IsServed pri req.attempt backend target r.metrics eligible.1.0 _ e touches.1
                eligible.1.3,
          )
          | inr (e, same, nobody) ↦
              inr (refused-unavailable pri req.attempt backend r _ e same, nobody)
        ]
