-- ===== src/Service/Results/Recorded.antt =====
-- What `RecordCircuitBreakerResult` of internal/service/manager.go leaves: the breaker, the metrics and
-- the services after a result, said without the code's own operations on them.
use balance_x.Common.Dict.{
  lookup, lookup-adjust_self, lookup-insert_self, Dict, lookup-insert, AllValues-lookup,
}
use balance_x.Common.Float.{Float64}
use balance_x.Common.{
  Bool, ℕ, ◌≡◌, String, ◌+◌, if◌then◌else◌, some, ◌&&◌, true, not, Bool-cases, [], str_eq, inl, inr,
  false, arith, refl, ◌∙◌, ap, Option-cases, subst, sym, eq_iff,
}
use balance_x.Service.{Manager, Instance}
use balance_x.Service.Results.{
  record_circuit_breaker_result, record_first, record_own, record_at, HasOneOwner, LacksUrl,
  record_first-found, record_first-passed, rest_lacks,
}
use balance_x.Metrics.{Collector, ServerStats}
use balance_x.Metrics.Recording.{set_circuit_state, clear_latencies, in_state, cleared}
use balance_x.Health.Breaker.{
  Breaker, closed, is_closed, record_success, record_failure, state_name,
}
use balance_x.Common.{◌∷◌}

-- The breaker before and after a result.
abbrev pub IsRecorded : Bool → ℕ → Breaker → Breaker → Type 0
IsRecorded true now b after = (after.state ≡ closed) × (after.failure_count ≡ 0)
IsRecorded false now b after =
    (after.failure_count ≡ b.failure_count + 1) × (after.last_failure_time ≡ now)

module _ {F : Type 0} ⦃fl : Float64 F⦄ where
  -- The statistics of its server before and after: the latencies are gone when a success closes the
  -- breaker `b`.
  abbrev pub IsNoted : Bool → Breaker → ServerStats F → Breaker → ServerStats F → Type 0
  IsNoted success b s after noted =
      (noted.circuit_state ≡ state_name after)
      × (noted.total_requests ≡ s.total_requests)
      × (noted.recent_latencies
          ≡ (if success && not (is_closed b.state) then [] else s.recent_latencies))

  set_circuit_state_self :
      (url state clock : String) (c : Collector F) (s : ServerStats F)
      → lookup url c.servers ≡ some s
      → lookup url (set_circuit_state url state clock c).servers ≡ some (in_state state s)
  unfolding set_circuit_state
  set_circuit_state_self url state clock c s found =
      let stored = lookup-adjust_self url (in_state state) s c.servers found in
      rw (found, set_circuit_state)
        (elim (Bool-cases (str_eq s.circuit_state state)) [
          | inl same ↦ rw same stored
          | inr apart ↦ rw apart stored
        ])

record_failure-IsRecorded : (b : Breaker) (now : ℕ) → IsRecorded false now b (record_failure b now)
unfolding record_failure
record_failure-IsRecorded b now = (ground arith, ground arith)

module _ {F : Type 0} ⦃fl : Float64 F⦄ (url : String) (now : ℕ) (clock : String) where
  -- The breaker and the statistics of the URL at the instance that it is recorded at.
  abbrev pub IsNotedAt : Bool → Breaker → ServerStats F → Instance F → Type 0
  IsNotedAt success b s after =
      (b' : Breaker) × (s' : ServerStats F) × (lookup url after.router.breakers ≡ some b')
      × IsRecorded success now b b'
      × (lookup url after.router.metrics.servers ≡ some s')
      × IsNoted success b s b' s'

  record_at-IsNotedAt :
      (success : Bool) (b : Breaker) (inst : Instance F) (s : ServerStats F)
      → lookup url inst.router.metrics.servers ≡ some s
      → IsNotedAt success b s (record_at url success now clock b inst)
  unfolding record_at record_success
  record_at-IsNotedAt true b inst s found = elim (Bool-cases (is_closed b.state)) [
    | inl e ↦ (
      record b { failure_count = 0; state = closed },
      in_state (state_name (record b { failure_count = 0; state = closed })) s,
      lookup-insert_self url _ inst.router.breakers,
      (refl, refl),
      rw e (set_circuit_state_self url _ clock inst.router.metrics s found),
      (refl, refl, rw e refl),
    )
    | inr e ↦ (
      record b { failure_count = 0; state = closed },
      in_state (state_name (record b { failure_count = 0; state = closed })) (cleared s),
      lookup-insert_self url _ inst.router.breakers,
      (refl, refl),
      rw e (
          set_circuit_state_self url _ clock (clear_latencies url inst.router.metrics) (cleared s) (
            unfold clear_latencies in
            lookup-adjust_self url cleared s inst.router.metrics.servers found)),
      (refl, refl, rw e refl),
    )
  ]
  record_at-IsNotedAt false b inst s found = (
    record_failure b now,
    in_state (state_name (record_failure b now)) s,
    lookup-insert_self url _ inst.router.breakers,
    record_failure-IsRecorded b now,
    set_circuit_state_self url _ clock inst.router.metrics s found,
    (refl, refl, refl),
  )

  record_at-other :
      (success : Bool) (b : Breaker) (inst : Instance F) (u : String)
      → str_eq url u ≡ false
      → lookup u (record_at url success now clock b inst).router.breakers
        ≡ lookup u inst.router.breakers
  unfolding record_at
  record_at-other success b inst u apart =
      lookup-insert url u _ inst.router.breakers ∙ rw apart refl

  not_both :
      (success : Bool) (i inst : Instance F) (b : Breaker)
      → i ≡ inst
      → LacksUrl url success now clock i
      → lookup url inst.router.breakers ≡ some b
      → ⊥
  not_both success i inst b e lacks has = cc (ap (λ j. lookup url j.router.breakers) e, lacks, has)

  record_own-has :
      (success : Bool) (i inst : Instance F) (b : Breaker)
      → i ≡ inst
      → lookup url inst.router.breakers ≡ some b
      → record_own url success now clock i ≡ record_at url success now clock b inst
  unfolding record_own
  record_own-has success i inst b e has =
      ap (record_own url success now clock) e ∙ rw (has, record_own) refl

  record_first-own :
      (success : Bool) (m : Dict (Instance F)) (name : String) (inst : Instance F) (b : Breaker)
      → HasOneOwner url success now clock m
      → lookup name m ≡ some inst
      → lookup url inst.router.breakers ≡ some b
      → lookup name (record_first url success now clock m)
        ≡ some (record_at url success now clock b inst)
  unfolding lookup
  record_first-own success [] name inst b one found has = absurd (cc found)
  record_first-own success ((k, i) ∷ rest) name inst b one found has =
      elim (Option-cases (lookup url i.router.breakers)) [
        | inl lacks ↦
            ap (lookup name) (record_first-passed url success now clock k i rest lacks)
            ∙ elim (Bool-cases (str_eq k name)) [
              | inl same ↦
                  absurd (not_both success i inst b (ground (arith, same, found)) lacks has)
              | inr apart ↦
                  rw apart (record_first-own success rest name inst b one.1 (rw apart at found) has)
            ]
        | inr (b', e) ↦
            ap (lookup name) (record_first-found url success now clock k i rest b' e)
            ∙ elim (Bool-cases (str_eq k name)) [
              | inl same ↦
                  rw same
                    (ap some (record_own-has success i inst b (ground (arith, same, found)) has))
              | inr apart ↦ absurd (
                  not_both success inst inst b refl
                    (AllValues-lookup (LacksUrl url success now clock) name inst rest
                      (rest_lacks url success now clock i rest b' e one.0) (rw apart at found))
                    has)
            ]
      ]

  record_first-other :
      (success : Bool) (m : Dict (Instance F)) (name other : String) (inst : Instance F)
      (b : Breaker)
      → HasOneOwner url success now clock m
      → lookup name m ≡ some inst
      → lookup url inst.router.breakers ≡ some b
      → str_eq name other ≡ false
      → lookup other (record_first url success now clock m) ≡ lookup other m
  unfolding lookup
  record_first-other success [] name other inst b one found has differ = absurd (cc found)
  record_first-other success ((k, i) ∷ rest) name other inst b one found has differ =
      elim (Option-cases (lookup url i.router.breakers)) [
        | inl lacks ↦
            ap (lookup other) (record_first-passed url success now clock k i rest lacks)
            ∙ elim (Bool-cases (str_eq k name)) [
              | inl same ↦
                  absurd (not_both success i inst b (ground (arith, same, found)) lacks has)
              | inr apart ↦
                  ap (λ o. if str_eq k other then some i else o)
                    (record_first-other success rest name other inst b one.1 (rw apart at found) has
                      differ)
            ]
        | inr (b', e) ↦
            ap (lookup other) (record_first-found url success now clock k i rest b' e)
            ∙ elim (Bool-cases (str_eq k name)) [
              | inl same ↦
                  let k_differs : str_eq k other ≡ false =
                    subst (λ j. str_eq j other ≡ false) (sym ((eq_iff k name).0 same)) differ in
                  rw k_differs refl
              | inr apart ↦ absurd (
                  not_both success inst inst b refl
                    (AllValues-lookup (LacksUrl url success now clock) name inst rest
                      (rest_lacks url success now clock i rest b' e one.0) (rw apart at found))
                    has)
            ]
      ]

  -- Take a service that has a breaker and statistics for the URL, when no other service has a breaker
  -- for it. A success leaves that breaker closed with no failures, and clears the latencies of the
  -- server if the breaker was not closed; a failure counts one more and takes the time. The server's
  -- circuit state is then the breaker's. The service's breaker of any other URL, and any other
  -- service, stay as they were, whatever the order of the services.
  pub record_circuit_breaker_result_lem :
      (success : Bool) (m : Manager F) (name other u : String) (inst : Instance F) (b : Breaker)
      (s : ServerStats F)
      → HasOneOwner url success now clock m.instances
      → lookup name m.instances ≡ some inst
      → lookup url inst.router.breakers ≡ some b
      → lookup url inst.router.metrics.servers ≡ some s
      → str_eq url u ≡ false
      → str_eq name other ≡ false
      → let m' = record_circuit_breaker_result url success now clock m in
        (after : Instance F) × (lookup name m'.instances ≡ some after)
        × IsNotedAt success b s after
        × (lookup u after.router.breakers ≡ lookup u inst.router.breakers)
        × (lookup other m'.instances ≡ lookup other m.instances)
        × (m'.cfg ≡ m.cfg)
  unfolding record_circuit_breaker_result
  record_circuit_breaker_result_lem success m name other u inst b s one found has known u_apart
        differ =
      (
        record_at url success now clock b inst,
        record_first-own success m.instances name inst b one found has,
        record_at-IsNotedAt success b inst s known,
        record_at-other success b inst u u_apart,
        record_first-other success m.instances name other inst b one found has differ,
        refl,
      )
