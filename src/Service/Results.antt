-- ===== src/Service/Results.antt =====
-- `RecordCircuitBreakerResult` of internal/service/manager.go: the registry of the circuit-breaker
-- middleware. `now` is the clock of the breaker, `clock` its text.
pub mod Recorded
use balance_x.Service.{Manager, Instance}
use balance_x.Metrics.{Collector}
use balance_x.Common.Float.{Float64}
use balance_x.Common.{
  String, none, some, Bool, ℕ, if◌then◌else◌, ◌≡◌, ◌∷◌, ap₂, refl, [], ◌⊎◌, Option-cases, inl, inr,
  ◌∙◌, sym, ap,
}
use balance_x.Common.Dict.{Dict, lookup, insert, AllValues}
use balance_x.Health.Breaker.{Breaker, record_success, record_failure, state_name}
use balance_x.Metrics.Recording.{clear_latencies, set_circuit_state}

module _ {F : Type 0} ⦃fl : Float64 F⦄ (url : String) (success : Bool) (now : ℕ)
    (clock : String) where
  -- The breaker, and the collector before its circuit state is set.
  abbrev after_result : Breaker → Collector F → Breaker × Collector F
  after_result b m =
      if success
      then (let r = record_success b in (r.0, if r.1 then clear_latencies url m else m))
      else (record_failure b now, m)

  unfoldable pub record_at : Breaker → Instance F → Instance F
  record_at b inst =
      let r = after_result b inst.router.metrics in
      record inst {
        router = record inst.router {
          metrics = set_circuit_state url (state_name r.0) clock r.1;
          breakers = insert url r.0 inst.router.breakers;
        };
      }

  -- The loop over the instances returns at the first that has a breaker for the URL.
  unfoldable pub record_first : Dict (Instance F) → Dict (Instance F)
  unfolding record_at
  record_first [] = []
  record_first ((name, inst) ∷ rest) =
      let later = record_first rest in
      elim (lookup url inst.router.breakers) [
        | some b ↦ (name, record_at b inst) ∷ rest
        | none ↦ (name, inst) ∷ later
      ]

  unfoldable pub record_circuit_breaker_result : Manager F → Manager F
  unfolding record_first
  record_circuit_breaker_result m = record m { instances = record_first m.instances }

  -- What the result does at one instance.
  unfoldable pub record_own : Instance F → Instance F
  record_own inst = elim (lookup url inst.router.breakers) [
    | some b ↦ record_at b inst
    | none ↦ inst
  ]

  unfoldable pub record_everywhere : Dict (Instance F) → Dict (Instance F)
  unfolding record_own
  record_everywhere [] = []
  record_everywhere ((name, inst) ∷ rest) = (name, record_own inst) ∷ record_everywhere rest

  abbrev pub LacksUrl : Instance F → Type 0
  LacksUrl inst = lookup url inst.router.breakers ≡ none

  -- At most one service has a breaker for the URL.
  abbrev pub HasOneOwner : Dict (Instance F) → Type 0
  HasOneOwner [] = Unit {0}
  HasOneOwner ((name, inst) ∷ rest) = (LacksUrl inst ⊎ AllValues LacksUrl rest) × HasOneOwner rest

  record_own-lacks : (inst : Instance F) → LacksUrl inst → record_own inst ≡ inst
  unfolding record_own
  record_own-lacks inst e = rw (e, record_own) refl

  record_everywhere-lacks : (m : Dict (Instance F)) → AllValues LacksUrl m → record_everywhere m ≡ m
  unfolding record_everywhere
  record_everywhere-lacks [] h = refl
  record_everywhere-lacks ((name, inst) ∷ rest) h =
      ap₂ (λ i r. (name, i) ∷ r) (record_own-lacks inst h.0) (record_everywhere-lacks rest h.1)

  record_first-found :
      (name : String) (inst : Instance F) (rest : Dict (Instance F)) (b : Breaker)
      → lookup url inst.router.breakers ≡ some b
      → record_first ((name, inst) ∷ rest) ≡ (name, record_own inst) ∷ rest
  unfolding record_first record_own
  record_first-found name inst rest b e = rw (e, record_first, record_own) refl

  record_first-passed :
      (name : String) (inst : Instance F) (rest : Dict (Instance F))
      → LacksUrl inst
      → record_first ((name, inst) ∷ rest) ≡ (name, inst) ∷ record_first rest
  unfolding record_first
  record_first-passed name inst rest e = rw (e, record_first) refl

  rest_lacks :
      (inst : Instance F) (rest : Dict (Instance F)) (b : Breaker)
      → lookup url inst.router.breakers ≡ some b
      → (LacksUrl inst ⊎ AllValues LacksUrl rest)
      → AllValues LacksUrl rest
  rest_lacks inst rest b e (inl lacks) = absurd (cc (lacks, e))
  rest_lacks inst rest b e (inr h) = h

  pub record_first-everywhere :
      (m : Dict (Instance F)) → HasOneOwner m → record_first m ≡ record_everywhere m
  unfolding record_everywhere record_first
  record_first-everywhere [] h = refl
  record_first-everywhere ((name, inst) ∷ rest) h =
      elim (Option-cases (lookup url inst.router.breakers)) [
        | inl e ↦
            record_first-passed name inst rest e
            ∙ ap₂ (λ i r. (name, i) ∷ r) (sym (record_own-lacks inst e))
                (record_first-everywhere rest h.1)
        | inr (b, e) ↦
            record_first-found name inst rest b e
            ∙ ap (λ r. (name, record_own inst) ∷ r)
                (sym (record_everywhere-lacks rest (rest_lacks inst rest b e h.0)))
      ]
