-- ===== src/Proxy/InFlight.antt =====
-- Requests that run at the same time through internal/proxy/proxy.go. `RecordStart` and what follows
-- the backend's answer are two steps, and steps of different requests, health checks and other calls
-- on the collector come between them in any order.
use balance_x.Metrics.Recording.{
  update, record_end, record_retry, record_start, set_circuit_state, started, set_health, in_state,
  record_priority, ended, clear_latencies, retried, checked, prioritised, cleared, import_metrics,
  add_servers, new_collector, fresh_stats, restored,
}
use balance_x.Metrics.{ServerStats}
use balance_x.Common.{
  ℕ, suc, ◌+◌, List, [], ◌∷◌, ◌++◌, ◌≡◌, refl, false, some, str_eq, if◌then◌else◌, arith, inl, inr,
  String, Option-cases, Bool, ltb,
}
use balance_x.Common.Float.{Float64, float_zero}
use balance_x.Common.Dict.{
  lookup, lookup-adjust, AllValues-lookup, Dict, AllValues, AllValues-insert,
}
use balance_x.Metrics.Invariant.{Call, step, start, finish, retry, health, circuit, priority, clear}
use balance_x.Proxy.{unbuildable, unreachable, answered, Collector, ℤ, Answer, conclude, pos}

-- How many requests to `url` are on their way.
abbrev pub count_to : String → List String → ℕ
count_to url [] = 0
count_to url (target ∷ targets) = (if str_eq target url then 1 else 0) + count_to url targets

count_to-append :
    (url : String) (xs ys : List String)
    → count_to url (xs ++ ys) ≡ count_to url xs + count_to url ys
count_to-append url [] ys = omega arith
count_to-append url (x ∷ xs) ys = omega (arith, count_to-append url xs ys)

module _ {F : Type 0} where
  -- Every server's counter of connections is the number of requests to it that are on their way.
  abbrev pub Counts : Collector F → List String → Type 0
  Counts c flying =
      (url : String) (s : ServerStats F)
      → lookup url c.servers ≡ some s
      → s.active_connections ≡ count_to url flying

  -- The calls that do not open or close a connection.
  abbrev pub IsAside : Call F → Type 0
  IsAside (start url) = ⊥
  IsAside (finish url latency success) = ⊥
  IsAside (retry url) = Unit {0}
  IsAside (health url healthy clock) = Unit {0}
  IsAside (circuit url state clock) = Unit {0}
  IsAside (priority url p) = Unit {0}
  IsAside (clear url) = Unit {0}

module _ {F : Type 0} ⦃fl : Float64 F⦄ where
  -- An update that leaves the connections alone.
  Counts-update :
      (url : String) (f : ServerStats F → ServerStats F) (c : Collector F) (flying : List String)
      → ((s : ServerStats F) → (f s).active_connections ≡ s.active_connections)
      → Counts c flying
      → Counts (update url f c) flying
  Counts-update url f c flying keep h other s' found =
      elim (Option-cases (lookup other c.servers)) [
        | inl missing ↦ ground (arith, lookup-adjust url other f c.servers, missing)
        | inr (s, e) ↦ ground (arith, lookup-adjust url other f c.servers, e, keep s, h other s e)
      ]

  Counts-circuit :
      (url state clock : String) (c : Collector F) (flying : List String)
      → Counts c flying
      → Counts (set_circuit_state url state clock c) flying
  unfolding set_circuit_state
  Counts-circuit url state clock c flying h other s' found =
      let kept = Counts-update url (in_state state) c flying (λ s. refl) h other s' in
      ground (arith, kept, h other s')

  Counts-aside :
      (k : Call F) (c : Collector F) (flying : List String)
      → IsAside k
      → Counts c flying
      → Counts (step k c) flying
  unfolding step record_retry set_health record_priority clear_latencies
  Counts-aside (start url) c flying a h = absurd a
  Counts-aside (finish url latency success) c flying a h = absurd a
  Counts-aside (retry url) c flying a h = Counts-update url retried c flying (λ s. refl) h
  Counts-aside (health url healthy clock) c flying a h =
      Counts-update url (checked healthy clock) c flying (λ s. refl) h
  Counts-aside (circuit url state clock) c flying a h = Counts-circuit url state clock c flying h
  Counts-aside (priority url p) c flying a h =
      Counts-update url (prioritised p) c flying (λ s. ground arith) h
  Counts-aside (clear url) c flying a h = Counts-update url cleared c flying (λ s. refl) h

  Counts-start :
      (url : String) (c : Collector F) (flying : List String)
      → Counts c flying
      → Counts (record_start url c) (url ∷ flying)
  unfolding record_start
  Counts-start url c flying h other s' found = elim (Option-cases (lookup other c.servers)) [
    | inl missing ↦ ground (arith, lookup-adjust url other started c.servers, missing)
    | inr (s, e) ↦ ground (arith, lookup-adjust url other started c.servers, e, h other s e)
  ]

  -- The request that ends is any of those on their way.
  Counts-end :
      (url : String) (latency : F) (success : Bool) (c : Collector F) (xs ys : List String)
      → Counts c (xs ++ url ∷ ys)
      → Counts (record_end url latency success c) (xs ++ ys)
  unfolding record_end
  Counts-end url latency success c xs ys h other s' found =
      elim (Option-cases (lookup other c.servers)) [
        | inl missing ↦
            ground (arith, lookup-adjust url other (ended latency success) c.servers, missing)
        | inr (s, e) ↦ ground (
          arith,
          lookup-adjust url other (ended latency success) c.servers,
          e,
          h other s e,
          count_to-append other xs ys,
          count_to-append other xs (url ∷ ys),
        )
      ]

  Counts-import :
      (old : Dict (ServerStats F)) (c : Collector F) (flying : List String)
      → Counts c flying
      → Counts (import_metrics old c) flying
  unfolding import_metrics
  Counts-import [] c flying h = h
  Counts-import ((url, s) ∷ rest) c flying h =
      Counts-import rest (update url (restored s) c) flying
        (Counts-update url (restored s) c flying (λ new. refl) h)

  add_servers-quiet :
      (names : List String) (weights : List ℤ) (i : ℕ) (urls : List String)
      (m : Dict (ServerStats F))
      → AllValues (λ s. s.active_connections ≡ 0) m
      → AllValues (λ s. s.active_connections ≡ 0) (add_servers names weights i urls m)
  unfolding add_servers fresh_stats
  add_servers-quiet names weights i [] m h = h
  add_servers-quiet names weights i (url ∷ urls) m h =
      add_servers-quiet names weights (suc i) urls _
        (AllValues-insert (λ s. s.active_connections ≡ 0) url _ m refl h)

  Counts-new :
      (servers names : List String) (weights : List ℤ) (now : ℕ)
      → Counts {F = F} (new_collector servers names weights now) []
  unfolding new_collector
  Counts-new servers names weights now url s found =
      AllValues-lookup (λ t. t.active_connections ≡ 0) url s _
        (add_servers-quiet names weights 0 servers [] tt) found

module _ {F : Type 0} ⦃fl : Float64 F⦄ (itoa : ℤ → String) where
  -- The collectors that arise, each with the targets of the requests that are on their way: a request
  -- sets out, any of those on their way ends, another call comes between, or metrics are taken over.
  pub data Flies : Collector F → List String → Type 0 where
    launched :
        (servers names : List String) (weights : List ℤ) (now : ℕ)
        → Flies (new_collector servers names weights now) []
    opened :
        (target : String) (c : Collector F) (flying : List String)
        → Flies c flying
        → Flies (record_start target c) (target ∷ flying)
    concluded :
        (target pri : String) (attempt : ℕ) (answer : Answer) (c : Collector F)
        (xs ys : List String)
        → Flies c (xs ++ target ∷ ys)
        → Flies (conclude itoa target pri attempt answer c).0 (xs ++ ys)
    came_between :
        (k : Call F) (c : Collector F) (flying : List String)
        → IsAside k
        → Flies c flying
        → Flies (step k c) flying
    taken_over :
        (old : Dict (ServerStats F)) (c : Collector F) (flying : List String)
        → Flies c flying
        → Flies (import_metrics old c) flying

  Counts-conclude :
      (target pri : String) (attempt : ℕ) (answer : Answer) (c : Collector F) (xs ys : List String)
      → Counts c (xs ++ target ∷ ys)
      → Counts (conclude itoa target pri attempt answer c).0 (xs ++ ys)
  unfolding conclude step
  Counts-conclude target pri attempt unbuildable c xs ys h =
      Counts-end target float_zero false c xs ys h
  Counts-conclude target pri attempt (unreachable ms) c xs ys h =
      Counts-end target (fl.of_int (pos ms)) false c xs ys h
  Counts-conclude target pri attempt (answered ms code headers body) c xs ys h =
      Counts-aside (priority target pri) _ (xs ++ ys) tt
        (Counts-end target (fl.of_int (pos ms)) (ltb code 500) c xs ys h)

  -- However requests overlap, and whatever health checks, breakers and reloads do in between: at
  -- every moment each server's counter of active connections is the number of requests to it that
  -- have started and not ended. So the counter never stops short at zero, no connection is lost or
  -- counted twice, and all counters are zero when no request is on its way.
  pub Flies-Counts : {c : Collector F} {flying : List String} → Flies c flying → Counts c flying
  Flies-Counts (launched servers names weights now) = Counts-new servers names weights now
  Flies-Counts (opened target c flying r) = Counts-start target c flying (Flies-Counts r)
  Flies-Counts (concluded target pri attempt answer c xs ys r) =
      Counts-conclude target pri attempt answer c xs ys (Flies-Counts r)
  Flies-Counts (came_between k c flying a r) = Counts-aside k c flying a (Flies-Counts r)
  Flies-Counts (taken_over old c flying r) = Counts-import old c flying (Flies-Counts r)
