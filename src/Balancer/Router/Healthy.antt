-- ===== src/Balancer/Router/Healthy.antt =====
-- What `Router.Select` of internal/balancer/router.go selects, for any algorithm behind the interface.
use balance_x.Common.{
  ℕ, ◌≤◌, ◌≡◌, refl, sym, ap, subst, ◌∙◌, ◌↔◌, ◌⊎◌, inl, inr, Bool, true, false, not, String, List,
  [], ◌∷◌, Among, All, some, arith, str_eq, if◌then◌else◌, Bool-cases, Option-cases, All-Among,
}
use mathlib.Core.Option
use balance_x.Common.Dict.{Dict, lookup, insert, contains, lookup-insert}
use balance_x.Metrics.{ServerStats}
use balance_x.Metrics.Recording.{snapshot}
use balance_x.Health.Breaker.{Breaker, is_open, can_send}
use balance_x.Health.Breaker.Gate.{can_send_later}
use balance_x.Balancer.Algorithm.{Algorithm, SelectsAmong}
use balance_x.Balancer.Router.{
  no_healthy_servers, Selection, chosen, failed, Router, admits, candidates, gate, select_from,
  select,
}

abbrev pub HasBreaker : Dict Breaker → String → Type 0
HasBreaker breakers url = (b : Breaker) × (lookup url breakers ≡ some b)

module _ {F : Type 0} (stats : Dict (ServerStats F)) (breakers : Dict Breaker)
    (excluded : List String) (read : String → ℕ) where
  -- The server is not excluded, its statistics say healthy, and its breaker does not count as open.
  abbrev pub Passes : String → Type 0
  Passes url =
      (s : ServerStats F) × (b : Breaker) × (contains url excluded ≡ false)
      × (lookup url stats ≡ some s)
      × (s.is_healthy ≡ true)
      × (lookup url breakers ≡ some b)
      × (is_open b (read url) ≡ false)

  abbrev Decides : String → Bool → Type 0
  Decides url a = (admits stats breakers excluded read url ≡ some a) × ((a ≡ true) ↔ Passes url)

  Passes-open :
      (url : String) (s : ServerStats F) (b : Breaker)
      → contains url excluded ≡ false
      → lookup url stats ≡ some s
      → s.is_healthy ≡ true
      → lookup url breakers ≡ some b
      → (not (is_open b (read url)) ≡ true) ↔ Passes url
  Passes-open url s b x k h e = (
    (λ p. (s, b, x, k, h, e, ground arith)),
    λ p.
        let same : is_open b (read url) ≡ is_open p.1 (read url) = cc (p.5) in
        ground (arith, same, p.6),
  )

  admits_lem :
      (url : String) (b : Breaker) → lookup url breakers ≡ some b → (a : Bool) × Decides url a
  unfolding admits
  admits_lem url b e = elim (Bool-cases (contains url excluded)) [
    | inl x ↦ (false, (rw x, ((λ p. cc), (λ p. cc (p.2)))))
    | inr x ↦ elim (Option-cases (lookup url stats)) [
      | inl n ↦ (false, (rw (x, n, admits), ((λ p. cc), (λ p. cc (p.3)))))
      | inr (s, k) ↦ elim (Bool-cases s.is_healthy) [
        | inl h ↦
            (not (is_open b (read url)), (rw (x, k, h, e, admits), Passes-open url s b x k h e))
        | inr h ↦ (
          false,
          (
            rw (x, k, h, admits),
            (
              (λ p. cc),
              (λ p. let same : s.is_healthy ≡ (p.0).is_healthy = cc (p.3) in cc (same, p.4)),
            ),
          ),
        )
      ]
    ]
  ]

  candidates-admits :
      (url : String) (urls : List String) (a : Bool)
      → admits stats breakers excluded read url ≡ some a
      → candidates stats breakers excluded read (url ∷ urls) ≡ (
          if a
          then Option.map (λ cs. url ∷ cs) (candidates stats breakers excluded read urls)
          else candidates stats breakers excluded read urls)
  unfolding candidates
  candidates-admits url urls a e = rw (e, candidates)

  -- `cs` is what the loop returns for `urls`, and holds just the servers that pass.
  abbrev pub Collects : List String → List String → Type 0
  Collects urls cs =
      (candidates stats breakers excluded read urls ≡ some cs)
      × ((u : String) → Among u cs ↔ (Among u urls × Passes u))

  Collects-more :
      (url : String) (urls cs : List String) (a : Bool)
      → Decides url a
      → Collects urls cs
      → Collects (url ∷ urls) (if a then url ∷ cs else cs)
  Collects-more url urls cs true (e, passes) (found, spec) = (
    candidates-admits url urls true e ∙ ap (Option.map (λ r. url ∷ r)) found,
    λ u. (
      (λ h. elim h [
        | inl p ↦ (inl p, subst Passes p (passes.0 refl))
        | inr m ↦ (inr ((spec u).0 m).0, ((spec u).0 m).1)
      ]),
      (λ h. elim h.0 [ inl p ↦ inl p | inr m ↦ inr ((spec u).1 (m, h.1)) ]),
    ),
  )
  Collects-more url urls cs false (e, passes) (found, spec) = (
    candidates-admits url urls false e ∙ found,
    λ u. (
      (λ m. (inr ((spec u).0 m).0, ((spec u).0 m).1)),
      (λ h. elim h.0 [
        | inl p ↦ cc (passes.1 (subst Passes (sym p) h.1))
        | inr m ↦ (spec u).1 (m, h.1)
      ]),
    ),
  )

  -- The candidates of the loop are the servers that pass, if each server has a breaker.
  pub candidates_lem :
      (urls : List String) → All (HasBreaker breakers) urls → (cs : List String) × Collects urls cs
  unfolding candidates
  candidates_lem [] wired = ([], (refl, λ u. ((λ h. absurd h), (λ h. absurd (h.0)))))
  candidates_lem (url ∷ urls) wired =
      let (cs, rest) = candidates_lem urls wired.1 in
      let (a, decided) = admits_lem url wired.0.0 wired.0.1 in
      (if a then url ∷ cs else cs, Collects-more url urls cs a decided rest)

module _ {F S : Type 0} (algorithm : Algorithm F S) where
  -- A server of the router that passes the tests of the filter.
  abbrev pub IsEligible : Router F S → List String → (String → ℕ) → String → Type 0
  IsEligible r excluded read url =
      Among url r.servers × Passes (snapshot r.metrics) r.breakers excluded read url

  -- The servers, the metrics and every breaker but that of `url` are the same.
  abbrev pub OnlyTouches : String → Router F S → Router F S → Type 0
  OnlyTouches url r r' =
      (r'.servers ≡ r.servers)
      × (r'.metrics ≡ r.metrics)
      × ((v : String) → str_eq url v ≡ false → lookup v r'.breakers ≡ lookup v r.breakers)

  abbrev pub Selects : Router F S → List String → (String → ℕ) → Router F S × Selection → Type 0
  Selects r excluded read out =
      ((url : String) × (out.1 ≡ chosen url)
        × IsEligible r excluded read url
        × OnlyTouches url r out.0)
      ⊎ ((out.1 ≡ failed no_healthy_servers)
          × (out.0 ≡ r)
          × ((url : String) → ¬ IsEligible r excluded read url))

  gate-chosen :
      (r : Router F S) (now : ℕ) (s : S) (url : String) (b : Breaker)
      → str_eq url "" ≡ false
      → lookup url r.breakers ≡ some b
      → (can_send b now).1 ≡ true
      → gate algorithm r now (s, url)
        ≡ (record r { algo = s; breakers = insert url (can_send b now).0 r.breakers }, chosen url)
  unfolding gate
  gate-chosen r now s url b n k ok = rw (n, k, ok, gate)

  gate_lem :
      (r : Router F S) (excluded : List String) (read : String → ℕ) (now : ℕ) (s : S) (url : String)
      → str_eq url "" ≡ false
      → read url ≤ now
      → IsEligible r excluded read url
      → Selects r excluded read (gate algorithm r now (s, url))
  gate_lem r excluded read now s url named later (among, (stats, b, x, k, h, e, shut)) =
      subst (Selects r excluded read)
        (sym (gate-chosen r now s url b named e (can_send_later b (read url) now shut later)))
        (inl (
          url,
          refl,
          (among, (stats, b, x, k, h, e, shut)),
          (refl, refl, λ v ne. lookup-insert url v (can_send b now).0 r.breakers ∙ rw ne),
        ))

  select_from_lem :
      (r : Router F S) (priority : String) (excluded : List String) (read : String → ℕ) (now : ℕ)
      (cs : List String)
      → SelectsAmong algorithm r.algo
      → All (λ url. str_eq url "" ≡ false) r.servers
      → ((url : String) → read url ≤ now)
      → ((url : String) → Among url cs ↔ IsEligible r excluded read url)
      → Selects r excluded read (select_from algorithm r priority now (some cs))
  unfolding select_from
  select_from_lem r priority excluded read now [] selects named later spec =
      inr (refl, refl, λ url h. absurd ((spec url).1 h))
  select_from_lem r priority excluded read now (c ∷ cs) selects named later spec =
      let (s, url) = algorithm.select (c ∷ cs) (snapshot r.metrics) priority r.algo in
      let eligible = (spec url).0 (selects c cs (snapshot r.metrics) priority) in
      gate_lem r excluded read now s url (All-Among _ url r.servers named eligible.0) (later url)
        eligible

  -- For any algorithm that in its state selects one of its candidates, and servers that each have a name and a
  -- breaker: `Select` returns an eligible server (in the pool, not excluded, healthy, its breaker
  -- not open) and changes no breaker but that server's, or no server is eligible and it returns
  -- the error for that and changes nothing. It neither panics nor fails otherwise, since the clock
  -- does not run backwards between the filter and the gate.
  pub select-Selects :
      (r : Router F S) (priority : String) (excluded : List String) (read : String → ℕ) (now : ℕ)
      → SelectsAmong algorithm r.algo
      → All (HasBreaker r.breakers) r.servers
      → All (λ url. str_eq url "" ≡ false) r.servers
      → ((url : String) → read url ≤ now)
      → Selects r excluded read (select algorithm r priority excluded read now)
  unfolding select
  select-Selects r priority excluded read now selects wired named later =
      let (cs, collected) =
        candidates_lem (snapshot r.metrics) r.breakers excluded read r.servers wired in
      subst (λ found_cs. Selects r excluded read (select_from algorithm r priority now found_cs))
        (sym collected.0)
        (select_from_lem r priority excluded read now cs selects named later collected.1)
