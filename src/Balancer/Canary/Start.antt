-- ===== src/Balancer/Canary/Start.antt =====
-- The calls of `Select` of internal/balancer/canary.go from a new balancer on: the first one sets the
-- weights from the statistics.
use balance_x.Common.{
  ℕ, zero, suc, ◌+◌, ◌*◌, ◌<◌, true, false, All-map, eq_iff, String, List, if◌then◌else◌, ◌≡◌, ◌⊎◌,
  Among, ◌∷◌, ap, ◌∙◌, All, [], inl, inr, Bool-cases, refl, sym, arith, str_eq, length, subst,
}
use balance_x.Common.Int.{ℤ, pos, negsuc, ltb_ℤ}
use balance_x.Common.Dict.{Dict, lookup, lookup-insert}
use balance_x.Metrics.{ServerStats}
use balance_x.Balancer.Canary.{
  add_server, init_loop, Canary, init_weights, weight_at, select, new_canary, choose, total_loop,
}
use balance_x.Balancer.Canary.Sums.{IsDistinct}
use balance_x.Balancer.Canary.Shares.{HasWeight, IsSetUp}
use balance_x.Balancer.Canary.Round.{weight_at-insert}
use balance_x.Balancer.Canary.Fair.{selections, times, weight_of, total_of}
use balance_x.Balancer.Canary.Cycle.{IsFresh, selections-Bounded, selections-exact}

-- The positive weight of the server, from its statistics.
abbrev pub given : ℤ → ℤ
given w = if ltb_ℤ (pos 0) w then w else pos 1

given_positive : (w : ℤ) → (n : ℕ) × (given w ≡ pos (suc n))
given_positive (pos zero) = (0, refl)
given_positive (pos (suc n)) = (n, ground arith)
given_positive (negsuc n) = (0, ground arith)

abbrev NoDebt : Canary → Type 0
NoDebt k = (u : String) → weight_at u k.current_weights ≡ pos 0

NoDebt-add_server : (url : String) (w : ℤ) (k : Canary) → NoDebt k → NoDebt (add_server url w k)
unfolding add_server
NoDebt-add_server url w k h u =
    weight_at-insert url u (pos 0) k.current_weights
    ∙ elim (str_eq url u) as (λ b. (if b then pos 0 else weight_at u k.current_weights) ≡ pos 0) [
      | true ↦ refl
      | false ↦ h u
    ]

HasWeight-add_server :
    (url : String) (w : ℤ) (k : Canary) (u : String)
    → ((url ≡ u) ⊎ HasWeight k.server_weights u)
    → HasWeight (add_server url (given w) k).server_weights u
unfolding add_server
HasWeight-add_server url w k u h = elim (Bool-cases (str_eq url u)) [
  | inl same ↦
      let (n, e) = given_positive w in
      (n, lookup-insert url u (given w) k.server_weights ∙ rw (same, e) refl)
  | inr apart ↦ elim h [
    | inl e ↦ absurd (let same = (eq_iff url u).1 e in ground arith)
    | inr (n, e) ↦ (n, lookup-insert url u (given w) k.server_weights ∙ rw (apart, e) refl)
  ]
]

module _ {F : Type 0} where
  abbrev pub keys : Dict (ServerStats F) → List String
  keys [] = []
  keys ((url, s) ∷ stats) = url ∷ keys stats

  init_loop-NoDebt :
      (stats : Dict (ServerStats F)) (k : Canary) → NoDebt k → NoDebt (init_loop stats k)
  unfolding init_loop
  init_loop-NoDebt [] k h = h
  init_loop-NoDebt ((url, s) ∷ stats) k h =
      init_loop-NoDebt stats (add_server url (given s.weight) k)
        (NoDebt-add_server url (given s.weight) k h)

  init_loop-HasWeight :
      (stats : Dict (ServerStats F)) (k : Canary) (u : String)
      → (Among u (keys stats) ⊎ HasWeight k.server_weights u)
      → HasWeight (init_loop stats k).server_weights u
  unfolding init_loop
  init_loop-HasWeight [] k u (inl at) = absurd at
  init_loop-HasWeight [] k u (inr h) = h
  init_loop-HasWeight ((url, s) ∷ stats) k u (inl (inl e)) =
      init_loop-HasWeight stats (add_server url (given s.weight) k) u
        (inr (HasWeight-add_server url s.weight k u (inl e)))
  init_loop-HasWeight ((url, s) ∷ stats) k u (inl (inr at)) =
      init_loop-HasWeight stats (add_server url (given s.weight) k) u (inl at)
  init_loop-HasWeight ((url, s) ∷ stats) k u (inr h) =
      init_loop-HasWeight stats (add_server url (given s.weight) k) u
        (inr (HasWeight-add_server url s.weight k u (inr h)))

  module _ (us : List String) (stats : Dict (ServerStats F)) (distinct : IsDistinct us)
      (named : All (λ u. str_eq u "" ≡ false) us) (known : All (λ u. Among u (keys stats)) us) where
    pub IsSetUp-init_weights : IsSetUp us (init_weights stats new_canary)
    unfolding init_weights new_canary
    IsSetUp-init_weights = record {
      started = refl;
      distinct = distinct;
      named = named;
      weighted = All-map (λ u at. init_loop-HasWeight stats new_canary u (inl at)) us known;
    }

    pub IsFresh-init_weights : IsFresh us (init_weights stats new_canary)
    unfolding init_weights new_canary weight_at lookup
    IsFresh-init_weights u at = init_loop-NoDebt stats new_canary (λ v. refl) u

  init_twice :
      (stats : Dict (ServerStats F))
      → init_weights stats (init_weights stats new_canary) ≡ init_weights stats new_canary
  unfolding init_weights
  init_twice stats = refl

  selections-start :
      (c : String) (cs : List String) (stats : Dict (ServerStats F)) (priority : String)
      → (calls : List (Dict (ServerStats F) × String))
      → selections (c ∷ cs) ((stats, priority) ∷ calls) new_canary
        ≡ selections (c ∷ cs) ((stats, priority) ∷ calls) (init_weights stats new_canary)
  unfolding selections select
  selections-start c cs stats priority calls =
      ap
        (λ k.
          let r = choose c cs (total_loop (c ∷ cs) k (pos 0)) in
          let rest = selections (c ∷ cs) calls r.0 in (rest.0, r.1 ∷ rest.1))
        (sym (init_twice stats))

module _ {F : Type 0} where
  -- Let a new balancer serve n requests, at least one, with the same candidates, which are
  -- distinct, have names and are in the statistics of the first request. Every choice is a
  -- candidate, and a candidate that those statistics give the weight w of the total W is chosen
  -- fewer than n * w / W + 1 times, whatever the priorities and the later statistics are.
  pub select-shares :
      (c : String) (cs : List String) (stats : Dict (ServerStats F)) (priority : String)
      → (calls : List (Dict (ServerStats F) × String)) → IsDistinct (c ∷ cs)
      → All (λ v. str_eq v "" ≡ false) (c ∷ cs)
      → All (λ v. Among v (keys stats)) (c ∷ cs)
      → (u : String) → Among u (c ∷ cs)
      → let k = init_weights stats new_canary in
        let chosen = (selections (c ∷ cs) ((stats, priority) ∷ calls) new_canary).1 in
        All (λ b. Among b (c ∷ cs)) chosen
        × (times u chosen * total_of (c ∷ cs) k
            < suc (length calls) * weight_of u k + total_of (c ∷ cs) k)
  select-shares c cs stats priority calls distinct named known u at =
      let k = init_weights stats new_canary in
      let set_up = IsSetUp-init_weights (c ∷ cs) stats distinct named known in
      let fresh = IsFresh-init_weights (c ∷ cs) stats distinct named known in
      let bounded = selections-Bounded c cs ((stats, priority) ∷ calls) k set_up fresh in
      subst
        (λ r.
          All (λ b. Among b (c ∷ cs)) r.1
          × (times u r.1 * total_of (c ∷ cs) k
              < suc (length calls) * weight_of u k + total_of (c ∷ cs) k))
        (sym (selections-start c cs stats priority calls)) (bounded.0, bounded.1 u at)

  -- Let a new balancer serve as many requests as the weights of the candidates add up to, with the
  -- same candidates, which are distinct, have names and are in the statistics of the first request.
  -- Then each candidate is chosen exactly as often as the weight says that those statistics give it.
  pub select-cycle :
      (c : String) (cs : List String) (stats : Dict (ServerStats F)) (priority : String)
      → (calls : List (Dict (ServerStats F) × String)) → IsDistinct (c ∷ cs)
      → All (λ v. str_eq v "" ≡ false) (c ∷ cs)
      → All (λ v. Among v (keys stats)) (c ∷ cs)
      → suc (length calls) ≡ total_of (c ∷ cs) (init_weights stats new_canary)
      → (u : String) → Among u (c ∷ cs)
      → times u (selections (c ∷ cs) ((stats, priority) ∷ calls) new_canary).1
        ≡ weight_of u (init_weights stats new_canary)
  select-cycle c cs stats priority calls distinct named known whole u at =
      let k = init_weights stats new_canary in
      let set_up = IsSetUp-init_weights (c ∷ cs) stats distinct named known in
      let fresh = IsFresh-init_weights (c ∷ cs) stats distinct named known in
      ap (λ r. times u r.1) (selections-start c cs stats priority calls)
      ∙ (selections-exact c cs ((stats, priority) ∷ calls) k set_up fresh whole).0 u at
