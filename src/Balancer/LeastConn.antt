-- ===== src/Balancer/LeastConn.antt =====
-- internal/balancer/leastconn.go.
use balance_x.Common.{
  ℕ, ◌^◌, ◌≤◌, ◌<◌, ◌≡◌, refl, ◌⊎◌, inl, inr, String, List, [], ◌∷◌, Among, All, none, some, arith,
  ltb, if◌then◌else◌, Bool-cases, Option-cases, sym, subst,
}
use balance_x.Common.Dict.{Dict, lookup}
use balance_x.Metrics.{ServerStats}
use balance_x.Balancer.Algorithm.{Algorithm, SelectsAmong}

abbrev pub conn_limit : ℕ
conn_limit = 2 ^ 62

module _ {F : Type 0} where
  -- The loop over the candidates, with `best` and `bestConn`.
  unfoldable pub least_loop : Dict (ServerStats F) → List String → String → ℕ → String
  least_loop stats [] best best_conn = best
  least_loop stats (url ∷ urls) best best_conn = elim (lookup url stats) [
    | none ↦ least_loop stats urls best best_conn
    | some s ↦
        least_loop stats urls (if ltb s.active_connections best_conn then url else best)
          (if ltb s.active_connections best_conn then s.active_connections else best_conn)
  ]

  unfoldable pub select : List String → Dict (ServerStats F) → String → Unit {0} → Unit {0} × String
  unfolding least_loop
  select [] stats priority u = (u, "")
  select (c ∷ cs) stats priority u = (u, least_loop stats (c ∷ cs) c conn_limit)

  -- Every statistics of `url` shows at least `n` connections.
  abbrev pub AtLeast : Dict (ServerStats F) → ℕ → String → Type 0
  AtLeast stats n url = (s : ServerStats F) → lookup url stats ≡ some s → n ≤ s.active_connections

  -- `url` has statistics with fewer than `n` connections, and none of the list has fewer.
  abbrev pub IsLeast : Dict (ServerStats F) → ℕ → List String → String → Type 0
  IsLeast stats n urls url =
      (s : ServerStats F) × (lookup url stats ≡ some s)
      × (s.active_connections < n)
      × All (AtLeast stats s.active_connections) urls

  abbrev LoopResult : Dict (ServerStats F) → ℕ → List String → String → String → Type 0
  LoopResult stats n urls best r =
      ((r ≡ best) × All (AtLeast stats n) urls) ⊎ (Among r urls × IsLeast stats n urls r)

  AtLeast-known :
      (stats : Dict (ServerStats F)) (n : ℕ) (url : String) (s : ServerStats F)
      → lookup url stats ≡ some s
      → n ≤ s.active_connections
      → AtLeast stats n url
  AtLeast-known stats n url s e h s' e' = ground arith

  AtLeast-missing :
      (stats : Dict (ServerStats F)) (n : ℕ) (url : String)
      → lookup url stats ≡ none
      → AtLeast stats n url
  AtLeast-missing stats n url e s' e' = cc

  -- A candidate below the best so far, and then the rest.
  took :
      (stats : Dict (ServerStats F)) (url : String) (urls : List String) (best : String) (n : ℕ)
      (s : ServerStats F) (r : String)
      → lookup url stats ≡ some s
      → s.active_connections < n
      → LoopResult stats s.active_connections urls url r
      → LoopResult stats n (url ∷ urls) best r
  took stats url urls best n s r e less (inl (same, rest)) = inr (
    inl (sym same),
    (s, rw same e, less, (AtLeast-known stats s.active_connections url s e (omega arith), rest)),
  )
  took stats url urls best n s r e less (inr (among, (t, known, below, rest))) = inr (
    inr among,
    (t, known, omega arith, (AtLeast-known stats t.active_connections url s e (omega arith), rest)),
  )

  -- A candidate not below the best so far, and then the rest.
  kept :
      (stats : Dict (ServerStats F)) (url : String) (urls : List String) (best : String) (n : ℕ)
      (r : String)
      → AtLeast stats n url
      → LoopResult stats n urls best r
      → LoopResult stats n (url ∷ urls) best r
  kept stats url urls best n r more (inl (same, rest)) = inl (same, (more, rest))
  kept stats url urls best n r more (inr (among, (t, known, below, rest))) =
      inr (inr among, (t, known, below, ((λ s e. omega (arith, more s e)), rest)))

  loop_step :
      (stats : Dict (ServerStats F)) (url : String) (urls : List String) (best : String) (n : ℕ)
      (s : ServerStats F) (r : String)
      → lookup url stats ≡ some s
      → LoopResult stats
          (if ltb s.active_connections n then s.active_connections else n)
          urls
          (if ltb s.active_connections n then url else best)
          r
      → LoopResult stats n (url ∷ urls) best r
  loop_step stats url urls best n s r e h = elim (Bool-cases (ltb s.active_connections n)) [
    | inl less ↦ took stats url urls best n s r e (ground arith) (rw less at h)
    | inr more ↦
        kept stats url urls best n r (AtLeast-known stats n url s e (ground arith)) (rw more at h)
  ]

  least_loop-missing :
      (stats : Dict (ServerStats F)) (url : String) (urls : List String) (best : String) (n : ℕ)
      → lookup url stats ≡ none
      → least_loop stats (url ∷ urls) best n ≡ least_loop stats urls best n
  unfolding least_loop
  least_loop-missing stats url urls best n e = rw (e, least_loop)

  least_loop-known :
      (stats : Dict (ServerStats F)) (url : String) (urls : List String) (best : String) (n : ℕ)
      (s : ServerStats F)
      → lookup url stats ≡ some s
      → least_loop stats (url ∷ urls) best n
        ≡ least_loop stats urls
            (if ltb s.active_connections n then url else best)
            (if ltb s.active_connections n then s.active_connections else n)
  unfolding least_loop
  least_loop-known stats url urls best n s e = rw (e, least_loop)

  least_loop_lem :
      (stats : Dict (ServerStats F)) (urls : List String) (best : String) (n : ℕ)
      → LoopResult stats n urls best (least_loop stats urls best n)
  unfolding least_loop
  least_loop_lem stats [] best n = inl (refl, tt)
  least_loop_lem stats (url ∷ urls) best n = elim (Option-cases (lookup url stats)) [
    | inl e ↦
        subst (LoopResult stats n (url ∷ urls) best)
          (sym (least_loop-missing stats url urls best n e))
          (kept stats url urls best n (least_loop stats urls best n) (AtLeast-missing stats n url e)
            (least_loop_lem stats urls best n))
    | inr (s, e) ↦
        subst (LoopResult stats n (url ∷ urls) best)
          (sym (least_loop-known stats url urls best n s e))
          (loop_step stats url urls best n s _ e (least_loop_lem stats urls _ _))
  ]

  -- If the first candidate has statistics with fewer than 2^62 connections, the selected server is
  -- a candidate that has statistics, and no candidate with statistics has fewer connections.
  pub select-IsLeast :
      (c : String) (cs : List String) (stats : Dict (ServerStats F)) (priority : String)
      (first : ServerStats F)
      → lookup c stats ≡ some first
      → first.active_connections < conn_limit
      → let r = (select (c ∷ cs) stats priority tt).1 in
        Among r (c ∷ cs) × IsLeast stats conn_limit (c ∷ cs) r
  unfolding select
  select-IsLeast c cs stats priority first e small =
      elim (least_loop_lem stats (c ∷ cs) c conn_limit) [
        | inl (same, rest) ↦ absurd (omega (arith, rest.0 first e))
        | inr least ↦ least
      ]

  pub select-Among :
      (c : String) (cs : List String) (stats : Dict (ServerStats F)) (priority : String)
      (u : Unit {0})
      → Among (select (c ∷ cs) stats priority u).1 (c ∷ cs)
  unfolding select
  select-Among c cs stats priority u = elim (least_loop_lem stats (c ∷ cs) c conn_limit) [
    | inl (same, rest) ↦ inl (sym same)
    | inr (among, _) ↦ among
  ]

  unfoldable pub least_connections : Algorithm F (Unit {0})
  least_connections = record { select = select }

  pub least_connections-SelectsAmong : (s : Unit {0}) → SelectsAmong {F = F} least_connections s
  unfolding least_connections
  least_connections-SelectsAmong s c cs stats priority = select-Among c cs stats priority s
