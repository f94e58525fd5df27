-- ===== src/Balancer/Weighted.antt =====
-- internal/balancer/weighted.go, `WeightedScore`. `draws k` is the k-th value of `rand.Float64`, and
-- the state counts the values drawn. `float64(s.Weight) <= 0` is a test of the integer's sign.
pub mod Best
use balance_x.Common.{
  ℕ, suc, ◌≡◌, sym, ◌⊎◌, inl, inr, true, false, String, List, [], ◌∷◌, Among, All, none, some,
  arith, str_eq, if◌then◌else◌, Bool-cases, subst, Option-cases, ap, subst₂,
}
use balance_x.Common.Dict.{Dict, lookup}
use balance_x.Common.Int.{ℤ, pos, negsuc, ltb_ℤ}
use balance_x.Common.Float.{Float64, lt_float}
use balance_x.Metrics.{ServerStats}

module _ {F : Type 0} ⦃fl : Float64 F⦄ where
  unfoldable pub latency_weight : String → F
  latency_weight priority =
      if str_eq priority "HIGH" then fl.thousandths 800 else fl.thousandths 600

  unfoldable pub load_weight : String → F
  load_weight priority = if str_eq priority "HIGH" then fl.thousandths 200 else fl.thousandths 400

  unfoldable pub weight_multiplier : ℤ → F
  weight_multiplier w = if ltb_ℤ (pos 0) w then fl.of_int w else fl.of_int (pos 1)

  -- `latencyWeight/(1+avgLatency) + loadWeight/(1+activeConnections)`.
  unfoldable pub base_score : String → ServerStats F → F
  unfolding latency_weight load_weight
  base_score priority s =
      fl.add (fl.quot (latency_weight priority) (fl.add (fl.of_int (pos 1)) s.avg_latency_ms)) (
        fl.quot (load_weight priority)
          (fl.add (fl.of_int (pos 1)) (fl.of_int (pos s.active_connections))))

  -- The score with the jitter of one draw.
  unfoldable pub score : String → F → ServerStats F → F
  unfolding base_score weight_multiplier
  score priority draw s =
      fl.add (fl.mul (base_score priority s) (weight_multiplier s.weight))
        (fl.mul draw (fl.thousandths 1))

  module _ (draws : ℕ → F) (stats : Dict (ServerStats F)) (priority : String) where
    -- The loop over the candidates: the server selected and the number of draws.
    unfoldable pub score_loop : List String → String → F → ℕ → ℕ × String
    score_loop [] best best_score k = (k, best)
    score_loop (url ∷ urls) best best_score k = elim (lookup url stats) [
      | none ↦ score_loop urls best best_score k
      | some s ↦
          let new = score priority (draws k) s in
          score_loop urls (if lt_float best_score new then url else best)
            (if lt_float best_score new then new else best_score) (suc k)
    ]

    -- The candidates with statistics, each with the score that its draw gives.
    unfoldable pub scored : List String → ℕ → List (String × F)
    scored [] k = []
    scored (url ∷ urls) k = elim (lookup url stats) [
      | none ↦ scored urls k
      | some s ↦ (url, score priority (draws k) s) ∷ scored urls (suc k)
    ]

  unfoldable pub select : (ℕ → F) → List String → Dict (ServerStats F) → String → ℕ → ℕ × String
  unfolding score_loop
  select draws [] stats priority k = (k, "")
  select draws (c ∷ cs) stats priority k =
      score_loop draws stats priority (c ∷ cs) c (fl.of_int (negsuc 0)) k
