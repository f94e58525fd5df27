-- ===== src/Balancer/Weighted/Best.antt =====
-- What `WeightedScore.Select` of internal/balancer/weighted.go selects.
use balance_x.Common.{
  ℕ, suc, ◌≡◌, refl, sym, ap, subst, subst₂, ◌⊎◌, inl, inr, true, false, String, List, [], ◌∷◌,
  Among, All, none, some, arith, if◌then◌else◌, Bool-cases, Option-cases,
}
use balance_x.Common.Dict.{Dict, lookup}
use balance_x.Common.Int.{negsuc}
use balance_x.Common.Float.{Float64, lt_float}
use balance_x.Metrics.{ServerStats}
use balance_x.Balancer.Algorithm.{Algorithm, SelectsAmong}
use balance_x.Balancer.Weighted.{score, score_loop, scored, select}

module _ {F : Type 0} ⦃fl : Float64 F⦄ where
  abbrev pub NotAbove : F → List (String × F) → Type 0
  NotAbove x = All (λ p. lt_float x p.1 ≡ false)

  -- The server stands in the list with a score above `x` that no other score exceeds.
  abbrev pub IsBest : F → List (String × F) → String → Type 0
  IsBest x ps url = (y : F) × Among (url, y) ps × (lt_float x y ≡ true) × NotAbove y ps

  abbrev LoopResult : F → List (String × F) → String → String → Type 0
  LoopResult x ps best r = ((r ≡ best) × NotAbove x ps) ⊎ IsBest x ps r

  lt_antisymm : (x y : F) → lt_float x y ≡ true → lt_float y x ≡ false
  lt_antisymm x y h = ground (arith, fl.lt_irrefl x, fl.lt_trans x y x)

  -- A score above the best so far, and then the rest.
  took :
      (x y : F) (url best : String) (ps : List (String × F)) (r : String)
      → lt_float x y ≡ true
      → LoopResult y ps url r
      → LoopResult x ((url, y) ∷ ps) best r
  took x y url best ps r less (inl (same, rest)) =
      inr (y, inl (λ i. (sym same i, y)), less, (fl.lt_irrefl y, rest))
  took x y url best ps r less (inr (z, among, more, rest)) =
      inr (z, inr among, fl.lt_trans x y z less more, (lt_antisymm y z more, rest))

  kept :
      (x y : F) (url best : String) (ps : List (String × F)) (r : String)
      → lt_float x y ≡ false
      → LoopResult x ps best r
      → LoopResult x ((url, y) ∷ ps) best r
  kept x y url best ps r more (inl (same, rest)) = inl (same, (more, rest))
  kept x y url best ps r more (inr (z, among, above, rest)) =
      inr (z, inr among, above, (ground (arith, fl.lt_trans x z y above), rest))

  took_or_kept :
      (x y : F) (url best : String) (ps : List (String × F)) (r : String)
      → LoopResult (if lt_float x y then y else x) ps (if lt_float x y then url else best) r
      → LoopResult x ((url, y) ∷ ps) best r
  took_or_kept x y url best ps r h = elim (Bool-cases (lt_float x y)) [
    | inl e ↦ took x y url best ps r e (rw e at h)
    | inr e ↦ kept x y url best ps r e (rw e at h)
  ]

  module _ (draws : ℕ → F) (stats : Dict (ServerStats F)) (priority : String) where
    -- The two ways through the loop's body, for the loop and for the list of scores.
    missing :
        (url : String) (urls : List String) (best : String) (x : F) (k : ℕ)
        → lookup url stats ≡ none
        → (score_loop draws stats priority (url ∷ urls) best x k
            ≡ score_loop draws stats priority urls best x k)
          × (scored draws stats priority (url ∷ urls) k ≡ scored draws stats priority urls k)
    unfolding score_loop scored
    missing url urls best x k e = (rw (e, score_loop), rw (e, scored))

    known :
        (url : String) (urls : List String) (best : String) (x : F) (k : ℕ) (s : ServerStats F)
        → lookup url stats ≡ some s
        → let y = score priority (draws k) s in
          (score_loop draws stats priority (url ∷ urls) best x k
            ≡ score_loop draws stats priority urls
                (if lt_float x y then url else best)
                (if lt_float x y then y else x)
                (suc k))
          × (scored draws stats priority (url ∷ urls) k
              ≡ (url, y) ∷ scored draws stats priority urls (suc k))
    unfolding score_loop scored
    known url urls best x k s e = (rw (e, score_loop), rw (e, scored))

    score_loop_lem :
        (urls : List String) (best : String) (x : F) (k : ℕ)
        → LoopResult x
            (scored draws stats priority urls k)
            best
            (score_loop draws stats priority urls best x k).1
    unfolding score_loop scored
    score_loop_lem [] best x k = inl (refl, tt)
    score_loop_lem (url ∷ urls) best x k = elim (Option-cases (lookup url stats)) [
      | inl e ↦
          let steps = missing url urls best x k e in
          subst₂ (λ r ps. LoopResult x ps best r.1) (sym steps.0) (sym steps.1)
            (score_loop_lem urls best x k)
      | inr (s, e) ↦
          let steps = known url urls best x k s e in
          subst₂ (λ r ps. LoopResult x ps best r.1) (sym steps.0) (sym steps.1)
            (took_or_kept x (score priority (draws k) s) url best _ _
              (score_loop_lem urls _ _ (suc k)))
    ]

    Among-scored :
        (urls : List String) (k : ℕ) (url : String) (y : F)
        → Among (url, y) (scored draws stats priority urls k)
        → Among url urls
    unfolding scored
    Among-scored [] k url y h = absurd h
    Among-scored (v ∷ urls) k url y h = elim (Option-cases (lookup v stats)) [
      | inl e ↦
          inr (Among-scored urls k url y (subst (Among (url, y)) (missing v urls v y k e).1 h))
      | inr (s, e) ↦ elim (subst (Among (url, y)) (known v urls v y k s e).1 h) [
        | inl p ↦ inl (ap (λ (q : String × F). q.0) p)
        | inr m ↦ inr (Among-scored urls (suc k) url y m)
      ]
    ]

  pub select-Among :
      (draws : ℕ → F) (c : String) (cs : List String) (stats : Dict (ServerStats F))
      (priority : String) (k : ℕ)
      → Among (select draws (c ∷ cs) stats priority k).1 (c ∷ cs)
  unfolding select
  select-Among draws c cs stats priority k =
      elim (score_loop_lem draws stats priority (c ∷ cs) c (fl.of_int (negsuc 0)) k) [
        | inl (same, rest) ↦ inl (sym same)
        | inr (y, among, _, _) ↦ Among-scored draws stats priority (c ∷ cs) k _ y among
      ]

  -- If the first candidate has statistics and a score above -1, the selected server is one that has
  -- the highest score: no candidate's score, each with the jitter of its own draw, exceeds it.
  pub select-IsBest :
      (draws : ℕ → F) (c : String) (cs : List String) (stats : Dict (ServerStats F))
      (priority : String) (k : ℕ) (first : ServerStats F)
      → lookup c stats ≡ some first
      → lt_float (fl.of_int (negsuc 0)) (score priority (draws k) first) ≡ true
      → IsBest
          (fl.of_int (negsuc 0))
          (scored draws stats priority (c ∷ cs) k)
          (select draws (c ∷ cs) stats priority k).1
  unfolding select
  select-IsBest draws c cs stats priority k first e above =
      elim (score_loop_lem draws stats priority (c ∷ cs) c (fl.of_int (negsuc 0)) k) [
        | inl (same, rest) ↦ cc (
          above,
          (subst (NotAbove (fl.of_int (negsuc 0)))
              (known draws stats priority c cs c first_score k first e).1 rest).0,
        )
        | inr best ↦ best
      ]
    where
      first_score : F
      first_score = score priority (draws k) first

  unfoldable pub weighted_score : (ℕ → F) → Algorithm F ℕ
  weighted_score draws = record { select = select draws }

  pub weighted_score-SelectsAmong :
      (k : ℕ) (draws : ℕ → F) → SelectsAmong {F = F} (weighted_score draws) k
  unfolding weighted_score
  weighted_score-SelectsAmong k draws c cs stats priority = select-Among draws c cs stats priority k
