-- ===== src/Balancer/Canary/Cycle.antt =====
-- The shares of a history of calls of internal/balancer/canary.go that starts with running weights 0.
use balance_x.Balancer.Canary.Fair.{
  times, IsHistory, selections-IsHistory, selections, total_of, weight_of,
}
use balance_x.Balancer.Canary.Shares.{IsSetUp, IsBalanced, total_weight, total_positive}
use balance_x.Common.Dict.{Dict}
use balance_x.Balancer.Canary.{Canary, ServerStats, pos, weight_at, ◌∷◌}
use balance_x.Balancer.Canary.Sums.{sum_of, sum_of-cong}
use balance_x.Common.Int.{ℤ, ◌+ℤ◌, ◌≤ℤ◌, pos_part, neg_part, int_laws, eq_of_parts}
use native.Mathlib.Nat.{eq_of_mul-eq-mul_left, mul-le-mul_right, lt_of_mul-lt-mul_right}
use balance_x.Common.{
  String, List, ℕ, ◌*◌, Among, ◌≡◌, ◌<◌, ◌∷◌, ◌+◌, arith, inl, ap, ◌≤◌, length, suc, [], inr, subst,
  All, refl, ◌∙◌, sym,
}

-- Balanced from the start: every running weight is 0.
abbrev pub IsFresh : List String → Canary → Type 0
IsFresh us k = (u : String) → Among u us → weight_at u k.current_weights ≡ pos 0

sum_of-zero : (us : List String) → sum_of (λ u. pos 0) us ≡ pos 0
unfolding sum_of ◌+ℤ◌
sum_of-zero [] = refl
sum_of-zero (u ∷ us) = ap (λ x. pos 0 +ℤ x) (sum_of-zero us)

IsBalanced-fresh :
    (c : String) (cs : List String) (k : Canary)
    → IsSetUp (c ∷ cs) k
    → IsFresh (c ∷ cs) k
    → IsBalanced (c ∷ cs) k
IsBalanced-fresh c cs k set_up fresh = record {
  adds_up =
      sum_of-cong (λ u. weight_at u k.current_weights) (λ u. pos 0) (c ∷ cs) fresh
      ∙ sum_of-zero (c ∷ cs);
  bounded = λ u at.
      subst (λ x. pos 1 ≤ℤ x +ℤ total_weight (c ∷ cs) k.server_weights) (sym (fresh u at))
        (let high = total_positive k.server_weights c cs set_up.weighted in omega int_laws);
}

share_below :
    (y x total : ℤ) (s w n : ℕ)
    → x ≡ pos 0
    → pos 1 ≤ℤ y +ℤ total
    → pos_part y + neg_part x + s * pos_part total ≡ neg_part y + pos_part x + n * w
    → s * pos_part total < n * w + pos_part total
share_below y x total s w n zero low h =
    let p = ap pos_part zero in let m = ap neg_part zero in omega int_laws

le_of_mul : (s w total : ℕ) → s * total < total * w + total → s ≤ w
le_of_mul s w total h =
    let below : s < suc w = lt_of_mul-lt-mul_right total (omega arith) in omega arith

full_natural :
    (y x : ℤ) (s w total n : ℕ)
    → x ≡ pos 0
    → n ≡ total
    → pos_part y + neg_part x + s * total ≡ neg_part y + pos_part x + n * w
    → s * total < n * w + total
    → pos 0 ≤ℤ y
full_natural y x s w total n zero whole h low =
    let p = ap pos_part zero in
    let m = ap neg_part zero in
    let e : n * w ≡ total * w = ap (λ a. a * w) whole in
    let le = mul-le-mul_right total (le_of_mul s w total (omega arith)) in omega arith

full_exact :
    (y x : ℤ) (s w total n : ℕ)
    → x ≡ pos 0
    → y ≡ pos 0
    → n ≡ total
    → 0 < total
    → pos_part y + neg_part x + s * total ≡ neg_part y + pos_part x + n * w
    → s ≡ w
full_exact y x s w total n zero zero_y whole some_total h =
    let p = ap pos_part zero in
    let m = ap neg_part zero in
    let p_y = ap pos_part zero_y in
    let m_y = ap neg_part zero_y in
    let e : n * w ≡ total * w = ap (λ a. a * w) whole in
    eq_of_mul-eq-mul_left total some_total s w (omega arith)

rest_natural :
    (f : String → ℤ) (us : List String)
    → ((u : String) → Among u us → pos 0 ≤ℤ f u)
    → pos 0 ≤ℤ sum_of f us
unfolding sum_of
rest_natural f [] h = omega arith
rest_natural f (u ∷ us) h =
    let first = h u (inl refl) in
    let rest = rest_natural f us (λ v at. h v (inr at)) in omega int_laws

no_part_above :
    (f : String → ℤ) (us : List String)
    → ((u : String) → Among u us → pos 0 ≤ℤ f u)
    → sum_of f us ≤ℤ pos 0
    → (u : String) → Among u us
    → f u ≤ℤ pos 0
unfolding sum_of
no_part_above f [] h low u at = absurd at
no_part_above f (v ∷ us) h low u (inl e) =
    subst (λ w. f w ≤ℤ pos 0) e
      (let rest = rest_natural f us (λ w at. h w (inr at)) in omega int_laws)
no_part_above f (v ∷ us) h low u (inr at) =
    no_part_above f us (λ w i. h w (inr i)) (let first = h v (inl refl) in omega int_laws) u at

module _ {F : Type 0} (c : String) (cs : List String) (calls : List (Dict (ServerStats F) × String))
    (k : Canary) (set_up : IsSetUp (c ∷ cs) k) (fresh : IsFresh (c ∷ cs) k) where
  abbrev result : Canary × List String
  result = selections (c ∷ cs) calls k

  history : IsHistory (c ∷ cs) k (length calls) result.1 result.0
  history = selections-IsHistory calls k set_up (IsBalanced-fresh c cs k set_up fresh)

  count_below :
      (u : String)
      → Among u (c ∷ cs)
      → times u result.1 * total_of (c ∷ cs) k < length calls * weight_of u k + total_of (c ∷ cs) k
  count_below u at =
      share_below (weight_at u result.0.current_weights) (weight_at u k.current_weights)
        (total_weight (c ∷ cs) k.server_weights) (times u result.1) (weight_of u k) (length calls)
        (fresh u at)
        (subst (λ w. pos 1 ≤ℤ weight_at u result.0.current_weights +ℤ total_weight (c ∷ cs) w)
          history.weights_stay (history.balanced_kept.bounded u at))
        (history.account u at)

  module _ (whole : length calls ≡ total_of (c ∷ cs) k) where
    natural : (u : String) → Among u (c ∷ cs) → pos 0 ≤ℤ weight_at u result.0.current_weights
    natural u at =
        full_natural (weight_at u result.0.current_weights) (weight_at u k.current_weights)
          (times u result.1) (weight_of u k) (total_of (c ∷ cs) k) (length calls) (fresh u at) whole
          (history.account u at) (count_below u at)

    all_paid : IsFresh (c ∷ cs) result.0
    all_paid u at =
        let low =
          no_part_above (λ v. weight_at v result.0.current_weights) (c ∷ cs) natural
            (let e = ap pos_part history.balanced_kept.adds_up in
              let m = ap neg_part history.balanced_kept.adds_up in omega arith)
            u at in
        let high = natural u at in
        eq_of_parts (weight_at u result.0.current_weights) (pos 0) (omega arith)

    all_exact : (u : String) → Among u (c ∷ cs) → times u result.1 ≡ weight_of u k
    all_exact u at =
        full_exact (weight_at u result.0.current_weights) (weight_at u k.current_weights)
          (times u result.1) (weight_of u k) (total_of (c ∷ cs) k) (length calls) (fresh u at)
          (all_paid u at) whole
          (let high = total_positive k.server_weights c cs set_up.weighted in omega arith)
          (history.account u at)

module _ {F : Type 0} where
  -- Take a balancer that has its weights, whose candidates are distinct, have names and positive
  -- weights, and whose running weights are 0. Whatever the statistics and the priorities of the
  -- calls, they choose candidates only, and after n of them a candidate with the weight w of the
  -- total W has been chosen fewer than n * w / W + 1 times.
  pub selections-Bounded :
      (c : String) (cs : List String) (calls : List (Dict (ServerStats F) × String)) (k : Canary)
      → IsSetUp (c ∷ cs) k
      → IsFresh (c ∷ cs) k
      → let r = selections (c ∷ cs) calls k in
        All (λ b. Among b (c ∷ cs)) r.1
        × ((u : String)
            → Among u (c ∷ cs)
            → times u r.1 * total_of (c ∷ cs) k
              < length calls * weight_of u k + total_of (c ∷ cs) k)
  selections-Bounded c cs calls k set_up fresh =
      ((history c cs calls k set_up fresh).all_chosen, count_below c cs calls k set_up fresh)

  -- From the same state, after as many calls as the weights add up to, each candidate has been
  -- chosen exactly as often as its weight says, and every running weight is 0 again.
  pub selections-exact :
      (c : String) (cs : List String) (calls : List (Dict (ServerStats F) × String)) (k : Canary)
      → IsSetUp (c ∷ cs) k
      → IsFresh (c ∷ cs) k
      → length calls ≡ total_of (c ∷ cs) k
      → let r = selections (c ∷ cs) calls k in
        ((u : String) → Among u (c ∷ cs) → times u r.1 ≡ weight_of u k) × IsFresh (c ∷ cs) r.0
  selections-exact c cs calls k set_up fresh whole =
      (all_exact c cs calls k set_up fresh whole, all_paid c cs calls k set_up fresh whole)
