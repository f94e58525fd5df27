-- ===== src/Balancer/Canary/Fair.antt =====
-- A history of calls of `Select` of internal/balancer/canary.go with the same candidates.
use balance_x.Balancer.Canary.Step.{IsStep, select-IsStep, IsSetUp-IsStep, IsBalanced-IsStep}
use balance_x.Balancer.Canary.Shares.{
  IsSetUp, IsBalanced, total_weight, weight_positive, total_positive,
}
use balance_x.Common.Int.{pos_part, ◌≤ℤ◌, ◌+ℤ◌, ◌-ℤ◌, neg_part, int_laws}
use balance_x.Balancer.Canary.{
  Canary, ℤ, ◌∷◌, select, pos, Dict, weight_at, ServerStats, str_eq, negsuc,
}
use balance_x.Common.{
  false, String, ℕ, Bool, List, suc, ◌*◌, if◌then◌else◌, ◌≡◌, ◌+◌, [], All, Among, arith, true,
  refl, ◌∙◌, subst, length, sym,
}

unfoldable pub times : String → List String → ℕ
times u [] = 0
times u (b ∷ bs) = (if str_eq b u then 1 else 0) + times u bs

module _ {F : Type 0} where
  -- One call for each request, with the statistics and the priority of the moment.
  unfoldable pub selections :
      List String → List (Dict (ServerStats F) × String) → Canary → Canary × List String
  unfolding select
  selections us [] k = (k, [])
  selections us ((stats, priority) ∷ calls) k =
      let r = select us stats priority k in
      let rest = selections us calls r.0 in (rest.0, r.1 ∷ rest.1)

abbrev pub weight_of : String → Canary → ℕ
weight_of u k = pos_part (weight_at u k.server_weights)

abbrev pub total_of : List String → Canary → ℕ
total_of us k = pos_part (total_weight us k.server_weights)

-- What a history of `n` calls has added and taken away at each candidate.
pub record IsHistory (us : List String) (k : Canary) (n : ℕ) (chosen : List String) (after : Canary)
    : Type 0 where
  pub set_up_kept : IsSetUp us after
  pub balanced_kept : IsBalanced us after
  pub weights_stay : after.server_weights ≡ k.server_weights
  pub all_chosen : All (λ b. Among b us) chosen
  pub account :
      (u : String)
      → Among u us
      → pos_part (weight_at u after.current_weights)
          + neg_part (weight_at u k.current_weights)
          + times u chosen * total_of us k
        ≡ neg_part (weight_at u after.current_weights)
          + pos_part (weight_at u k.current_weights)
          + n * weight_of u k

suc_mul_lem : (a b : ℕ) → suc a * b ≡ b + a * b
suc_mul_lem a b = omega arith

step_account :
    (same : Bool) (x w t : ℤ)
    → pos 1 ≤ℤ w
    → pos 1 ≤ℤ t
    → let y = x +ℤ w -ℤ (if same then t else pos 0) in
      pos_part y + neg_part x + (if same then 1 else 0) * pos_part t
      ≡ neg_part y + pos_part x + pos_part w
step_account true x (pos w) (pos t) h g = omega int_laws
step_account false x (pos w) (pos t) h g = omega int_laws
step_account b x (negsuc w) t h g = absurd (omega arith)
step_account b x (pos w) (negsuc t) h g = absurd (omega arith)

add_mul_lem : (a b d : ℕ) → (a + b) * d ≡ a * d + b * d
add_mul_lem a b d = omega arith

-- The accounts of a call and of the calls after it.
join_account :
    (p0 n0 p1 n1 p2 n2 s t w total n : ℕ)
    → p1 + n0 + s * total ≡ n1 + p0 + w
    → p2 + n1 + t * total ≡ n2 + p1 + n * w
    → p2 + n0 + (s + t) * total ≡ n2 + p0 + suc n * w
join_account p0 n0 p1 n1 p2 n2 s t w total n first rest =
    let split = add_mul_lem s t total in let more = suc_mul_lem n w in omega arith

module _ {c : String} {cs : List String} {k : Canary} (set_up : IsSetUp (c ∷ cs) k) where
  abbrev us : List String
  us = c ∷ cs

  IsHistory-empty : IsBalanced us k → IsHistory us k 0 [] k
  unfolding times
  IsHistory-empty balanced = record {
    set_up_kept = set_up;
    balanced_kept = balanced;
    weights_stay = refl;
    all_chosen = tt;
    account = λ u at. omega arith;
  }

  module _ {b : String} {middle : Canary} (step : IsStep us k b middle) where
    IsStep-account :
        (u : String)
        → Among u us
        → pos_part (weight_at u middle.current_weights)
            + neg_part (weight_at u k.current_weights)
            + (if str_eq b u then 1 else 0) * total_of us k
          ≡ neg_part (weight_at u middle.current_weights)
            + pos_part (weight_at u k.current_weights)
            + weight_of u k
    IsStep-account u at =
        subst
          (λ y.
            pos_part y
              + neg_part (weight_at u k.current_weights)
              + (if str_eq b u then 1 else 0) * total_of us k
            ≡ neg_part y + pos_part (weight_at u k.current_weights) + weight_of u k)
          (sym (step.paid u at))
          (step_account (str_eq b u) (weight_at u k.current_weights) (weight_at u k.server_weights)
            (total_weight us k.server_weights)
            (weight_positive k.server_weights us set_up.weighted u at)
            (total_positive k.server_weights c cs set_up.weighted))

    IsHistory-after :
        {n : ℕ} {chosen : List String} {after : Canary}
        → IsHistory us middle n chosen after
        → IsHistory us k (suc n) (b ∷ chosen) after
    unfolding times
    IsHistory-after {n} {chosen} {after} history = record {
      set_up_kept = history.set_up_kept;
      balanced_kept = history.balanced_kept;
      weights_stay = history.weights_stay ∙ step.weights_kept;
      all_chosen = (step.chosen, history.all_chosen);
      account = λ u at.
          join_account (pos_part (weight_at u k.current_weights))
            (neg_part (weight_at u k.current_weights))
            (pos_part (weight_at u middle.current_weights))
            (neg_part (weight_at u middle.current_weights))
            (pos_part (weight_at u after.current_weights))
            (neg_part (weight_at u after.current_weights)) (if str_eq b u then 1 else 0)
            (times u chosen) (weight_of u k) (total_of us k) n (IsStep-account u at)
            (subst
              (λ w.
                pos_part (weight_at u after.current_weights)
                  + neg_part (weight_at u middle.current_weights)
                  + times u chosen * pos_part (total_weight us w)
                ≡ neg_part (weight_at u after.current_weights)
                  + pos_part (weight_at u middle.current_weights)
                  + n * pos_part (weight_at u w))
              step.weights_kept (history.account u at));
    }

module _ {F : Type 0} {c : String} {cs : List String} where
  pub selections-IsHistory :
      (calls : List (Dict (ServerStats F) × String)) (k : Canary)
      → IsSetUp (c ∷ cs) k
      → IsBalanced (c ∷ cs) k
      → let r = selections (c ∷ cs) calls k in IsHistory (c ∷ cs) k (length calls) r.1 r.0
  unfolding selections
  selections-IsHistory [] k set_up balanced = IsHistory-empty set_up balanced
  selections-IsHistory ((stats, priority) ∷ calls) k set_up balanced =
      let step = select-IsStep c cs stats priority k set_up balanced in
      IsHistory-after set_up step (
        selections-IsHistory calls (select (c ∷ cs) stats priority k).0 (IsSetUp-IsStep step set_up)
          (IsBalanced-IsStep step set_up balanced))
