-- ===== src/Balancer/Canary/Step.antt =====
-- One call of `Select` of internal/balancer/canary.go, once the weights are set.
use balance_x.Balancer.Canary.Shares.{
  total_weight, IsSetUp, IsBalanced, after_raise, total, HasWeight, best_positive, total_loop_lem,
  zero_add_ℤ, total_positive, weight_positive,
}
use balance_x.Balancer.Canary.Sums.{less_at, sum_of-cong, sum_of-less_at, sum_of-add}
use balance_x.Balancer.Canary.Round.{raised, weight_at-insert, raise_loop-raised}
use balance_x.Common.Int.{◌≤ℤ◌, int_laws, ◌+ℤ◌}
use balance_x.Balancer.Canary.{
  weight_at, pay, Canary, ℤ, Dict, str_eq, pos, false, ◌-ℤ◌, init_weights, choose, insert,
  raise_loop, ServerStats, true, lowest, eq_ℤ, Bool, select, total_loop,
}
use balance_x.Common.{
  String, List, ◌≡◌, Among, if◌then◌else◌, ap, ◌∙◌, ◌∷◌, Bool-cases, inl, eq_iff, arith, inr, sym,
  subst, refl, All, All-Among,
}

-- What a call that chooses `best` makes of the balancer.
pub record IsStep (us : List String) (k : Canary) (best : String) (after : Canary) : Type 0 where
  pub weights_kept : after.server_weights ≡ k.server_weights
  pub started_kept : after.initialized ≡ k.initialized
  pub chosen : Among best us
  pub high : pos 1 ≤ℤ raised k.server_weights k.current_weights best
  pub paid :
      (u : String)
      → Among u us
      → weight_at u after.current_weights
        ≡ less_at best
            (total_weight us k.server_weights)
            (raised k.server_weights k.current_weights)
            u

pay-named :
    (b : String) (total : ℤ) (d : Dict ℤ)
    → str_eq b "" ≡ false
    → pay total (d, b) ≡ insert b (weight_at b d -ℤ total) d
unfolding pay
pay-named b total d named = rw named

minus_zero : (x : ℤ) → x -ℤ pos 0 ≡ x
minus_zero x = omega int_laws

pay-less_at :
    (f : String → ℤ) (b : String) (total : ℤ) (d : Dict ℤ) (u : String)
    → str_eq b "" ≡ false
    → weight_at b d ≡ f b
    → weight_at u d ≡ f u
    → weight_at u (pay total (d, b)) ≡ less_at b total f u
pay-less_at f b total d u named at_b at_u =
    ap (weight_at u) (pay-named b total d named)
    ∙ weight_at-insert b u (weight_at b d -ℤ total) d
    ∙ elim (Bool-cases (str_eq b u)) [
      | inl same ↦ rw (same, at_b) (ap (λ v. f v -ℤ total) ((eq_iff b u).0 same))
      | inr apart ↦ rw apart (at_u ∙ sym (minus_zero (f u)))
    ]

module _ {F : Type 0} where
  init_weights-started :
      (stats : Dict (ServerStats F)) (k : Canary) → k.initialized ≡ true → init_weights stats k ≡ k
  unfolding init_weights
  init_weights-started stats k started = rw started

choose_lem :
    (c : String) (cs : List String) (k : Canary) (total : ℤ)
    → pos 1 ≤ℤ total
    → let raised_loop = raise_loop k.server_weights (c ∷ cs) k.current_weights "" lowest in
      choose c cs (k, total) ≡ (record k { current_weights = pay total raised_loop }, raised_loop.1)
unfolding choose
choose_lem c cs k total high = let e : eq_ℤ total (pos 0) ≡ false = ground arith in rw e

module _ {F : Type 0} (c : String) (cs : List String) (stats : Dict (ServerStats F))
    (priority : String) (k : Canary) (set_up : IsSetUp (c ∷ cs) k)
    (balanced : IsBalanced (c ∷ cs) k) where
  abbrev best : String
  best = (after_raise c cs k set_up balanced).1

  abbrev paid_weights : Dict ℤ
  paid_weights = pay (total c cs k set_up balanced) (after_raise c cs k set_up balanced)

  select_lem :
      select (c ∷ cs) stats priority k ≡ (record k { current_weights = paid_weights }, best)
  unfolding select
  select_lem =
      ap (λ i. choose c cs (total_loop (c ∷ cs) i (pos 0)))
        (init_weights-started stats k set_up.started)
      ∙ ap (choose c cs) (
          total_loop_lem (c ∷ cs) k (pos 0) set_up.weighted
          ∙ ap (λ t. (k, t)) (zero_add_ℤ (total c cs k set_up balanced)))
      ∙ choose_lem c cs k (total c cs k set_up balanced)
          (total_positive k.server_weights c cs set_up.weighted)

  paid_lem :
      (u : String)
      → Among u (c ∷ cs)
      → weight_at u paid_weights
        ≡ less_at best (total c cs k set_up balanced) (raised k.server_weights k.current_weights) u
  paid_lem u at =
      let f = raised k.server_weights k.current_weights in
      let positive = best_positive c cs k set_up balanced in
      let up =
        raise_loop-raised k.server_weights f (c ∷ cs) k.current_weights "" lowest set_up.distinct
          (λ v i. refl) in
      pay-less_at f best (total c cs k set_up balanced) (after_raise c cs k set_up balanced).0 u
        (All-Among (λ v. str_eq v "" ≡ false) best (c ∷ cs) set_up.named positive.0)
        (up best positive.0) (up u at)

  pub select-IsStep : let r = select (c ∷ cs) stats priority k in IsStep (c ∷ cs) k r.1 r.0
  select-IsStep =
      let positive = best_positive c cs k set_up balanced in
      subst (λ r. IsStep (c ∷ cs) k r.1 r.0) (sym select_lem)
        (record {
          weights_kept = refl;
          started_kept = refl;
          chosen = positive.0;
          high = positive.1;
          paid = paid_lem;
        })

module _ {us : List String} {k after : Canary} {best : String} (step : IsStep us k best after) where
  pub IsSetUp-IsStep : IsSetUp us k → IsSetUp us after
  IsSetUp-IsStep set_up = record {
    started = step.started_kept ∙ set_up.started;
    distinct = set_up.distinct;
    named = set_up.named;
    weighted = subst (λ w. All (HasWeight w) us) (sym step.weights_kept) set_up.weighted;
  }

  abbrev to_pay : ℤ
  to_pay = total_weight us k.server_weights

  less_self : (x : ℤ) → x -ℤ x ≡ pos 0
  less_self x = omega int_laws

  paid_bounded :
      (b : Bool) (x w t : ℤ)
      → pos 1 ≤ℤ x +ℤ t
      → pos 1 ≤ℤ w
      → (b ≡ true → pos 1 ≤ℤ x +ℤ w)
      → pos 1 ≤ℤ x +ℤ w -ℤ (if b then t else pos 0) +ℤ t
  paid_bounded true x w t low weighs high = let h = high refl in omega int_laws
  paid_bounded false x w t low weighs high = omega int_laws

  pub IsBalanced-IsStep : IsSetUp us k → IsBalanced us k → IsBalanced us after
  IsBalanced-IsStep set_up balanced = record {
    adds_up =
        sum_of-cong (λ u. weight_at u after.current_weights)
          (less_at best to_pay (raised k.server_weights k.current_weights)) us step.paid
        ∙ sum_of-less_at best to_pay (raised k.server_weights k.current_weights) us set_up.distinct
            step.chosen
        ∙ ap (λ x. x -ℤ to_pay)
            (sum_of-add (λ u. weight_at u k.current_weights) (λ u. weight_at u k.server_weights) us
              ∙ ap (λ x. x +ℤ to_pay) balanced.adds_up
              ∙ zero_add_ℤ to_pay)
        ∙ less_self to_pay;
    bounded = λ u at.
        subst (λ w. pos 1 ≤ℤ weight_at u after.current_weights +ℤ total_weight us w)
          (sym step.weights_kept)
          (subst (λ x. pos 1 ≤ℤ x +ℤ to_pay) (sym (step.paid u at))
            (paid_bounded (str_eq best u) (weight_at u k.current_weights)
              (weight_at u k.server_weights) to_pay (balanced.bounded u at)
              (weight_positive k.server_weights us set_up.weighted u at)
              (λ same.
                subst (λ v. pos 1 ≤ℤ raised k.server_weights k.current_weights v)
                  ((eq_iff best u).0 same) step.high)));
  }
