-- ===== src/Balancer/Canary/Fresh.antt =====
-- A new balancer of internal/balancer/canary.go selects a candidate, whatever the statistics.
use balance_x.Balancer.Algorithm.{SelectsAmong}
use balance_x.Metrics.{ServerStats}
use balance_x.Common.Dict.{Dict, lookup}
use balance_x.Common.Int.{ℤ, ◌≤ℤ◌, ltb_ℤ, ◌+ℤ◌, eq_ℤ, pos_part, neg_part, +ℤ_parts}
use balance_x.Balancer.Canary.{
  choose, Canary, total_loop, raise_loop, add_server, new_canary, init_loop, init_weights, pos,
  canary, weight_at, select, lowest,
}
use balance_x.Common.{
  String, true, false, List, ◌≡◌, Among, ◌∷◌, Option-cases, if◌then◌else◌, ◌∙◌, inl, [], arith,
  Bool-cases, refl, str_eq, inr, subst, sym, ap,
}
use balance_x.Balancer.Canary.Round.{
  raised, weight_at-insert, raise_loop-higher, after, raise_loop-lower,
}

-- No weight is negative and no running weight differs from 0.
pub record IsNew (k : Canary) : Type 0 where
  pub no_debt : (u : String) → weight_at u k.current_weights ≡ pos 0
  pub natural : (u : String) → pos 0 ≤ℤ weight_at u k.server_weights

positive_natural : (w : ℤ) → pos 0 ≤ℤ (if ltb_ℤ (pos 0) w then w else pos 1)
positive_natural w = ground arith

IsNew-add_server :
    (url : String) (w : ℤ) (k : Canary) → pos 0 ≤ℤ w → IsNew k → IsNew (add_server url w k)
unfolding add_server
IsNew-add_server url w k h new = record {
  no_debt = λ u.
      weight_at-insert url u (pos 0) k.current_weights
      ∙ elim (Bool-cases (str_eq url u)) [ inl e ↦ rw e refl | inr e ↦ rw e (new.no_debt u) ];
  natural = λ u.
      subst (λ x. pos 0 ≤ℤ x) (sym (weight_at-insert url u w k.server_weights))
        (elim (Bool-cases (str_eq url u)) [ inl e ↦ rw e h | inr e ↦ rw e (new.natural u) ]);
}

total_loop-IsNew : (us : List String) (k : Canary) (t : ℤ) → IsNew k → IsNew (total_loop us k t).0
unfolding total_loop
total_loop-IsNew [] k t new = new
total_loop-IsNew (u ∷ us) k t new = elim (Option-cases (lookup u k.server_weights)) [
  | inl e ↦
      rw (e, total_loop)
        (total_loop-IsNew us (add_server u (pos 1) k) (t +ℤ pos 1)
          (IsNew-add_server u (pos 1) k (omega arith) new))
  | inr (w, e) ↦ rw (e, total_loop) (total_loop-IsNew us k (t +ℤ w) new)
]

raise_loop-Among :
    (weights : Dict ℤ) (us : List String) (current : Dict ℤ) (best : String) (best_cw : ℤ)
    → Among (raise_loop weights us current best best_cw).1 (best ∷ us)
unfolding raise_loop
raise_loop-Among weights [] current best best_cw = inl refl
raise_loop-Among weights (u ∷ us) current best best_cw =
    let next = after weights u current in
    elim (Bool-cases (ltb_ℤ best_cw (raised weights current u))) [
      | inl up ↦
          subst (λ r. Among r.1 (best ∷ u ∷ us))
            (sym (raise_loop-higher weights u us current best best_cw up))
            (inr (raise_loop-Among weights us next u (raised weights current u)))
      | inr down ↦
          subst (λ r. Among r.1 (best ∷ u ∷ us))
            (sym (raise_loop-lower weights u us current best best_cw down))
            (elim (raise_loop-Among weights us next best best_cw) [
              | inl e ↦ inl e
              | inr at ↦ inr (inr at)
            ])
    ]

high_enough : (x w : ℤ) → x ≡ pos 0 → pos 0 ≤ℤ w → ltb_ℤ lowest (x +ℤ w) ≡ true
high_enough x w e h =
    let p = ap pos_part e in let m = ap neg_part e in let sum = +ℤ_parts x w in ground arith

choose-total :
    (c : String) (cs : List String) (k : Canary) (total : ℤ)
    → (choose c cs (k, total)).1 ≡ (
        if eq_ℤ total (pos 0)
        then c
        else (raise_loop k.server_weights (c ∷ cs) k.current_weights "" lowest).1)
unfolding choose
choose-total c cs k total = elim (Bool-cases (eq_ℤ total (pos 0))) [
  | inl e ↦ rw (e, choose) refl
  | inr e ↦ rw (e, choose) refl
]

choose-Among :
    (c : String) (cs : List String) (k : Canary) (total : ℤ)
    → IsNew k
    → Among (choose c cs (k, total)).1 (c ∷ cs)
choose-Among c cs k total new =
    let up =
      high_enough (weight_at c k.current_weights) (weight_at c k.server_weights) (new.no_debt c)
        (new.natural c) in
    subst (λ b. Among b (c ∷ cs)) (sym (choose-total c cs k total))
      (elim (eq_ℤ total (pos 0))
        as (λ t.
          Among
            (if t then c else (raise_loop k.server_weights (c ∷ cs) k.current_weights "" lowest).1)
            (c ∷ cs)) [
              | true ↦ inl refl
              | false ↦
                  subst (λ r. Among r.1 (c ∷ cs))
                    (sym (raise_loop-higher k.server_weights c cs k.current_weights "" lowest up))
                    (raise_loop-Among k.server_weights cs
                      (after k.server_weights c k.current_weights) c
                      (raised k.server_weights k.current_weights c))
            ])

IsNew-empty : IsNew new_canary
unfolding new_canary weight_at lookup
IsNew-empty = record { no_debt = λ u. refl; natural = λ u. omega arith }

module _ {F : Type 0} where
  init_loop-IsNew :
      (stats : Dict (ServerStats F)) (k : Canary) → IsNew k → IsNew (init_loop stats k)
  unfolding init_loop
  init_loop-IsNew [] k new = new
  init_loop-IsNew ((url, s) ∷ stats) k new =
      init_loop-IsNew stats _ (IsNew-add_server url _ k (positive_natural s.weight) new)

  IsNew-init_weights : (stats : Dict (ServerStats F)) → IsNew (init_weights stats new_canary)
  unfolding init_weights new_canary
  IsNew-init_weights stats =
      let new = init_loop-IsNew stats new_canary IsNew-empty in
      record { no_debt = new.no_debt; natural = new.natural }

  pub new_canary-SelectsAmong : SelectsAmong {F = F} canary new_canary
  unfolding canary select
  new_canary-SelectsAmong c cs stats priority =
      choose-Among c cs (total_loop (c ∷ cs) (init_weights stats new_canary) (pos 0)).0
        (total_loop (c ∷ cs) (init_weights stats new_canary) (pos 0)).1
        (total_loop-IsNew (c ∷ cs) (init_weights stats new_canary) (pos 0)
          (IsNew-init_weights stats))
