-- ===== src/Balancer/Canary/Shares.antt =====
-- What each server gets of the choices of internal/balancer/canary.go.
use balance_x.Balancer.Canary.Round.{raised, raise_loop-IsHighest}
use balance_x.Balancer.Canary.{total_loop, weight_at, Canary, raise_loop, lowest}
use balance_x.Common.{
  ℕ, suc, ◌≡◌, refl, sym, ◌∙◌, ap, true, false, String, List, [], ◌∷◌, str_eq, All, Among,
  All-Among, inl, inr, arith, Bool-cases, subst, some,
}
use balance_x.Common.Dict.{Dict, lookup}
use balance_x.Common.Int.{ℤ, pos, ◌+ℤ◌, ◌≤ℤ◌, ltb_ℤ, int_laws}
use balance_x.Balancer.Canary.Sums.{IsDistinct, sum_of, sum_of-add, sum_of-le}

-- A positive weight is known for the server.
abbrev pub HasWeight : Dict ℤ → String → Type 0
HasWeight weights u = (n : ℕ) × (lookup u weights ≡ some (pos (suc n)))

abbrev pub total_weight : List String → Dict ℤ → ℤ
total_weight us weights = sum_of (λ u. weight_at u weights) us

-- The balancer has its weights, and the candidates are distinct and have names.
pub record IsSetUp (us : List String) (k : Canary) : Type 0 where
  pub started : k.initialized ≡ true
  pub distinct : IsDistinct us
  pub named : All (λ u. str_eq u "" ≡ false) us
  pub weighted : All (HasWeight k.server_weights) us

-- The running weights add up to 0, and each is above minus the total weight.
pub record IsBalanced (us : List String) (k : Canary) : Type 0 where
  pub adds_up : sum_of (λ u. weight_at u k.current_weights) us ≡ pos 0
  pub bounded :
      (u : String)
      → Among u us
      → pos 1 ≤ℤ weight_at u k.current_weights +ℤ total_weight us k.server_weights

weight_at-known :
    (u : String) (n : ℕ) (weights : Dict ℤ)
    → lookup u weights ≡ some (pos (suc n))
    → weight_at u weights ≡ pos (suc n)
unfolding weight_at
weight_at-known u n weights h = rw h

pub weight_positive :
    (weights : Dict ℤ) (us : List String)
    → All (HasWeight weights) us
    → (u : String) → Among u us
    → pos 1 ≤ℤ weight_at u weights
weight_positive weights us h u at =
    let (n, e) = All-Among (HasWeight weights) u us h at in
    subst (λ x. pos 1 ≤ℤ x) (sym (weight_at-known u n weights e)) (omega arith)

total_natural :
    (weights : Dict ℤ) (us : List String)
    → All (HasWeight weights) us
    → pos 0 ≤ℤ total_weight us weights
unfolding sum_of
total_natural weights [] h = omega arith
total_natural weights (u ∷ us) h =
    let first = weight_positive weights (u ∷ us) h u (inl refl) in
    let rest = total_natural weights us h.1 in omega int_laws

pub total_positive :
    (weights : Dict ℤ) (c : String) (cs : List String)
    → All (HasWeight weights) (c ∷ cs)
    → pos 1 ≤ℤ total_weight (c ∷ cs) weights
unfolding sum_of
total_positive weights c cs h =
    let first = weight_positive weights (c ∷ cs) h c (inl refl) in
    let rest = total_natural weights cs h.1 in omega int_laws

add_assoc_ℤ : (a b d : ℤ) → a +ℤ b +ℤ d ≡ a +ℤ (b +ℤ d)
add_assoc_ℤ a b d = omega int_laws

pub zero_add_ℤ : (a : ℤ) → pos 0 +ℤ a ≡ a
zero_add_ℤ a = omega int_laws

pub total_loop_lem :
    (us : List String) (k : Canary) (total : ℤ)
    → All (HasWeight k.server_weights) us
    → total_loop us k total ≡ (k, total +ℤ total_weight us k.server_weights)
unfolding total_loop sum_of
total_loop_lem [] k total h =
    ap (λ t. (k, t)) (let e : total ≡ total +ℤ pos 0 = omega int_laws in e)
total_loop_lem (u ∷ us) k total h =
    let (n, e) = h.0 in
    let w : weight_at u k.server_weights ≡ pos (suc n) = weight_at-known u n k.server_weights e in
    rw (e, total_loop)
      (total_loop_lem us k (total +ℤ pos (suc n)) h.1
        ∙ ap (λ t. (k, t))
            (add_assoc_ℤ total (pos (suc n)) (total_weight us k.server_weights)
              ∙ ap (λ x. total +ℤ (x +ℤ total_weight us k.server_weights)) (sym w)))

module _ (c : String) (cs : List String) (k : Canary) (set_up : IsSetUp (c ∷ cs) k)
    (balanced : IsBalanced (c ∷ cs) k) where
  abbrev pub total : ℤ
  total = total_weight (c ∷ cs) k.server_weights

  abbrev pub after_raise : Dict ℤ × String
  after_raise = raise_loop k.server_weights (c ∷ cs) k.current_weights "" lowest

  pub raised-total : sum_of (raised k.server_weights k.current_weights) (c ∷ cs) ≡ total
  raised-total =
      sum_of-add (λ u. weight_at u k.current_weights) (λ u. weight_at u k.server_weights) (c ∷ cs)
      ∙ ap (λ x. x +ℤ total) balanced.adds_up
      ∙ zero_add_ℤ total

  not_all_low :
      ¬ ((u : String) → Among u (c ∷ cs) → raised k.server_weights k.current_weights u ≤ℤ pos 0)
  not_all_low low =
      let sum_low = sum_of-le (raised k.server_weights k.current_weights) (c ∷ cs) low in
      let here : total ≤ℤ pos 0 = subst (λ x. x ≤ℤ pos 0) raised-total sum_low in
      let high = total_positive k.server_weights c cs set_up.weighted in absurd (omega arith)

  -- The server chosen, and that its raised weight is positive.
  pub best_positive :
      Among after_raise.1 (c ∷ cs)
      × (pos 1 ≤ℤ raised k.server_weights k.current_weights after_raise.1)
  best_positive =
      elim (raise_loop-IsHighest k.server_weights (raised k.server_weights k.current_weights)
        (c ∷ cs) k.current_weights "" lowest set_up.distinct (λ v at. refl)) [
          | inl (none_found, low) ↦ absurd (not_all_low (λ u at. let l = low u at in omega arith))
          | inr (at, high, low) ↦ (
            at,
            elim (Bool-cases
                (ltb_ℤ (pos 0) (raised k.server_weights k.current_weights after_raise.1))) [
                  | inl up ↦ ground arith
                  | inr down ↦ absurd (not_all_low (λ u at_u. let l = low u at_u in ground arith))
                ],
          )
        ]
